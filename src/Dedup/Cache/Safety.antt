-- ===== src/Dedup/Cache/Safety.antt =====
-- The local cache's operations that follow an iterator, on valid caches.
use mathlib.Core.List.{get_last?}
use udp_to_rabbitmq_gateway.Base.{
  ap, ℕ, ◌≤◌, ◌<◌, ◌≡◌, refl, sym, ◌∙◌, inl, inr, Bool, true, Option, none, some, ◌∷◌, arith, leb,
  Bytes, nat_eq, bytes_eq, length, Bool-cases, Option-cases,
}
use udp_to_rabbitmq_gateway.Base.Maps.{lookup, erase, lookup-insert, lookup-erase}
use udp_to_rabbitmq_gateway.Dedup.MessageId.{MessageId, generate_key}
use udp_to_rabbitmq_gateway.Dedup.Cache.Nodes.{
  Node, is_expired, key, deref, erase_iter, iter_of, deref-iter_of, deref-fresh, Below-suc,
  length-erase_iter, length-erase_le, iter_of-last, nil_of_no-last,
}
use udp_to_rabbitmq_gateway.Dedup.Cache.Invariant.{
  IsSynced, IsValid, check_and_run_cleanup-IsValid, drop-IsSynced, front-IsSynced,
}
use udp_to_rabbitmq_gateway.Dedup.Cache.{
  LocalCache, visit, find, contains, evict_lru, push_front, insert_new, refresh, store, insert_id,
  remove,
}

-- The operation is defined and leaves a valid cache.
abbrev pub Safe : Option (LocalCache × Bool) → Type 0
Safe none = ⊥
Safe (some r) = IsValid r.0

-- Under the invariant a key in the map leads to its node.
pub deref-lookup :
    (c : LocalCache) (k : Bytes) (i : ℕ)
    → IsSynced c
    → lookup k c.cache_map ≡ some i
    → (n : Node) × (deref i c.cache_list ≡ some n) × (key n ≡ k) × (n.iter ≡ i)
deref-lookup c k i s h = deref-iter_of k c.cache_list i s.distinct (sym (s.synced k) ∙ h)

drop-IsValid :
    (k : Bytes) (i : ℕ) (c d : LocalCache)
    → IsValid c
    → lookup k c.cache_map ≡ some i
    → d.max_size ≡ c.max_size
    → d.cache_list ≡ erase_iter i c.cache_list
    → d.cache_map ≡ erase k c.cache_map
    → d.fresh ≡ c.fresh
    → IsValid d
drop-IsValid k i c d v h s l m f = record {
  positive = omega (arith, v.positive);
  bounded = rw (s, l) (omega (arith, length-erase_le i c.cache_list, v.bounded));
  inner = drop-IsSynced k i c d v.inner h l m f;
}

front-IsValid :
    (k : Bytes) (i : ℕ) (n old : Node) (c d : LocalCache)
    → IsValid c
    → lookup k c.cache_map ≡ some i
    → deref i c.cache_list ≡ some old
    → n.iter ≡ i
    → key n ≡ k
    → d.max_size ≡ c.max_size
    → d.cache_list ≡ n ∷ erase_iter i c.cache_list
    → d.cache_map ≡ c.cache_map
    → d.fresh ≡ c.fresh
    → IsValid d
front-IsValid k i n old c d v h read at named s l m f = record {
  positive = omega (arith, v.positive);
  bounded = rw (s, l) (omega (arith, length-erase_iter i c.cache_list old read, v.bounded));
  inner = front-IsSynced k i n c d v.inner h at named l m f;
}

find-Safe : (now : ℕ) (k : Bytes) (c : LocalCache) → IsValid c → Safe (find now k c)
unfolding find
find-Safe now k c v = elim (Option-cases (lookup k c.cache_map)) [
  | inl absent ↦
      rw (absent, find)
        (record {
          positive = v.positive;
          bounded = v.bounded;
          inner = record {
            distinct = v.inner.distinct;
            below = v.inner.below;
            synced = v.inner.synced;
          };
        })
  | inr (i, there) ↦
      let (n, read, named, at) = deref-lookup c k i v.inner there in
      rw (there, find, read, visit)
        (elim (Bool-cases (is_expired n.entry now)) [
          | inl old ↦ rw old (drop-IsValid k i c _ v there refl refl refl refl)
          | inr live ↦ rw live (front-IsValid k i n n c _ v there read at named refl refl refl refl)
        ])
]

-- `contains` is defined on every valid cache, and leaves a valid one.
pub contains-Safe :
    (now sweep_now later : ℕ) (id : MessageId) (c : LocalCache)
    → IsValid c
    → Safe (contains now sweep_now later id c)
unfolding contains
contains-Safe now sweep_now later id c v =
    find-Safe later (generate_key id) _ (check_and_run_cleanup-IsValid now sweep_now c v)

pub remove-IsValid : (id : MessageId) (c : LocalCache) → IsValid c → IsValid (remove id c).0
unfolding remove
remove-IsValid id c v = elim (Option-cases (lookup (generate_key id) c.cache_map)) [
  | inl absent ↦ rw (absent, remove) v
  | inr (i, there) ↦
      rw (there, remove) (drop-IsValid (generate_key id) i c _ v there refl refl refl refl)
]

-- A new key goes to the front of a cache that has room for it.
push_front-IsValid :
    (id : MessageId) (expiry created : ℕ) (c : LocalCache)
    → IsValid c
    → length c.cache_list < c.max_size
    → lookup (generate_key id) c.cache_map ≡ none
    → IsValid (push_front id expiry created c)
unfolding push_front iter_of
push_front-IsValid id expiry created c v room absent = record {
  positive = v.positive;
  bounded = room;
  inner = record {
    distinct = (
      sym (v.inner.synced (generate_key id)) ∙ absent,
      deref-fresh c.fresh c.cache_list v.inner.below,
      v.inner.distinct,
    );
    below = (omega arith, Below-suc c.fresh c.cache_list v.inner.below);
    synced = λ j. rw (lookup-insert (generate_key id) j c.fresh c.cache_map, v.inner.synced j) refl;
  };
}

-- A valid cache that is full always has an entry to evict: the last of the list, which makes room.
-- The key of a message that the cache does not hold stays absent.
pub evict_lru-room :
    (c : LocalCache) (k : Bytes)
    → IsValid c
    → lookup k c.cache_map ≡ none
    → c.max_size ≤ length c.cache_list
    → ((evict_lru c).1 ≡ true)
      × IsValid (evict_lru c).0
      × (length (evict_lru c).0.cache_list < (evict_lru c).0.max_size)
      × (lookup k (evict_lru c).0.cache_map ≡ none)
unfolding evict_lru
evict_lru-room c k v absent full = elim (Option-cases (get_last? c.cache_list)) [
  | inl empty ↦ absurd (omega (arith, ap length (nil_of_no-last c.cache_list empty), v.positive))
  | inr (n, last) ↦
      let (named, read) = iter_of-last c.cache_list n v.inner.distinct last in
      let there = v.inner.synced (key n) ∙ named in
      rw (last, evict_lru)
        (
          refl,
          drop-IsValid (key n) n.iter c _ v there refl refl refl refl,
          omega (arith, length-erase_iter n.iter c.cache_list n read, v.bounded),
          ground (arith, lookup-erase (key n) k c.cache_map),
        )
]

pub insert_new-IsValid :
    (id : MessageId) (expiry created : ℕ) (c : LocalCache)
    → IsValid c
    → lookup (generate_key id) c.cache_map ≡ none
    → ((insert_new id expiry created c).1 ≡ true) × IsValid (insert_new id expiry created c).0
unfolding insert_new
insert_new-IsValid id expiry created c v absent =
    elim (Bool-cases (leb c.max_size (length c.cache_list))) [
      | inl full ↦
          let (made, valid, room, still) =
            evict_lru-room c (generate_key id) v absent (ground arith) in
          rw (full, made) (refl, push_front-IsValid id expiry created _ valid room still)
      | inr room ↦ rw room (refl, push_front-IsValid id expiry created c v (ground arith) absent)
    ]

store-Safe :
    (id : MessageId) (expiry created : ℕ) (c : LocalCache)
    → IsValid c
    → Safe (store id expiry created c)
unfolding store
store-Safe id expiry created c v = elim (Option-cases (lookup (generate_key id) c.cache_map)) [
  | inl absent ↦ rw (absent, store) (insert_new-IsValid id expiry created c v absent).1
  | inr (i, there) ↦
      let (n, read, named, at) = deref-lookup c (generate_key id) i v.inner there in
      rw (there, store, read, refresh)
        (front-IsValid (generate_key id) i _ n c _ v there read at named refl refl refl refl)
]

-- `insert` is defined on every valid cache, and leaves a valid one.
pub insert_id-Safe :
    (start now sweep_now created : ℕ) (id : MessageId) (c : LocalCache)
    → IsValid c
    → Safe (insert_id start now sweep_now created id c)
unfolding insert_id
insert_id-Safe start now sweep_now created id c v =
    store-Safe id _ created _ (check_and_run_cleanup-IsValid now sweep_now c v)
