-- ===== src/Dedup/Cache/Invariant.antt =====
-- The local cache's representation invariant and the operations on it.
use udp_to_rabbitmq_gateway.Base.{
  ℕ, ◌≤◌, ◌<◌, ◌≡◌, refl, sym, ◌∙◌, inl, inr, ◌&&◌, ltb, some, [], ◌∷◌, arith, leb, Bytes, nat_eq,
  bytes_eq, bytes_beq_iff, length, Bool-cases,
}
use udp_to_rabbitmq_gateway.Base.Maps.{lookup, erase, lookup-erase}
use udp_to_rabbitmq_gateway.Dedup.Cache.Nodes.{
  Node, key, erase_iter, iter_of, Distinct, Below, deref-iter_of, erase_iter-Distinct,
  deref-erase_self, iter_of-erase_iter, Below-erase_iter, Below-deref,
}
use udp_to_rabbitmq_gateway.Dedup.Cache.Sweep.{
  sweep-Distinct, sweep-synced, Below-sweep, length-sweep,
}
use udp_to_rabbitmq_gateway.Dedup.Cache.{
  LocalCache, init, remove_expired_entries, check_and_run_cleanup, clear,
}

-- The list and the map describe one set of entries, within the size.
pub record IsSynced (c : LocalCache) : Type 0 where
  pub distinct : Distinct c.cache_list
  pub below : Below c.fresh c.cache_list
  pub synced : (k : Bytes) → lookup k c.cache_map ≡ iter_of k c.cache_list

pub record IsValid (c : LocalCache) : Type 0 where
  pub positive : 0 < c.max_size
  pub bounded : length c.cache_list ≤ c.max_size
  pub inner : IsSynced c

empty-IsValid : (c : LocalCache) → 0 < c.max_size → c.cache_list ≡ [] → c.cache_map ≡ [] → IsValid c
unfolding lookup iter_of
empty-IsValid c h l m = record {
  positive = h;
  bounded = rw l (omega arith);
  inner = record { distinct = rw l tt; below = rw l tt; synced = λ k. rw (l, m) refl };
}

pub init-IsValid : (size ttl now : ℕ) (c : LocalCache) → init size ttl now ≡ some c → IsValid c
unfolding init
init-IsValid size ttl now c h = empty-IsValid c (ground arith) (ground arith) (ground arith)

pub clear-IsValid : (c : LocalCache) → IsValid c → IsValid (clear c)
unfolding clear
clear-IsValid c v = empty-IsValid (clear c) v.positive refl refl

pub remove_expired_entries-IsValid :
    (now : ℕ) (c : LocalCache) → IsValid c → IsValid (remove_expired_entries now c).0
unfolding remove_expired_entries
remove_expired_entries-IsValid now c v = record {
  positive = v.positive;
  bounded = omega (arith, length-sweep now c.cache_list c.cache_map);
  inner = record {
    distinct = sweep-Distinct now c.cache_list c.cache_map v.inner.distinct;
    below = Below-sweep c.fresh now c.cache_list c.cache_map v.inner.below;
    synced = λ k. sweep-synced now k c.cache_list c.cache_map v.inner.distinct (v.inner.synced k);
  };
}

pub check_and_run_cleanup-IsValid :
    (now sweep_now : ℕ) (c : LocalCache)
    → IsValid c
    → IsValid (check_and_run_cleanup now sweep_now c)
unfolding check_and_run_cleanup
check_and_run_cleanup-IsValid now sweep_now c v =
    let w = remove_expired_entries-IsValid sweep_now c v in
    elim (Bool-cases (ltb 0 c.cleanup_interval && leb c.next_cleanup now)) [
      | inl due ↦ rw due (record {
        positive = w.positive;
        bounded = w.bounded;
        inner = record {
          distinct = w.inner.distinct;
          below = w.inner.below;
          synced = w.inner.synced;
        };
      })
      | inr early ↦ rw early v
    ]

-- Dropping the node of a key from the list and the key from the map.
dropped_synced :
    (k : Bytes) (i : ℕ) (c : LocalCache)
    → IsSynced c
    → lookup k c.cache_map ≡ some i
    → (j : Bytes) → lookup j (erase k c.cache_map) ≡ iter_of j (erase_iter i c.cache_list)
dropped_synced k i c s h j = rw (
  lookup-erase k j c.cache_map,
  iter_of-erase_iter k j i c.cache_list s.distinct (sym (s.synced k) ∙ h),
  s.synced j,
)

pub drop-IsSynced :
    (k : Bytes) (i : ℕ) (c d : LocalCache)
    → IsSynced c
    → lookup k c.cache_map ≡ some i
    → d.cache_list ≡ erase_iter i c.cache_list
    → d.cache_map ≡ erase k c.cache_map
    → d.fresh ≡ c.fresh
    → IsSynced d
drop-IsSynced k i c d s h l m f = record {
  distinct = rw l (erase_iter-Distinct i c.cache_list s.distinct);
  below = rw (l, f) (Below-erase_iter c.fresh i c.cache_list s.below);
  synced = λ j. rw (l, m) (dropped_synced k i c s h j);
}

-- Moving the node of a key to the front, with its entry given anew under the same key.
pub front-IsSynced :
    (k : Bytes) (i : ℕ) (n : Node) (c d : LocalCache)
    → IsSynced c
    → lookup k c.cache_map ≡ some i
    → n.iter ≡ i
    → key n ≡ k
    → d.cache_list ≡ n ∷ erase_iter i c.cache_list
    → d.cache_map ≡ c.cache_map
    → d.fresh ≡ c.fresh
    → IsSynced d
unfolding iter_of
front-IsSynced k i n c d s h at named l m f =
    let found = sym (s.synced k) ∙ h in
    let (old, read, _, was) = deref-iter_of k c.cache_list i s.distinct found in
    let gone = iter_of-erase_iter k k i c.cache_list s.distinct found in
    record {
      distinct = rw l (
        rw named (gone ∙ rw ((bytes_beq_iff k k).1 refl) refl),
        rw at (deref-erase_self i c.cache_list s.distinct),
        erase_iter-Distinct i c.cache_list s.distinct,
      );
      below =
          rw (f, l)
            (
              omega (arith, Below-deref c.fresh i c.cache_list old s.below read),
              Below-erase_iter c.fresh i c.cache_list s.below,
            );
      synced = λ j.
          rw (l, m)
            (ground (
              arith,
              s.synced j,
              found,
              bytes_beq_iff (key n) j,
              bytes_beq_iff k j,
              iter_of-erase_iter k j i c.cache_list s.distinct found,
            ));
    }
