-- ===== src/Dedup/Cache/Writes.antt =====
-- What the local cache remembers after an insertion or a removal.
use mathlib.Core.List.{get_last?}
use udp_to_rabbitmq_gateway.Base.{
  ap, ℕ, ◌≡◌, refl, sym, ◌∙◌, inl, inr, Bool, true, false, ◌&&◌, ◌||◌, not, Option, none, some,
  List, [], ◌∷◌, ◌≤◌, arith, leb, ltb, if◌then◌else◌, nat_eq, bytes_eq, bytes_beq_iff, bytes_beq,
  length, Bool-cases, Option-cases,
}
use udp_to_rabbitmq_gateway.Base.Maps.{lookup}
use udp_to_rabbitmq_gateway.Dedup.MessageId.{MessageId, generate_key, same_id, same_id-generate_key}
use udp_to_rabbitmq_gateway.Dedup.Cache.Nodes.{
  Node, is_expired, erase_iter, iter_of, iter_of-last, iter_of-erase_iter,
}
use udp_to_rabbitmq_gateway.Dedup.Cache.Invariant.{IsValid, check_and_run_cleanup-IsValid}
use udp_to_rabbitmq_gateway.Dedup.Cache.Safety.{deref-lookup, evict_lru-room, remove-IsValid}
use udp_to_rabbitmq_gateway.Dedup.Cache.Reads.{
  remembers, remembers_absent, remembers-split, cleanup-remembers,
}
use udp_to_rabbitmq_gateway.Dedup.Cache.{
  LocalCache, check_and_run_cleanup, store, insert_new, insert_until, push_front, evict_lru,
  refresh, remove,
}

-- The node that an insertion of the message removes: the last of the list, if the message is
-- new and the list full.
unfoldable pub victim : MessageId → LocalCache → Option Node
victim id c = elim (lookup (generate_key id) c.cache_map) [
  | some _ ↦ none
  | none ↦ if leb c.max_size (length c.cache_list) then get_last? c.cache_list else none
]

-- The message is not the one that is evicted.
unfoldable pub spares : MessageId → Option Node → Bool
spares j none = true
spares j (some n) = not (same_id n.entry.message_id j)

-- The insertion is defined and succeeds; the message is remembered up to its expiry time, and any
-- other one as before unless it is the one that is evicted.
abbrev pub Inserted : MessageId → ℕ → LocalCache → Option (LocalCache × Bool) → Type 0
Inserted id expiry c none = ⊥
Inserted id expiry c (some r) =
    (r.1 ≡ true)
    × ((t : ℕ) → remembers t id r.0.cache_list ≡ not (ltb expiry t))
    × ((t : ℕ) (j : MessageId)
        → same_id id j ≡ false
        → spares j (victim id c) ≡ true
        → remembers t j r.0.cache_list ≡ remembers t j c.cache_list)

same_id_refl : (id : MessageId) → same_id id id ≡ true
same_id_refl id = same_id-generate_key id id ∙ (bytes_beq_iff _ (generate_key id)).1 refl

remembers-push :
    (id j : MessageId) (expiry created t : ℕ) (c : LocalCache)
    → remembers t j (push_front id expiry created c).cache_list
      ≡ (same_id id j && not (ltb expiry t)) || remembers t j c.cache_list
unfolding push_front remembers is_expired
remembers-push id j expiry created t c = refl

evict-remembers :
    (id j : MessageId) (t : ℕ) (c : LocalCache)
    → IsValid c
    → lookup (generate_key id) c.cache_map ≡ none
    → leb c.max_size (length c.cache_list) ≡ true
    → spares j (victim id c) ≡ true
    → remembers t j (evict_lru c).0.cache_list ≡ remembers t j c.cache_list
unfolding evict_lru victim spares
evict-remembers id j t c v absent full spared = elim (Option-cases (get_last? c.cache_list)) [
  | inl empty ↦ rw (empty, evict_lru) refl
  | inr (n, last) ↦
      let (_, read) = iter_of-last c.cache_list n v.inner.distinct last in
      rw (last, evict_lru) (ground (arith, remembers-split t j n.iter c.cache_list n read))
]

evict-absent :
    (id : MessageId) (c : LocalCache)
    → IsValid c
    → lookup (generate_key id) c.cache_map ≡ none
    → leb c.max_size (length c.cache_list) ≡ true
    → iter_of (generate_key id) (evict_lru c).0.cache_list ≡ none
evict-absent id c v absent full =
    let (_, valid, _, still) = evict_lru-room c (generate_key id) v absent (ground arith) in
    sym (valid.inner.synced _) ∙ still

insert_new-Inserted :
    (id : MessageId) (expiry created : ℕ) (c : LocalCache)
    → IsValid c
    → lookup (generate_key id) c.cache_map ≡ none
    → Inserted id expiry c (some (insert_new id expiry created c))
unfolding insert_new
insert_new-Inserted id expiry created c v absent =
    elim (Bool-cases (leb c.max_size (length c.cache_list))) [
      | inl full ↦
          let (made, _, _, _) = evict_lru-room c (generate_key id) v absent (ground arith) in
          let gone = evict-absent id c v absent full in
          rw (full, made)
            (
              refl,
              λ t. ground (
                arith,
                remembers-push id id expiry created t (evict_lru c).0,
                same_id_refl id,
                remembers_absent t id (evict_lru c).0.cache_list gone,
              ),
              λ t j apart spared. ground (
                arith,
                remembers-push id j expiry created t (evict_lru c).0,
                evict-remembers id j t c v absent full spared,
              ),
            )
      | inr room ↦
          let gone = sym (v.inner.synced _) ∙ absent in
          rw room (
            refl,
            λ t. ground (
              arith,
              remembers-push id id expiry created t c,
              same_id_refl id,
              remembers_absent t id c.cache_list gone,
            ),
            λ t j apart spared. ground (arith, remembers-push id j expiry created t c),
          )
    ]

refresh-Inserted :
    (id : MessageId) (expiry : ℕ) (c : LocalCache) (i : ℕ)
    → IsValid c
    → lookup (generate_key id) c.cache_map ≡ some i
    → Inserted id expiry c (refresh i expiry c)
unfolding refresh remembers is_expired
refresh-Inserted id expiry c i v there =
    let (n, read, named, at) = deref-lookup c (generate_key id) i v.inner there in
    let found = sym (v.inner.synced (generate_key id)) ∙ there in
    let gone : iter_of (generate_key id) (erase_iter i c.cache_list) ≡ none =
      iter_of-erase_iter (generate_key id) (generate_key id) i c.cache_list v.inner.distinct found
      ∙ rw ((bytes_beq_iff (generate_key id) (generate_key id)).1 refl) refl in
    let same = λ (j : MessageId).
      same_id-generate_key n.entry.message_id j
      ∙ ap (λ k. bytes_beq k (generate_key j)) named
      ∙ sym (same_id-generate_key id j) in
    rw (read, refresh)
      (
        refl,
        λ t. ground (
          arith,
          same id,
          same_id_refl id,
          remembers_absent t id (erase_iter i c.cache_list) gone,
        ),
        λ t j apart spared. ground (arith, same j, remembers-split t j i c.cache_list n read),
      )

store-Inserted :
    (id : MessageId) (expiry created : ℕ) (c : LocalCache)
    → IsValid c
    → Inserted id expiry c (store id expiry created c)
unfolding store
store-Inserted id expiry created c v = elim (Option-cases (lookup (generate_key id) c.cache_map)) [
  | inl absent ↦ rw (absent, store) (insert_new-Inserted id expiry created c v absent)
  | inr (i, there) ↦ rw (there, store) (refresh-Inserted id expiry c i v there)
]

pub insert_until-cleaned :
    (now sweep_now created : ℕ) (id : MessageId) (expiry : ℕ) (c : LocalCache)
    → IsValid c
    → Inserted id expiry
        (check_and_run_cleanup now sweep_now c)
        (insert_until now sweep_now created id expiry c)
unfolding insert_until
insert_until-cleaned now sweep_now created id expiry c v =
    store-Inserted id expiry created _ (check_and_run_cleanup-IsValid now sweep_now c v)

-- The entry that the insertion evicts from the cache as the cleanup leaves it.
abbrev pub evicted : ℕ → ℕ → MessageId → LocalCache → Option Node
evicted now sweep_now id c = victim id (check_and_run_cleanup now sweep_now c)

-- The insertion against the cache before it, for the times that the clock still shows.
abbrev pub InsertedAt :
    ℕ → MessageId → ℕ → Option Node → LocalCache → Option (LocalCache × Bool) → Type 0
InsertedAt since id expiry spot c none = ⊥
InsertedAt since id expiry spot c (some r) =
    (r.1 ≡ true)
    × ((t : ℕ) → remembers t id r.0.cache_list ≡ not (ltb expiry t))
    × ((t : ℕ) (j : MessageId)
        → since ≤ t
        → same_id id j ≡ false
        → spares j spot ≡ true
        → remembers t j r.0.cache_list ≡ remembers t j c.cache_list)

since-InsertedAt :
    (now sweep_now : ℕ) (id : MessageId) (expiry : ℕ) (c : LocalCache)
    (o : Option (LocalCache × Bool))
    → Inserted id expiry (check_and_run_cleanup now sweep_now c) o
    → InsertedAt sweep_now id expiry (evicted now sweep_now id c) c o
since-InsertedAt now sweep_now id expiry c none h = h
since-InsertedAt now sweep_now id expiry c (some r) h = (
  h.0,
  h.1,
  λ t j since apart spared. h.2 t j apart spared ∙ cleanup-remembers now sweep_now t j c since,
)

-- `insert(messageId, expiryTime)` on a valid cache: it succeeds, and the message is remembered
-- exactly up to the expiry time. Of the messages that the cache remembered before, at any time from
-- that of the cleanup on, all others are remembered as before except one at most: the last entry
-- of the list behind the cleanup, if the message is new and the list full.
pub insert_until-InsertedAt :
    (now sweep_now created : ℕ) (id : MessageId) (expiry : ℕ) (c : LocalCache)
    → IsValid c
    → InsertedAt sweep_now id expiry
        (evicted now sweep_now id c)
        c
        (insert_until now sweep_now created id expiry c)
insert_until-InsertedAt now sweep_now created id expiry c v =
    since-InsertedAt now sweep_now id expiry c _
      (insert_until-cleaned now sweep_now created id expiry c v)

absent_same :
    (id j : MessageId) (t : ℕ) (l : List Node)
    → iter_of (generate_key id) l ≡ none
    → same_id id j ≡ true
    → remembers t j l ≡ false
absent_same id j t l h same =
    let e =
      (bytes_beq_iff (generate_key id) (generate_key j)).0
        (sym (same_id-generate_key id j) ∙ same) in
    remembers_absent t j l (ap (λ k. iter_of k l) (sym e) ∙ h)

drop-remembers :
    (id j : MessageId) (t i : ℕ) (c : LocalCache)
    → IsValid c
    → lookup (generate_key id) c.cache_map ≡ some i
    → remembers t j (erase_iter i c.cache_list)
      ≡ (if same_id id j then false else remembers t j c.cache_list)
drop-remembers id j t i c v there =
    let (n, read, named, at) = deref-lookup c (generate_key id) i v.inner there in
    let found = sym (v.inner.synced (generate_key id)) ∙ there in
    let gone : iter_of (generate_key id) (erase_iter i c.cache_list) ≡ none =
      iter_of-erase_iter (generate_key id) (generate_key id) i c.cache_list v.inner.distinct found
      ∙ rw ((bytes_beq_iff (generate_key id) (generate_key id)).1 refl) refl in
    let same : same_id n.entry.message_id j ≡ same_id id j =
      same_id-generate_key n.entry.message_id j
      ∙ ap (λ k. bytes_beq k (generate_key j)) named
      ∙ sym (same_id-generate_key id j) in
    elim (Bool-cases (same_id id j)) [
      | inl e ↦ rw e (absent_same id j t (erase_iter i c.cache_list) gone e)
      | inr e ↦ rw e (ground (arith, same, remembers-split t j i c.cache_list n read))
    ]

remove-remembers :
    (id j : MessageId) (t : ℕ) (c : LocalCache)
    → IsValid c
    → remembers t j (remove id c).0.cache_list
      ≡ (if same_id id j then false else remembers t j c.cache_list)
unfolding remove
remove-remembers id j t c v = elim (Option-cases (lookup (generate_key id) c.cache_map)) [
  | inl absent ↦
      rw (absent, remove)
        (ground (
          arith,
          absent_same id j t c.cache_list (sym (v.inner.synced (generate_key id)) ∙ absent),
        ))
  | inr (i, there) ↦ rw (there, remove) (drop-remembers id j t i c v there)
]

-- Whether the list has an entry for the message, live or expired.
unfoldable pub holds : MessageId → List Node → Bool
holds id [] = false
holds id (n ∷ l) = same_id n.entry.message_id id || holds id l

holds-iter_of :
    (id : MessageId) (l : List Node)
    → holds id l ≡ elim (iter_of (generate_key id) l) [ none ↦ false | some i ↦ true ]
unfolding holds iter_of
holds-iter_of id [] = refl
holds-iter_of id (n ∷ l) =
    ground (arith, same_id-generate_key n.entry.message_id id, holds-iter_of id l)

-- What is left of a cache, and the answer.
pub record IsRemoved (id : MessageId) (c : LocalCache) (r : LocalCache × Bool) : Type 0 where
  pub valid : IsValid r.0
  pub answer : r.1 ≡ holds id c.cache_list
  pub rest :
      (t : ℕ) (j : MessageId)
      → remembers t j r.0.cache_list ≡ (if same_id id j then false else remembers t j c.cache_list)

remove-holds :
    (id : MessageId) (c : LocalCache) → IsValid c → (remove id c).1 ≡ holds id c.cache_list
unfolding remove
remove-holds id c v =
    let found = holds-iter_of id c.cache_list in
    let same = v.inner.synced (generate_key id) in ground (arith, found, same)

-- `remove` on a valid cache leaves a valid one, list and map in agreement; at every time its message is
-- forgotten and any other remembered as before, and it answers whether the list held an
-- entry for the message, live or expired.
pub remove-IsRemoved : (id : MessageId) (c : LocalCache) → IsValid c → IsRemoved id c (remove id c)
remove-IsRemoved id c v = record {
  valid = remove-IsValid id c v;
  answer = remove-holds id c v;
  rest = λ t j. remove-remembers id j t c v;
}
