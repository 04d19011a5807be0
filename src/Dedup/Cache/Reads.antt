-- ===== src/Dedup/Cache/Reads.antt =====
-- What the local cache answers, against the set of messages that it remembers.
use udp_to_rabbitmq_gateway.Base.{
  ap, ℕ, ◌≤◌, ◌≡◌, ◌≢◌, refl, sym, ◌∙◌, inl, inr, Bool, true, false, ◌&&◌, ◌||◌, not, Option, none,
  some, List, [], ◌∷◌, arith, Bytes, ◌==◌, nat_eq, bytes_eq, bytes_beq_iff, nat_beq_iff, Bool-cases,
  Option-cases,
}
use udp_to_rabbitmq_gateway.Base.Maps.{lookup, erase}
use udp_to_rabbitmq_gateway.Dedup.MessageId.{MessageId, generate_key, same_id, same_id-generate_key}
use udp_to_rabbitmq_gateway.Dedup.Cache.Nodes.{
  CacheEntry, Node, is_expired, key, deref, erase_iter, iter_of, Distinct, deref-iter_of,
}
use udp_to_rabbitmq_gateway.Dedup.Cache.Sweep.{sweep}
use udp_to_rabbitmq_gateway.Dedup.Cache.Invariant.{IsValid, check_and_run_cleanup-IsValid}
use udp_to_rabbitmq_gateway.Dedup.Cache.Safety.{deref-lookup}
use udp_to_rabbitmq_gateway.Dedup.Cache.{LocalCache, check_and_run_cleanup, visit, find, contains}

-- Some entry for the message is still live at the time. This is the meaning of a cache: it does
-- not mention keys, iterators or order.
unfoldable pub remembers : ℕ → MessageId → List Node → Bool
remembers now id [] = false
remembers now id (n ∷ l) =
    (same_id n.entry.message_id id && not (is_expired n.entry now)) || remembers now id l

pub remembers_absent :
    (now : ℕ) (id : MessageId) (l : List Node)
    → iter_of (generate_key id) l ≡ none
    → remembers now id l ≡ false
unfolding remembers iter_of
remembers_absent now id [] h = refl
remembers_absent now id (n ∷ l) h =
    ground (arith, same_id-generate_key n.entry.message_id id, remembers_absent now id l)

-- With distinct keys only the node under the key counts.
pub remembers_node :
    (now : ℕ) (id : MessageId) (l : List Node) (i : ℕ) (n : Node)
    → Distinct l
    → iter_of (generate_key id) l ≡ some i
    → deref i l ≡ some n
    → remembers now id l ≡ not (is_expired n.entry now)
unfolding remembers iter_of deref
remembers_node now id [] i n d h r = cc
remembers_node now id (m ∷ l) i n d h r = elim (Bool-cases (key m == generate_key id)) [
  | inl e ↦
      let at : m.iter ≡ i = ground arith in
      let it : m ≡ n = ground (arith, nat_beq_iff m.iter i) in
      let k = (bytes_beq_iff (key m) (generate_key id)).0 e in
      rw (← it) (
        ground (
          arith,
          same_id-generate_key m.entry.message_id id,
          remembers_absent now id l (ap (λ x. iter_of x l) (sym k) ∙ d.0),
        ))
  | inr e ↦
      let (found, read, _, _) = deref-iter_of (generate_key id) l i d.2 (ground arith) in
      let apart : m.iter ≢ i = λ (p : m.iter ≡ i). cc (read, d.1, ap (λ x. deref x l) p) in
      let later : deref i l ≡ some n = ground (arith, nat_beq_iff m.iter i, apart) in
      ground (
        arith,
        same_id-generate_key m.entry.message_id id,
        remembers_node now id l i n d.2 (ground arith) later,
      )
]

-- What a sweep removes was forgotten by then already.
remembers-sweep :
    (sweep_now now : ℕ) (id : MessageId) (l : List Node) (m : List (Bytes × ℕ))
    → sweep_now ≤ now
    → remembers now id (sweep sweep_now l m).0 ≡ remembers now id l
unfolding remembers sweep is_expired
remembers-sweep sweep_now now id [] m h = refl
remembers-sweep sweep_now now id (n ∷ l) m h = ground (
  arith,
  remembers-sweep sweep_now now id l m,
  remembers-sweep sweep_now now id l (erase (key n) m),
)

-- A node of the list and the rest of it remember what the list does.
pub remembers-split :
    (t : ℕ) (j : MessageId) (i : ℕ) (l : List Node) (n : Node)
    → deref i l ≡ some n
    → remembers t j l
      ≡ (same_id n.entry.message_id j && not (is_expired n.entry t))
        || remembers t j (erase_iter i l)
unfolding remembers deref erase_iter
remembers-split t j i [] n h = cc
remembers-split t j i (m ∷ l) n h = ground (arith, remembers-split t j i l n)

expired_later :
    (e : CacheEntry) (now t : ℕ) → is_expired e now ≡ true → now ≤ t → is_expired e t ≡ true
unfolding is_expired
expired_later e now t h le = ground arith

pub cleanup-remembers :
    (now sweep_now t : ℕ) (j : MessageId) (c : LocalCache)
    → sweep_now ≤ t
    → remembers t j (check_and_run_cleanup now sweep_now c).cache_list ≡ remembers t j c.cache_list
unfolding check_and_run_cleanup
cleanup-remembers now sweep_now t j c h =
    ground (arith, remembers-sweep sweep_now t j c.cache_list c.cache_map)

-- The call is defined; it answers whether the list remembers the message at that time, and leaves
-- a list that remembers the same at every later time.
abbrev pub Answers : ℕ → MessageId → List Node → Option (LocalCache × Bool) → Type 0
Answers now id l none = ⊥
Answers now id l (some r) =
    (r.1 ≡ remembers now id l)
    × ((t : ℕ) (j : MessageId) → now ≤ t → remembers t j r.0.cache_list ≡ remembers t j l)

find-Answers :
    (now : ℕ) (id : MessageId) (c : LocalCache)
    → IsValid c
    → Answers now id c.cache_list (find now (generate_key id) c)
unfolding find remembers
find-Answers now id c v = elim (Option-cases (lookup (generate_key id) c.cache_map)) [
  | inl absent ↦
      rw (absent, find)
        (
          sym (remembers_absent now id c.cache_list (sym (v.inner.synced _) ∙ absent)),
          λ t j h. refl,
        )
  | inr (i, there) ↦
      let (n, read, named, at) = deref-lookup c (generate_key id) i v.inner there in
      let answer =
        remembers_node now id c.cache_list i n v.inner.distinct (sym (v.inner.synced _) ∙ there)
          read in
      rw (there, find, read, visit)
        (elim (Bool-cases (is_expired n.entry now)) [
          | inl old ↦ rw old (
            sym (answer ∙ ap not old),
            λ t j h. ground (
              arith,
              remembers-split t j i c.cache_list n read,
              expired_later n.entry now t old h,
            ),
          )
          | inr live ↦
              rw live (
                sym (answer ∙ ap not live),
                λ t j h. sym (remembers-split t j i c.cache_list n read),
              )
        ])
]

retarget :
    (now : ℕ) (id : MessageId) (l m : List Node) (r : Option (LocalCache × Bool))
    → ((t : ℕ) (j : MessageId) → now ≤ t → remembers t j l ≡ remembers t j m)
    → Answers now id l r
    → Answers now id m r
retarget now id l m none same a = a
retarget now id l m (some r) same a =
    (a.0 ∙ same now id (omega arith), λ t j h. a.1 t j h ∙ same t j h)

-- `contains` on a valid cache answers exactly whether the cache remembers the message, and from
-- then on the cache remembers every message, at every later time, as it did before: neither the
-- cleanup, nor the removal of an expired entry, nor the move to the front changes that. The clock
-- does not run backwards from the cleanup to the test.
pub contains-Answers :
    (now sweep_now later : ℕ) (id : MessageId) (c : LocalCache)
    → IsValid c
    → sweep_now ≤ later
    → Answers later id c.cache_list (contains now sweep_now later id c)
unfolding contains
contains-Answers now sweep_now later id c v h =
    retarget later id _ c.cache_list _
      (λ t j le. cleanup-remembers now sweep_now t j c (omega arith))
      (find-Answers later id _ (check_and_run_cleanup-IsValid now sweep_now c v))
