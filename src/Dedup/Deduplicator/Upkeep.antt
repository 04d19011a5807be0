-- ===== src/Dedup/Deduplicator/Upkeep.antt =====
-- components/redis_deduplication/src/deduplicator.cpp: one round of `performMaintenance`, without the
-- test of the pool's connections and the log, and every sequence of calls and rounds.
use udp_to_rabbitmq_gateway.Base.{
  ℕ, ◌≡◌, refl, inl, inr, Bool, true, false, not, ◌||◌, Option, none, some, List, [], ◌∷◌, arith,
  if◌then◌else◌, if-split, if-either, ◌==◌, nat_eq, Bool-cases, ◌>>=◌,
}
use udp_to_rabbitmq_gateway.Dedup.MessageId.{MessageId}
use udp_to_rabbitmq_gateway.Dedup.Cache
use udp_to_rabbitmq_gateway.Dedup.Cache.{LocalCache}
use udp_to_rabbitmq_gateway.Dedup.Cache.Invariant.{
  IsValid, init-IsValid, remove_expired_entries-IsValid,
}
use udp_to_rabbitmq_gateway.Dedup.Deduplicator.{
  DeduplicationResult, RedisAnswer, Deduplicator, Clock, is_duplicate, initialize, shutdown,
  reset_stats, update_deduplication_window, set_fallback,
}
use udp_to_rabbitmq_gateway.Dedup.Deduplicator.Answer.{CacheIsValid, Defined, is_duplicate-Defined}
use udp_to_rabbitmq_gateway.Dedup.Deduplicator.Batch.{
  BatchItem, BatchDeduplicationResult, IsCheckedSome, are_duplicates, are_duplicates-IsChecked,
}

unfoldable pub perform_maintenance : ℕ → Deduplicator → Deduplicator
perform_maintenance now d = if d.shutting_down then d else elim d.local_cache [
  | none ↦ d
  | some cache ↦ record d { local_cache = some (Cache.cleanup_expired now cache).0 }
]

-- A call of a client, with what Redis and the clock answer, or a round of the maintenance thread.
pub data Call : Type 0 where
  starts : (pool_starts : Bool) (size ttl now : ℕ) → Call
  checks : (t : Clock) (m : MessageId) (answer : RedisAnswer) (latency : ℕ) → Call
  checks_all : (latency : ℕ) (items : List BatchItem) → Call
  maintains resets : (now : ℕ) → Call
  sets_window : (window : ℕ) → Call
  sets_fallback : (enabled : Bool) → Call
  stops : Call

abbrev pub state_of {ℓ} : {R : Type ℓ} → Option (Deduplicator × R) → Option Deduplicator
state_of none = none
state_of (some r) = some r.0

abbrev pub advance : Call → Deduplicator → Option Deduplicator
advance (starts pool_starts size ttl now) d = some (initialize pool_starts size ttl now d).0
advance (checks t m answer latency) d = state_of (is_duplicate t m answer latency d)
advance (checks_all latency items) d = state_of (are_duplicates latency items d)
advance (maintains now) d = some (perform_maintenance now d)
advance (resets now) d = some (reset_stats now d)
advance (sets_window window) d = some (update_deduplication_window window d)
advance (sets_fallback enabled) d = some (set_fallback enabled d)
advance stops d = some (shutdown d)

abbrev pub run : List Call → Deduplicator → Option Deduplicator
run [] d = some d
run (call ∷ calls) d = advance call d >>= run calls

abbrev pub Sound : Option Deduplicator → Type 0
Sound none = ⊥
Sound (some d) = CacheIsValid d.local_cache

Defined-Sound : (o : Option (Deduplicator × DeduplicationResult)) → Defined o → Sound (state_of o)
Defined-Sound none v = v
Defined-Sound (some r) v = v

checked-Sound :
    (items : List BatchItem) (d : Deduplicator)
    (o : Option (Deduplicator × BatchDeduplicationResult))
    → IsCheckedSome items d o
    → Sound (state_of o)
checked-Sound items d none h = h
checked-Sound items d (some r) h = h.valid

abbrev SoundBatch : Option (Deduplicator × BatchDeduplicationResult) → Type 0
SoundBatch o = Sound (state_of o)

shut-Sound :
    (latency : ℕ) (items : List BatchItem) (d : Deduplicator)
    → CacheIsValid d.local_cache
    → (not d.initialized || d.shutting_down) ≡ true
    → SoundBatch (are_duplicates latency items d)
unfolding are_duplicates
shut-Sound latency items d v h =
    if-split SoundBatch (not d.initialized || d.shutting_down) _ _ (λ s. v)
      (λ ready. absurd (ground (arith, h, ready)))

are_duplicates-Sound :
    (latency : ℕ) (items : List BatchItem) (d : Deduplicator)
    → CacheIsValid d.local_cache
    → SoundBatch (are_duplicates latency items d)
unfolding are_duplicates
are_duplicates-Sound latency [] d v =
    if-either SoundBatch (not d.initialized || d.shutting_down) _ _ v v
are_duplicates-Sound latency (first ∷ rest) d v =
    elim (Bool-cases (not d.initialized || d.shutting_down)) [
      | inl shut ↦ shut-Sound latency (first ∷ rest) d v shut
      | inr ready ↦ checked-Sound (first ∷ rest) d _ (
          are_duplicates-IsChecked latency first rest d (ground (arith, ready))
            (ground (arith, ready)) v)
    ]

cleaned-IsValid : (now : ℕ) (c : LocalCache) → IsValid c → IsValid (Cache.cleanup_expired now c).0
unfolding Cache.cleanup_expired
cleaned-IsValid now c v = remove_expired_entries-IsValid now c v

reset-IsValid : (now : ℕ) (c : LocalCache) → IsValid c → IsValid (Cache.reset_stats now c)
unfolding Cache.reset_stats
reset-IsValid now c v = record {
  positive = v.positive;
  bounded = v.bounded;
  inner = record { distinct = v.inner.distinct; below = v.inner.below; synced = v.inner.synced };
}

initialize-Sound :
    (pool_starts : Bool) (size ttl now : ℕ) (d : Deduplicator)
    → CacheIsValid d.local_cache
    → CacheIsValid (initialize pool_starts size ttl now d).0.local_cache
unfolding initialize
initialize-Sound pool_starts size ttl now d v =
    let P : Deduplicator × Bool → Type 0 = λ r. CacheIsValid r.0.local_cache in
    if-either P d.initialized _ _ v
      (if-either P (not pool_starts) _ _ v (made (Cache.init size ttl now) refl))
  where
    made :
        (o : Option LocalCache)
        → Cache.init size ttl now ≡ o
        → let r : Deduplicator × Bool = elim o [
          | none ↦ (d, false)
          | some cache ↦ (record d { local_cache = some cache; initialized = true }, true)
        ] in
          CacheIsValid r.0.local_cache
    made none e = v
    made (some c) e = init-IsValid size ttl now c e

maintained-Sound :
    (now : ℕ) (d : Deduplicator) (o : Option LocalCache)
    → CacheIsValid d.local_cache
    → CacheIsValid o
    → let e : Deduplicator = elim o [
      | none ↦ d
      | some cache ↦ record d { local_cache = some (Cache.cleanup_expired now cache).0 }
    ] in
      CacheIsValid e.local_cache
maintained-Sound now d none v w = v
maintained-Sound now d (some c) v w = cleaned-IsValid now c w

reset-Sound :
    (now : ℕ) (o : Option LocalCache)
    → CacheIsValid o
    → CacheIsValid (elim o [ none ↦ none | some c ↦ some (Cache.reset_stats now c) ])
reset-Sound now none v = v
reset-Sound now (some c) v = reset-IsValid now c v

abbrev SoundState : Deduplicator → Type 0
SoundState d = CacheIsValid d.local_cache

advance-Sound :
    (call : Call) (d : Deduplicator) → CacheIsValid d.local_cache → Sound (advance call d)
unfolding perform_maintenance reset_stats update_deduplication_window set_fallback shutdown
advance-Sound (starts pool_starts size ttl now) d v = initialize-Sound pool_starts size ttl now d v
advance-Sound (checks t m answer latency) d v =
    Defined-Sound (is_duplicate t m answer latency d) (is_duplicate-Defined t m answer latency d v)
advance-Sound (checks_all latency items) d v = are_duplicates-Sound latency items d v
advance-Sound (maintains now) d v =
    if-either SoundState d.shutting_down _ _ v (maintained-Sound now d d.local_cache v v)
advance-Sound (resets now) d v = reset-Sound now d.local_cache v
advance-Sound (sets_window window) d v = if-either SoundState (window == 0) _ _ v v
advance-Sound (sets_fallback enabled) d v = v
advance-Sound stops d v = if-either SoundState (not d.initialized) _ _ v tt

then-Sound :
    (o : Option Deduplicator) (k : Deduplicator → Option Deduplicator)
    → Sound o
    → ((e : Deduplicator) → CacheIsValid e.local_cache → Sound (k e))
    → Sound (o >>= k)
then-Sound none k s f = s
then-Sound (some e) k s f = f e s

-- Whatever a client and the maintenance thread do one after the other, and whatever Redis and the
-- clock answer, a deduplicator whose cache is valid or missing does not run into undefined
-- behaviour, and its cache is valid or missing afterwards.
pub run-Sound :
    (calls : List Call) (d : Deduplicator) → CacheIsValid d.local_cache → Sound (run calls d)
run-Sound [] d v = v
run-Sound (call ∷ calls) d v =
    then-Sound (advance call d) (run calls) (advance-Sound call d v) (run-Sound calls)
