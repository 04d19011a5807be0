-- ===== src/Dedup/Deduplicator/Answer.antt =====
-- What the deduplicator answers: `isDuplicate` against the local cache and Redis.
use udp_to_rabbitmq_gateway.Base.{
  if-either, if-true, add64, ◌^◌, ℕ, ◌≤◌, ◌<◌, ◌≡◌, ◌↔◌, refl, inl, inr, Bool, true, false, not,
  ◌&&◌, ◌||◌, Option, none, some, [], ◌∷◌, arith, Bytes, length, Option-cases, nat_eq,
}
use udp_to_rabbitmq_gateway.Dedup.MessageId.{MessageId}
use udp_to_rabbitmq_gateway.Dedup.Cache
use udp_to_rabbitmq_gateway.Dedup.Cache.{LocalCache, insert_id, contains, check_and_run_cleanup}
use udp_to_rabbitmq_gateway.Dedup.Cache.Invariant.{IsValid}
use udp_to_rabbitmq_gateway.Dedup.Cache.Safety.{Safe, contains-Safe, insert_id-Safe}
use udp_to_rabbitmq_gateway.Dedup.Deduplicator.{
  DeduplicationResult, duplicate, error, RedisAnswer, no_connection, set_result, exception,
  Deduplicator, Clock, all_digits, is_valid_message_id, check_with_redis, check_with_cache,
  update_local_cache, count_result, ask_redis, decide, after_contains, after_insert, after_update,
  after_look, with_latency, is_duplicate, initialize, shutdown, is_error, is_duplicate_result,
}

-- Decimal digits in ASCII.
abbrev pub AllDigits : Bytes → Type 0
AllDigits [] = Unit {0}
AllDigits (c ∷ s) = (b'0' ≤ c) × (c ≤ b'9') × AllDigits s

-- The cache, if there is one, is valid.
abbrev pub CacheIsValid : Option LocalCache → Type 0
CacheIsValid none = Unit {0}
CacheIsValid (some c) = IsValid c

abbrev pub Defined : Option (Deduplicator × DeduplicationResult) → Type 0
Defined none = ⊥
Defined (some r) = CacheIsValid r.0.local_cache

abbrev DefinedUpdate : Option Deduplicator → Type 0
DefinedUpdate none = ⊥
DefinedUpdate (some d) = CacheIsValid d.local_cache

after_contains-Defined :
    (d : Deduplicator) (r : Option (LocalCache × Bool)) → Safe r → Defined (after_contains d r)
unfolding after_contains
after_contains-Defined d none s = s
after_contains-Defined d (some (c, true)) s = s
after_contains-Defined d (some (c, false)) s = s

check_with_cache-Defined :
    (t : Clock) (m : MessageId) (d : Deduplicator)
    → CacheIsValid d.local_cache
    → Defined (check_with_cache t m d)
unfolding check_with_cache
check_with_cache-Defined t m d v = elim (Option-cases d.local_cache) [
  | inl e ↦ rw (e, check_with_cache) (rw e tt)
  | inr (c, e) ↦
      rw (e, check_with_cache)
        (after_contains-Defined d _
          (contains-Safe t.look_check t.look_sweep t.look m c (rw e at v)))
]

after_insert-Defined :
    (d : Deduplicator) (r : Option (LocalCache × Bool)) → Safe r → DefinedUpdate (after_insert d r)
unfolding after_insert
after_insert-Defined d none s = s
after_insert-Defined d (some (c, b)) s = s

update_local_cache-Defined :
    (t : Clock) (m : MessageId) (d : Deduplicator)
    → CacheIsValid d.local_cache
    → DefinedUpdate (update_local_cache t m d)
unfolding update_local_cache
update_local_cache-Defined t m d v = elim (Option-cases d.local_cache) [
  | inl e ↦ rw (e, update_local_cache) (rw e tt)
  | inr (c, e) ↦
      let keep = insert_id-Safe t.put_start t.put_check t.put_sweep t.put_created m c (rw e at v) in
      rw (e, update_local_cache)
        (if-either DefinedUpdate (not d.fallback) (some d) _ v (after_insert-Defined d _ keep))
]

count_result-cache :
    (r : DeduplicationResult) (d : Deduplicator) → (count_result r d).local_cache ≡ d.local_cache
unfolding count_result
count_result-cache duplicate d = refl
count_result-cache r d = refl

after_update-Defined :
    (r : DeduplicationResult) (o : Option Deduplicator)
    → DefinedUpdate o
    → Defined (after_update r o)
unfolding after_update
after_update-Defined r none v = v
after_update-Defined r (some d) v = rw (count_result-cache r d) v

check_with_redis-cache :
    (a : RedisAnswer) (d : Deduplicator) → (check_with_redis a d).0.local_cache ≡ d.local_cache
unfolding check_with_redis
check_with_redis-cache no_connection d = refl
check_with_redis-cache (set_result b) d = refl
check_with_redis-cache exception d = refl

ask_redis-Defined :
    (t : Clock) (m : MessageId) (a : RedisAnswer) (d : Deduplicator)
    → CacheIsValid d.local_cache
    → Defined (ask_redis t m a d)
unfolding ask_redis
ask_redis-Defined t m a d v =
    let (checked, result) = check_with_redis a d in
    let valid : CacheIsValid checked.local_cache = rw (check_with_redis-cache a d) v in
    after_update-Defined result _ (
      if-either DefinedUpdate (checked.fallback && not (is_error result)) _ (some checked)
        (update_local_cache-Defined t m checked valid) valid)

after_look-Defined :
    (t : Clock) (m : MessageId) (a : RedisAnswer) (o : Option (Deduplicator × DeduplicationResult))
    → Defined o
    → Defined (after_look t m a o)
unfolding after_look
after_look-Defined t m a none v = v
after_look-Defined t m a (some (d, r)) v =
    if-either Defined (is_duplicate_result r) _ _ v (ask_redis-Defined t m a d v)

with_latency-Defined :
    (l : ℕ) (o : Option (Deduplicator × DeduplicationResult))
    → Defined o
    → Defined (with_latency l o)
unfolding with_latency
with_latency-Defined l none v = v
with_latency-Defined l (some r) v = v

pub decide-Defined :
    (t : Clock) (m : MessageId) (a : RedisAnswer) (d : Deduplicator)
    → CacheIsValid d.local_cache
    → Defined (decide t m a d)
unfolding decide
decide-Defined t m a d v =
    if-either Defined d.fallback _ _ (after_look-Defined t m a _ (check_with_cache-Defined t m d v))
      (ask_redis-Defined t m a d v)

-- `isDuplicate` is defined in every state with a valid cache or none, whatever Redis answers, and
-- leaves such a state.
pub is_duplicate-Defined :
    (t : Clock) (m : MessageId) (a : RedisAnswer) (latency : ℕ) (d : Deduplicator)
    → CacheIsValid d.local_cache
    → Defined (is_duplicate t m a latency d)
unfolding is_duplicate
is_duplicate-Defined t m a latency d v =
    let d' : Deduplicator = record d { total_checks = add64 d.total_checks 1 } in
    if-either Defined (not d.initialized || d.shutting_down) (some (d, error)) _ v (
      if-either Defined (not (is_valid_message_id m)) (some (d, error)) _ v
        (with_latency-Defined latency (decide t m a d') (decide-Defined t m a d' v)))

all_digits_iff : (s : Bytes) → (all_digits s ≡ true) ↔ AllDigits s
unfolding all_digits
all_digits_iff [] = (λ h. tt, λ h. refl)
all_digits_iff (c ∷ s) =
    let rest = all_digits_iff s in (λ h. ground (arith, rest.0), λ h. ground (arith, rest.1))

-- The messages that the deduplicator looks at: fifteen digits, and a sequence number of one to
-- three bytes that is not zero.
is_valid_message_id-eq-true_iff :
    (m : MessageId)
    → (is_valid_message_id m ≡ true) ↔ (
        (length m.imei ≡ 15)
        × AllDigits m.imei
        × (0 < m.sequence_number)
        × (m.sequence_number < 2 ^ 24))
unfolding is_valid_message_id
is_valid_message_id-eq-true_iff m =
    let digits = all_digits_iff m.imei in
    (λ h. ground (arith, digits.0), λ h. ground (arith, digits.1))

is_duplicate-shut :
    (t : Clock) (m : MessageId) (a : RedisAnswer) (latency : ℕ) (d : Deduplicator)
    → d.shutting_down ≡ true
    → is_duplicate t m a latency d ≡ some (d, error)
unfolding is_duplicate
is_duplicate-shut t m a latency d h =
    if-true (not d.initialized || d.shutting_down) _ _ (ground (arith, h))

initialize-shut :
    (pool_starts : Bool) (size ttl now : ℕ) (d : Deduplicator)
    → d.shutting_down ≡ true
    → (initialize pool_starts size ttl now d).0.shutting_down ≡ true
unfolding initialize
initialize-shut pool_starts size ttl now d h = elim (Option-cases (Cache.init size ttl now)) [
  | inl e ↦ rw e (ground (arith, h))
  | inr (c, e) ↦ rw e (ground (arith, h))
]

shutdown_shuts : (d : Deduplicator) → d.initialized ≡ true → (shutdown d).shutting_down ≡ true
unfolding shutdown
shutdown_shuts d h = ground (arith, h)

-- A deduplicator that was shut down and is initialized again answers every check with an error and
-- changes nothing, since `shuttingDown_` is never reset.
pub is_duplicate-restarted :
    (t : Clock) (m : MessageId) (a : RedisAnswer) (latency : ℕ) (pool_starts : Bool)
    (size ttl now : ℕ) (d : Deduplicator)
    → d.initialized ≡ true
    → let e = (initialize pool_starts size ttl now (shutdown d)).0 in
      is_duplicate t m a latency e ≡ some (e, error)
is_duplicate-restarted t m a latency pool_starts size ttl now d h =
    is_duplicate-shut t m a latency (initialize pool_starts size ttl now (shutdown d)).0
      (initialize-shut pool_starts size ttl now (shutdown d) (shutdown_shuts d h))
