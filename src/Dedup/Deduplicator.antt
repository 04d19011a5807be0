-- ===== src/Dedup/Deduplicator.antt =====
-- components/redis_deduplication/src/deduplicator.cpp. What Redis answers to one check is an
-- argument: `checkWithRedis` gets no connection, gets the result of `setNX`, or an exception. A
-- call is one step: two calls that overlap are not modelled. The log is left out, and the
-- maintenance thread is a step of its own, in Upkeep; latencies are arguments.
pub mod Answer
pub mod Repeats
pub mod Counters
pub mod Batch
pub mod Upkeep
use udp_to_rabbitmq_gateway.Base.{
  ℕ, suc, ◌+◌, ◌-◌, ◌/◌, ◌≡◌, Bool, true, false, not, ◌&&◌, ◌||◌, Option, none, some, List, [], ◌∷◌,
  ◌++◌, ltb, leb, if◌then◌else◌, Bytes, ◌==◌, nat_eq, length, add64, ◌>>=◌, map,
}
use udp_to_rabbitmq_gateway.Dedup.MessageId.{MessageId, to_redis_key}
use udp_to_rabbitmq_gateway.Dedup.Cache
use udp_to_rabbitmq_gateway.Dedup.Cache.{LocalCache}

pub data DeduplicationResult : Type 0 where
  unique duplicate error cache_miss : DeduplicationResult

-- What `checkWithRedis` meets.
pub data RedisAnswer : Type 0 where
  no_connection : RedisAnswer
  set_result : Bool → RedisAnswer
  exception : RedisAnswer

-- `minLatency_` starts at the largest duration: none.
pub record Latencies : Type 0 where
  pub recent : List ℕ
  pub total : ℕ
  pub longest : ℕ
  pub shortest : Option ℕ

pub record Deduplicator : Type 0 where
  pub key_prefix : Bytes
  pub window : ℕ
  pub initialized : Bool
  pub shutting_down : Bool
  pub fallback : Bool
  pub local_cache : Option LocalCache
  pub total_checks : ℕ
  pub duplicates_found : ℕ
  pub unique_messages : ℕ
  pub redis_failures : ℕ
  pub cache_hits : ℕ
  pub cache_misses : ℕ
  pub latencies : Latencies

-- The readings of the clock in one call: the cache's look-up makes three, its insertion four.
pub record Clock : Type 0 where
  pub look_check : ℕ
  pub look_sweep : ℕ
  pub look : ℕ
  pub put_start : ℕ
  pub put_check : ℕ
  pub put_sweep : ℕ
  pub put_created : ℕ

abbrev pub is_digit : ℕ → Bool
is_digit c = leb b'0' c && leb c b'9'

-- `std::all_of`
unfoldable pub all_digits : Bytes → Bool
all_digits [] = true
all_digits (c ∷ s) = is_digit c && all_digits s

unfoldable pub is_valid_message_id : MessageId → Bool
is_valid_message_id m =
    if not (length m.imei == 15)
    then false
    else if not (all_digits m.imei)
    then false
    else if m.sequence_number == 0 || ltb 0xFFFFFF m.sequence_number
    then false
    else true

unfoldable pub handle_redis_failure : Deduplicator → Deduplicator
handle_redis_failure d = record d { redis_failures = add64 d.redis_failures 1 }

unfoldable pub check_with_redis : RedisAnswer → Deduplicator → Deduplicator × DeduplicationResult
unfolding handle_redis_failure
check_with_redis no_connection d = (handle_redis_failure d, error)
check_with_redis (set_result was_unique) d = (d, if was_unique then unique else duplicate)
check_with_redis exception d = (handle_redis_failure d, error)

-- `checkWithCache` behind the cache's answer; none is the cache's undefined behaviour.
unfoldable pub after_contains :
    Deduplicator → Option (LocalCache × Bool) → Option (Deduplicator × DeduplicationResult)
after_contains d none = none
after_contains d (some (cache, true)) = some (record d { local_cache = some cache }, duplicate)
after_contains d (some (cache, false)) =
    some (record d { local_cache = some cache; cache_misses = add64 d.cache_misses 1 }, cache_miss)

unfoldable pub check_with_cache :
    Clock → MessageId → Deduplicator → Option (Deduplicator × DeduplicationResult)
unfolding after_contains
check_with_cache t m d = elim d.local_cache [
  | none ↦ some (d, cache_miss)
  | some cache ↦ after_contains d (Cache.contains t.look_check t.look_sweep t.look m cache)
]

unfoldable pub after_insert : Deduplicator → Option (LocalCache × Bool) → Option Deduplicator
after_insert d none = none
after_insert d (some (cache, _)) = some (record d { local_cache = some cache })

unfoldable pub update_local_cache : Clock → MessageId → Deduplicator → Option Deduplicator
unfolding after_insert
update_local_cache t m d = elim d.local_cache [
  | none ↦ some d
  | some cache ↦
      if not d.fallback
      then some d
      else after_insert d
          (Cache.insert_id t.put_start t.put_check t.put_sweep t.put_created m cache)
]

-- The window of recent latencies holds a thousand samples.
unfoldable pub trim : Latencies → Latencies
trim l =
    if ltb 1000 (length l.recent)
    then elim l.recent [
      | [] ↦ l
      | oldest ∷ rest ↦ record l { recent = rest; total = l.total - oldest }
    ]
    else l

unfoldable pub update_latency_stats : ℕ → Latencies → Latencies
unfolding trim
update_latency_stats latency l = trim (record {
  recent = l.recent ++ latency ∷ [];
  total = l.total + latency;
  longest = if ltb l.longest latency then latency else l.longest;
  shortest = elim l.shortest [
    | none ↦ some latency
    | some s ↦ some (if ltb latency s then latency else s)
  ];
})

abbrev pub is_empty : List ℕ → Bool
is_empty [] = true
is_empty (x ∷ xs) = false

unfoldable pub calculate_average_latency : Latencies → ℕ
calculate_average_latency l = if is_empty l.recent then 0 else l.total / length l.recent

-- The statistics after a check with Redis.
unfoldable pub count_result : DeduplicationResult → Deduplicator → Deduplicator
count_result duplicate d = record d { duplicates_found = add64 d.duplicates_found 1 }
count_result unique d = record d { unique_messages = add64 d.unique_messages 1 }
count_result _ d = d

abbrev pub is_error : DeduplicationResult → Bool
is_error error = true
is_error _ = false

-- `isDuplicate` from the check with Redis on.
unfoldable pub after_update :
    DeduplicationResult → Option Deduplicator → Option (Deduplicator × DeduplicationResult)
unfolding count_result
after_update result none = none
after_update result (some d) = some (count_result result d, result)

unfoldable pub ask_redis :
    Clock → MessageId → RedisAnswer → Deduplicator → Option (Deduplicator × DeduplicationResult)
unfolding check_with_redis update_local_cache after_update
ask_redis t m answer d =
    let (checked, result) = check_with_redis answer d in
    after_update result (
      if checked.fallback && not (is_error result)
      then update_local_cache t m checked
      else some checked)

abbrev pub is_duplicate_result : DeduplicationResult → Bool
is_duplicate_result duplicate = true
is_duplicate_result _ = false

-- `isDuplicate` from the cache's answer on.
unfoldable pub after_look :
    Clock
    → MessageId
    → RedisAnswer
    → Option (Deduplicator × DeduplicationResult)
    → Option (Deduplicator × DeduplicationResult)
unfolding ask_redis
after_look t m answer none = none
after_look t m answer (some (d, result)) =
    if is_duplicate_result result
    then some (record d { cache_hits = add64 d.cache_hits 1 }, duplicate)
    else ask_redis t m answer d

-- `isDuplicate` behind the tests of its argument.
unfoldable pub decide :
    Clock → MessageId → RedisAnswer → Deduplicator → Option (Deduplicator × DeduplicationResult)
unfolding check_with_cache after_look
decide t m answer d =
    if d.fallback then after_look t m answer (check_with_cache t m d) else ask_redis t m answer d

unfoldable pub with_latency :
    ℕ → Option (Deduplicator × DeduplicationResult) → Option (Deduplicator × DeduplicationResult)
unfolding update_latency_stats
with_latency latency none = none
with_latency latency (some (d, result)) =
    some (record d { latencies = update_latency_stats latency (d.latencies) }, result)

unfoldable pub is_duplicate :
    Clock → MessageId → RedisAnswer → ℕ → Deduplicator → Option (Deduplicator × DeduplicationResult)
unfolding decide with_latency
is_duplicate t m answer latency d =
    if not d.initialized || d.shutting_down
    then some (d, error)
    else if not (is_valid_message_id m)
    then some (d, error)
    else with_latency latency
        (decide t m answer (record d { total_checks = add64 d.total_checks 1 }))

-- `initialize`, if the pool starts or not, and the cache as its constructor makes it.
unfoldable pub initialize : Bool → ℕ → ℕ → ℕ → Deduplicator → Deduplicator × Bool
initialize pool_starts cache_size cache_ttl now d =
    if d.initialized
    then (d, true)
    else if not pool_starts
    then (d, false)
    else elim (Cache.init cache_size cache_ttl now) [
      | none ↦ (d, false)
      | some cache ↦ (record d { local_cache = some cache; initialized = true }, true)
    ]

unfoldable pub shutdown : Deduplicator → Deduplicator
shutdown d =
    if not d.initialized
    then d
    else record d { shutting_down = true; local_cache = none; initialized = false }

unfoldable pub reset_stats : ℕ → Deduplicator → Deduplicator
reset_stats now d = record d {
  total_checks = 0;
  duplicates_found = 0;
  unique_messages = 0;
  redis_failures = 0;
  cache_hits = 0;
  cache_misses = 0;
  latencies = record { recent = []; total = 0; longest = 0; shortest = none };
  local_cache = elim d.local_cache [ none ↦ none | some c ↦ some (Cache.reset_stats now c) ];
}

unfoldable pub update_deduplication_window : ℕ → Deduplicator → Deduplicator
update_deduplication_window window d = if window == 0 then d else record d { window = window }

unfoldable pub set_fallback : Bool → Deduplicator → Deduplicator
set_fallback enabled d = record d { fallback = enabled }
