-- ===== src/Dedup/Deduplicator/Batch.antt =====
-- components/redis_deduplication/src/deduplicator.cpp: `areDuplicates`, which asks Redis for each message and
-- not the local cache. Its other form, of pairs, calls this one. What Redis answers and the readings of the clock come with each message.
use udp_to_rabbitmq_gateway.Base.{
  subst, ℕ, suc, ◌+◌, ◌≡◌, refl, sym, ap, ◌∙◌, Bool, true, false, not, ◌||◌, Option, none, some,
  List, [], ◌∷◌, arith, length, if◌then◌else◌, if-split, add64, add64-add64, ◌>>=◌,
}
use udp_to_rabbitmq_gateway.Dedup.MessageId.{MessageId}
use udp_to_rabbitmq_gateway.Dedup.Cache
use udp_to_rabbitmq_gateway.Dedup.Cache.{LocalCache, insert_id}
use udp_to_rabbitmq_gateway.Dedup.Cache.Safety.{Safe, insert_id-Safe}
use udp_to_rabbitmq_gateway.Dedup.Deduplicator.{
  DeduplicationResult, unique, duplicate, error, cache_miss, RedisAnswer, no_connection, set_result,
  exception, Deduplicator, Clock, check_with_redis, handle_redis_failure, after_insert,
  update_local_cache, update_latency_stats, count_result, is_error,
}
use udp_to_rabbitmq_gateway.Dedup.Deduplicator.Answer.{CacheIsValid}

pub record BatchItem : Type 0 where
  pub message : MessageId
  pub clock : Clock
  pub answer : RedisAnswer

pub record BatchDeduplicationResult : Type 0 where
  pub results : List DeduplicationResult
  pub total_latency : ℕ
  pub redis_operations : ℕ
  pub cache_hits : ℕ
  pub errors : ℕ

unfoldable pub no_results : BatchDeduplicationResult
no_results = record {
  results = [];
  total_latency = 0;
  redis_operations = 0;
  cache_hits = 0;
  errors = 0;
}

unfoldable pub all_errors : List BatchItem → List DeduplicationResult
all_errors [] = []
all_errors (item ∷ items) = error ∷ all_errors items

unfoldable pub batch_check_with_redis :
    List BatchItem → Deduplicator → Deduplicator × List DeduplicationResult
unfolding check_with_redis
batch_check_with_redis [] d = (d, [])
batch_check_with_redis (item ∷ items) d =
    let (checked, result) = check_with_redis item.answer d in
    let (later, results) = batch_check_with_redis items checked in (later, result ∷ results)

unfoldable pub store_result : BatchItem → DeduplicationResult → Deduplicator → Option Deduplicator
unfolding update_local_cache
store_result item result d =
    if is_error result then some d else update_local_cache item.clock item.message d

-- The loop that updates the local cache.
unfoldable pub store_all :
    List BatchItem → List DeduplicationResult → Deduplicator → Option Deduplicator
unfolding store_result
store_all [] results d = some d
store_all (item ∷ items) [] d = some d
store_all (item ∷ items) (result ∷ results) d = do
  stored ← store_result item result d
  store_all items results stored

unfoldable pub count_all : List DeduplicationResult → Deduplicator → Deduplicator
unfolding count_result
count_all [] d = d
count_all (result ∷ results) d =
    count_all results (count_result result (record d { total_checks = add64 d.total_checks 1 }))

-- From the results of Redis on.
unfoldable pub finish_batch :
    ℕ
    → List DeduplicationResult
    → Option Deduplicator
    → Option (Deduplicator × BatchDeduplicationResult)
unfolding count_all update_latency_stats no_results
finish_batch latency results none = none
finish_batch latency results (some d) =
    let counted = count_all results d in
    some (
      record counted { latencies = update_latency_stats latency counted.latencies },
      record no_results { results = results; total_latency = latency },
    )

unfoldable pub are_duplicates :
    ℕ → List BatchItem → Deduplicator → Option (Deduplicator × BatchDeduplicationResult)
unfolding batch_check_with_redis store_all finish_batch all_errors no_results
are_duplicates latency items d =
    if not d.initialized || d.shutting_down
    then some (d, record no_results { results = all_errors items; errors = length items })
    else elim items [
      | [] ↦ some (d, no_results)
      | first ∷ rest ↦
          let (checked, results) = batch_check_with_redis (first ∷ rest) d in
          finish_batch latency results
            (if checked.fallback then store_all (first ∷ rest) results checked else some checked)
    ]

-- What a message is by the answer of Redis alone.
abbrev pub by_redis : BatchItem → DeduplicationResult
by_redis item = elim item.answer [
  | no_connection ↦ error
  | set_result was_unique ↦ if was_unique then unique else duplicate
  | exception ↦ error
]

abbrev pub all_by_redis : List BatchItem → List DeduplicationResult
all_by_redis [] = []
all_by_redis (item ∷ items) = by_redis item ∷ all_by_redis items

-- The number of checks as it was, and a valid cache.
record Keeps (d e : Deduplicator) : Type 0 where
  total : e.total_checks ≡ d.total_checks
  valid : CacheIsValid e.local_cache

abbrev KeepsSome : Deduplicator → Option Deduplicator → Type 0
KeepsSome d none = ⊥
KeepsSome d (some e) = Keeps d e

check_with_redis-Keeps :
    (a : RedisAnswer) (d : Deduplicator)
    → CacheIsValid d.local_cache
    → Keeps d (check_with_redis a d).0
unfolding check_with_redis handle_redis_failure
check_with_redis-Keeps no_connection d v = record { total = refl; valid = v }
check_with_redis-Keeps (set_result b) d v = record { total = refl; valid = v }
check_with_redis-Keeps exception d v = record { total = refl; valid = v }

batch_check_with_redis-Keeps :
    (items : List BatchItem) (d : Deduplicator)
    → CacheIsValid d.local_cache
    → Keeps d (batch_check_with_redis items d).0
unfolding batch_check_with_redis
batch_check_with_redis-Keeps [] d v = record { total = refl; valid = v }
batch_check_with_redis-Keeps (item ∷ items) d v =
    let first = check_with_redis-Keeps item.answer d v in
    let rest = batch_check_with_redis-Keeps items (check_with_redis item.answer d).0 first.valid in
    record { total = rest.total ∙ first.total; valid = rest.valid }

check_with_redis-by_redis :
    (item : BatchItem) (a : RedisAnswer) (d : Deduplicator)
    → (check_with_redis a d).1 ≡ by_redis (record item { answer = a })
unfolding check_with_redis
check_with_redis-by_redis item no_connection d = refl
check_with_redis-by_redis item (set_result b) d = refl
check_with_redis-by_redis item exception d = refl

batch_check_with_redis-all_by_redis :
    (items : List BatchItem) (d : Deduplicator)
    → (batch_check_with_redis items d).1 ≡ all_by_redis items
unfolding batch_check_with_redis
batch_check_with_redis-all_by_redis [] d = refl
batch_check_with_redis-all_by_redis (item ∷ items) d =
    let next = (check_with_redis item.answer d).0 in
    ap (λ r. r ∷ (batch_check_with_redis items next).1)
      (check_with_redis-by_redis item item.answer d)
    ∙ ap (◌∷◌ (by_redis item)) (batch_check_with_redis-all_by_redis items next)

after_insert-Keeps :
    (d : Deduplicator) (r : Option (LocalCache × Bool)) → Safe r → KeepsSome d (after_insert d r)
unfolding after_insert
after_insert-Keeps d none s = s
after_insert-Keeps d (some (c, b)) s = record { total = refl; valid = s }

update-Keeps :
    (t : Clock) (m : MessageId) (d : Deduplicator) (o : Option LocalCache)
    → CacheIsValid d.local_cache
    → CacheIsValid o
    → KeepsSome d (elim o [
      | none ↦ some d
      | some cache ↦
          if not d.fallback
          then some d
          else after_insert d
              (Cache.insert_id t.put_start t.put_check t.put_sweep t.put_created m cache)
    ])
update-Keeps t m d none v w = record { total = refl; valid = v }
update-Keeps t m d (some cache) v w =
    if-split (KeepsSome d) (not d.fallback) _ _ (λ off. record { total = refl; valid = v })
      (λ on.
        after_insert-Keeps d _
          (insert_id-Safe t.put_start t.put_check t.put_sweep t.put_created m cache w))

update_local_cache-Keeps :
    (t : Clock) (m : MessageId) (d : Deduplicator)
    → CacheIsValid d.local_cache
    → KeepsSome d (update_local_cache t m d)
unfolding update_local_cache
update_local_cache-Keeps t m d v = update-Keeps t m d d.local_cache v v

store_result-Keeps :
    (item : BatchItem) (result : DeduplicationResult) (d : Deduplicator)
    → CacheIsValid d.local_cache
    → KeepsSome d (store_result item result d)
unfolding store_result
store_result-Keeps item result d v =
    if-split (KeepsSome d) (is_error result) _ _ (λ bad. record { total = refl; valid = v })
      (λ good. update_local_cache-Keeps item.clock item.message d v)

then-Keeps :
    (d : Deduplicator) (o : Option Deduplicator) (k : Deduplicator → Option Deduplicator)
    → KeepsSome d o
    → ((e : Deduplicator) → CacheIsValid e.local_cache → KeepsSome e (k e))
    → KeepsSome d (o >>= k)
then-Keeps d none k h f = h
then-Keeps d (some e) k h f = through (k e) (f e h.valid)
  where
    through : (o : Option Deduplicator) → KeepsSome e o → KeepsSome d o
    through none g = g
    through (some x) g = record { total = g.total ∙ h.total; valid = g.valid }

store_all-Keeps :
    (items : List BatchItem) (results : List DeduplicationResult) (d : Deduplicator)
    → CacheIsValid d.local_cache
    → KeepsSome d (store_all items results d)
unfolding store_all
store_all-Keeps [] results d v = record { total = refl; valid = v }
store_all-Keeps (item ∷ items) [] d v = record { total = refl; valid = v }
store_all-Keeps (item ∷ items) (result ∷ results) d v =
    then-Keeps d (store_result item result d) (store_all items results)
      (store_result-Keeps item result d v) (λ e w. store_all-Keeps items results e w)

count_result-total :
    (r : DeduplicationResult) (d : Deduplicator) → (count_result r d).total_checks ≡ d.total_checks
unfolding count_result
count_result-total duplicate d = refl
count_result-total unique d = refl
count_result-total error d = refl
count_result-total cache_miss d = refl

count_result-cache :
    (r : DeduplicationResult) (d : Deduplicator) → (count_result r d).local_cache ≡ d.local_cache
unfolding count_result
count_result-cache duplicate d = refl
count_result-cache unique d = refl
count_result-cache error d = refl
count_result-cache cache_miss d = refl

count_all-cache :
    (results : List DeduplicationResult) (d : Deduplicator)
    → (count_all results d).local_cache ≡ d.local_cache
unfolding count_all
count_all-cache [] d = refl
count_all-cache (r ∷ results) d =
    let counted = record d { total_checks = add64 d.total_checks 1 } in
    count_all-cache results (count_result r counted) ∙ count_result-cache r counted

count_all-total :
    (results : List DeduplicationResult) (d : Deduplicator) (n k : ℕ)
    → d.total_checks ≡ add64 n k
    → (count_all results d).total_checks ≡ add64 n (k + length results)
unfolding count_all
count_all-total [] d n k e = e ∙ ap (add64 n) (omega arith)
count_all-total (r ∷ results) d n k e =
    let counted = record d { total_checks = add64 d.total_checks 1 } in
    let next : (count_result r counted).total_checks ≡ add64 n (k + 1) =
      count_result-total r counted ∙ ap (λ c. add64 c 1) e ∙ add64-add64 n k 1 in
    count_all-total results (count_result r counted) n (k + 1) next ∙ ap (add64 n) (omega arith)

count_all-first :
    (r : DeduplicationResult) (results : List DeduplicationResult) (d : Deduplicator) (n : ℕ)
    → d.total_checks ≡ n
    → (count_all (r ∷ results) d).total_checks ≡ add64 n (suc (length results))
unfolding count_all
count_all-first r results d n e =
    let counted = record d { total_checks = add64 d.total_checks 1 } in
    count_all-total results (count_result r counted) n 1
      (count_result-total r counted ∙ ap (λ c. add64 c 1) e)
    ∙ ap (add64 n) (omega arith)

length-all_by_redis : (items : List BatchItem) → length (all_by_redis items) ≡ length items
length-all_by_redis [] = refl
length-all_by_redis (item ∷ items) = ap suc (length-all_by_redis items)

-- What relates a batch, the deduplicator before it, and what the batch leaves and gives.
pub record IsChecked (items : List BatchItem) (d : Deduplicator)
    (r : Deduplicator × BatchDeduplicationResult) : Type 0 where
  pub answers : r.1.results ≡ all_by_redis items
  pub errors : r.1.errors ≡ 0
  pub total : r.0.total_checks ≡ add64 d.total_checks (length items)
  pub valid : CacheIsValid r.0.local_cache

abbrev pub IsCheckedSome :
    List BatchItem → Deduplicator → Option (Deduplicator × BatchDeduplicationResult) → Type 0
IsCheckedSome items d none = ⊥
IsCheckedSome items d (some r) = IsChecked items d r

finish_batch-IsChecked :
    (latency : ℕ) (first : BatchItem) (rest : List BatchItem) (d : Deduplicator)
    (results : List DeduplicationResult) (o : Option Deduplicator)
    → results ≡ all_by_redis (first ∷ rest)
    → KeepsSome d o
    → IsCheckedSome (first ∷ rest) d (finish_batch latency results o)
unfolding finish_batch no_results
finish_batch-IsChecked latency first rest d results none e h = h
finish_batch-IsChecked latency first rest d results (some c) e h = record {
  answers = e;
  errors = refl;
  total =
      ap (λ rs. (count_all rs c).total_checks) e
      ∙ count_all-first (by_redis first) (all_by_redis rest) c d.total_checks h.total
      ∙ ap (λ l. add64 d.total_checks (suc l)) (length-all_by_redis rest);
  valid = subst CacheIsValid (sym (count_all-cache results c)) h.valid;
}

-- A batch of one message or more, on a deduplicator that runs and has a valid cache, is checked without
-- undefined behaviour: the result for each message is what Redis says of it, whatever the local cache
-- knows; each message counts as a check, the cache stays valid, and the number of errors that is
-- told is 0 even where a result is an error.
pub are_duplicates-IsChecked :
    (latency : ℕ) (first : BatchItem) (rest : List BatchItem) (d : Deduplicator)
    → d.initialized ≡ true
    → d.shutting_down ≡ false
    → CacheIsValid d.local_cache
    → IsCheckedSome (first ∷ rest) d (are_duplicates latency (first ∷ rest) d)
unfolding are_duplicates
are_duplicates-IsChecked latency first rest d started open_ v =
    let items = first ∷ rest in
    let k = batch_check_with_redis-Keeps items d v in
    let checked = (batch_check_with_redis items d).0 in
    let results = (batch_check_with_redis items d).1 in
    let P = IsCheckedSome items d in
    if-split P (not d.initialized || d.shutting_down) _ _
      (λ closed. absurd (ground (arith, closed, started, open_)))
      (λ ready.
        finish_batch-IsChecked latency first rest d results _
          (batch_check_with_redis-all_by_redis items d)
          (if-split (KeepsSome d) checked.fallback _ _
            (λ on.
              then-Keeps d (some checked) (store_all items results) k
                (λ e w. store_all-Keeps items results e w))
            (λ off. k)))
