-- ===== src/Dedup/Deduplicator/Counters.antt =====
-- The statistics of `isDuplicate`: what each call adds to them.
use udp_to_rabbitmq_gateway.Base.{
  subst, ℕ, ◌≡◌, refl, inl, inr, Bool, true, false, not, ◌&&◌, Option, none, some, arith,
  if◌then◌else◌, if-either, if-split, Option-cases, add64, List, ◌≤◌, sym, ◌∙◌, ap,
}
use udp_to_rabbitmq_gateway.Dedup.MessageId.{MessageId}
use udp_to_rabbitmq_gateway.Dedup.Cache.{LocalCache}
use udp_to_rabbitmq_gateway.Dedup.Cache.Nodes.{Node}
use udp_to_rabbitmq_gateway.Dedup.Cache.Reads.{remembers, Answers, contains-Answers}
use udp_to_rabbitmq_gateway.Dedup.Deduplicator.Answer.{CacheIsValid, Defined, decide-Defined}
use udp_to_rabbitmq_gateway.Dedup.Deduplicator.Repeats.{is_duplicate-decide}
use udp_to_rabbitmq_gateway.Dedup.Deduplicator.{
  DeduplicationResult, unique, duplicate, error, cache_miss, RedisAnswer, no_connection, set_result,
  exception, Deduplicator, Clock, is_valid_message_id, check_with_redis, check_with_cache,
  update_local_cache, count_result, ask_redis, decide, is_duplicate, is_duplicate_result,
  after_contains, after_insert, after_update, after_look, with_latency, handle_redis_failure,
}

-- The counters of checks and of their outcomes.
pub record Tally : Type 0 where
  pub total : ℕ
  pub duplicates : ℕ
  pub uniques : ℕ
  pub failures : ℕ
  pub hits : ℕ

unfoldable pub tally : Deduplicator → Tally
tally d = record {
  total = d.total_checks;
  duplicates = d.duplicates_found;
  uniques = d.unique_messages;
  failures = d.redis_failures;
  hits = d.cache_hits;
}

-- What one outcome adds, after the total: a duplicate that the cache finds counts as a hit only.
abbrev pub outcome : Bool → DeduplicationResult → Tally → Tally
outcome true r t = record t { hits = add64 (t.hits) 1 }
outcome false unique t = record t { uniques = add64 (t.uniques) 1 }
outcome false duplicate t = record t { duplicates = add64 (t.duplicates) 1 }
outcome false error t = record t { failures = add64 (t.failures) 1 }
outcome false cache_miss t = t

-- What Redis alone says, and what is answered.
abbrev pub said : RedisAnswer → DeduplicationResult
said no_connection = error
said (set_result b) = if b then unique else duplicate
said exception = error

abbrev pub answer : Bool → RedisAnswer → DeduplicationResult
answer true a = duplicate
answer false a = said a

-- Whether the cache is asked and remembers the message.
abbrev pub knows : ℕ → MessageId → Option LocalCache → Bool
knows now m none = false
knows now m (some c) = remembers now m c.cache_list

abbrev pub is_hit : ℕ → MessageId → Deduplicator → Bool
is_hit now m d = d.fallback && knows now m d.local_cache

abbrev pub Counted :
    Bool → RedisAnswer → Tally → Option (Deduplicator × DeduplicationResult) → Type 0
Counted hit a t none = Unit {0}
Counted hit a t (some (d, r)) = (r ≡ answer hit a) × (tally d ≡ outcome hit r t)

abbrev KeepsTally : Tally → Option Deduplicator → Type 0
KeepsTally t none = Unit {0}
KeepsTally t (some d) = tally d ≡ t

-- What the look-up in the cache leaves: the same counters, and a hit or a miss.
abbrev Looked : Bool → Tally → Option (Deduplicator × DeduplicationResult) → Type 0
Looked hit t none = Unit {0}
Looked hit t (some (d, r)) = (tally d ≡ t) × (is_duplicate_result r ≡ hit)

after_contains-Looked :
    (now : ℕ) (m : MessageId) (l : List Node) (d : Deduplicator) (r : Option (LocalCache × Bool))
    → Answers now m l r
    → Looked (remembers now m l) (tally d) (after_contains d r)
unfolding after_contains tally
after_contains-Looked now m l d none h = tt
after_contains-Looked now m l d (some (c, true)) h = (refl, h.0)
after_contains-Looked now m l d (some (c, false)) h = (refl, h.0)

check_with_cache-Looked :
    (t : Clock) (m : MessageId) (d : Deduplicator) (o : Option LocalCache)
    → d.local_cache ≡ o
    → CacheIsValid o
    → t.look_sweep ≤ t.look
    → Looked (knows t.look m o) (tally d) (check_with_cache t m d)
unfolding check_with_cache tally
check_with_cache-Looked t m d none e v h = rw (e, check_with_cache) (refl, refl)
check_with_cache-Looked t m d (some c) e v h =
    rw (e, check_with_cache)
      (after_contains-Looked t.look m c.cache_list d _
        (contains-Answers t.look_check t.look_sweep t.look m c v h))

after_insert-KeepsTally :
    (d : Deduplicator) (r : Option (LocalCache × Bool)) → KeepsTally (tally d) (after_insert d r)
unfolding after_insert tally
after_insert-KeepsTally d none = tt
after_insert-KeepsTally d (some (c, b)) = refl

update_local_cache-KeepsTally :
    (t : Clock) (m : MessageId) (d : Deduplicator) → KeepsTally (tally d) (update_local_cache t m d)
unfolding update_local_cache tally
update_local_cache-KeepsTally t m d = elim (Option-cases d.local_cache) [
  | inl e ↦ rw (e, update_local_cache) refl
  | inr (c, e) ↦
      rw (e, update_local_cache)
        (if-either (KeepsTally (tally d)) (not d.fallback) (some d) _ refl
          (after_insert-KeepsTally d _))
]

after_update-Counted :
    (s : Tally) (b : Bool) (o : Option Deduplicator)
    → KeepsTally s o
    → Counted false (set_result b) s (after_update (if b then unique else duplicate) o)
unfolding after_update count_result tally
after_update-Counted s b none k = tt
after_update-Counted s true (some d) k = (refl, ground arith)
after_update-Counted s false (some d) k = (refl, ground arith)

and_false : (b : Bool) → (b && false) ≡ false
and_false b = ground arith

ask_redis-Counted :
    (t : Clock) (m : MessageId) (a : RedisAnswer) (d : Deduplicator)
    → Counted false a (tally d) (ask_redis t m a d)
unfolding ask_redis check_with_redis handle_redis_failure after_update count_result tally
ask_redis-Counted t m (set_result true) d = after_update-Counted (tally d) true _ (
    if-either (KeepsTally (tally d)) (d.fallback && true) _ (some d)
      (update_local_cache-KeepsTally t m d) refl)
ask_redis-Counted t m (set_result false) d = after_update-Counted (tally d) false _ (
    if-either (KeepsTally (tally d)) (d.fallback && true) _ (some d)
      (update_local_cache-KeepsTally t m d) refl)
ask_redis-Counted t m no_connection d = rw (and_false d.fallback) (refl, refl)
ask_redis-Counted t m exception d = rw (and_false d.fallback) (refl, refl)

hit-Counted :
    (a : RedisAnswer) (s : Tally) (d : Deduplicator)
    → tally d ≡ s
    → Counted true a s (some (record d { cache_hits = add64 (d.cache_hits) 1 }, duplicate))
unfolding tally
hit-Counted a s d e = (refl, ground arith)

after_look-Counted :
    (t : Clock) (m : MessageId) (a : RedisAnswer) (hit : Bool) (s : Tally)
    (o : Option (Deduplicator × DeduplicationResult))
    → Looked hit s o
    → Counted hit a s (after_look t m a o)
unfolding after_look
after_look-Counted t m a hit s none h = tt
after_look-Counted t m a hit s (some (d, r)) h =
    if-split (Counted hit a s) (is_duplicate_result r) _ (ask_redis t m a d)
      (λ yes.
        subst
          (λ b. Counted b a s (some (record d { cache_hits = add64 (d.cache_hits) 1 }, duplicate)))
          (sym yes ∙ h.1) (hit-Counted a s d h.0))
      (λ no.
        subst (λ b. Counted b a s (ask_redis t m a d)) (sym no ∙ h.1)
          (subst (λ x. Counted false a x (ask_redis t m a d)) h.0 (ask_redis-Counted t m a d)))

decide-Counted :
    (t : Clock) (m : MessageId) (a : RedisAnswer) (d : Deduplicator)
    → CacheIsValid d.local_cache
    → t.look_sweep ≤ t.look
    → Counted (is_hit t.look m d) a (tally d) (decide t m a d)
unfolding decide
decide-Counted t m a d v h =
    if-split (Counted (is_hit t.look m d) a (tally d)) d.fallback _ _
      (λ on.
        let same : knows t.look m d.local_cache ≡ is_hit t.look m d =
          ap (λ b. b && knows t.look m d.local_cache) (sym on) in
        subst (λ b. Counted b a (tally d) (after_look t m a (check_with_cache t m d))) same
          (after_look-Counted t m a _ (tally d) _
            (check_with_cache-Looked t m d d.local_cache refl v h)))
      (λ off.
        let same : false ≡ is_hit t.look m d =
          ap (λ b. b && knows t.look m d.local_cache) (sym off) in
        subst (λ b. Counted b a (tally d) (ask_redis t m a d)) same (ask_redis-Counted t m a d))

-- The call is defined, answers by the cache and Redis, and adds one to the total and one to the
-- counter of what happened.
abbrev pub Tallied :
    Bool → RedisAnswer → Deduplicator → Option (Deduplicator × DeduplicationResult) → Type 0
Tallied hit a d none = ⊥
Tallied hit a d (some (d', r)) =
    (r ≡ answer hit a)
    × (tally d' ≡ outcome hit r (record (tally d) { total = add64 (d.total_checks) 1 }))

with_latency-Tallied :
    (latency : ℕ) (hit : Bool) (a : RedisAnswer) (d : Deduplicator)
    (o : Option (Deduplicator × DeduplicationResult))
    → Counted hit a (record (tally d) { total = add64 (d.total_checks) 1 }) o
    → Defined o
    → Tallied hit a d (with_latency latency o)
unfolding with_latency tally
with_latency-Tallied latency hit a d none c h = h
with_latency-Tallied latency hit a d (some (d', r)) c h = c

-- A call of `isDuplicate` that is carried out (the deduplicator runs, the identifier is valid, the
-- cache is valid or missing, the clock does not run backwards from the cleanup to the look-up) is
-- defined and adds one to `totalChecks`. Where the fallback is enabled and the cache remembers the message,
-- the answer is `DUPLICATE` and only the cache hits grow by one, not `duplicatesFound`. Where not, the answer is
-- what Redis says, and of the four counters only that of this answer grows by one: unique
-- messages, duplicates, or Redis failures.
pub is_duplicate-Tallied :
    (t : Clock) (m : MessageId) (a : RedisAnswer) (latency : ℕ) (d : Deduplicator)
    → d.initialized ≡ true
    → d.shutting_down ≡ false
    → is_valid_message_id m ≡ true
    → CacheIsValid d.local_cache
    → t.look_sweep ≤ t.look
    → Tallied (is_hit t.look m d) a d (is_duplicate t m a latency d)
unfolding tally
is_duplicate-Tallied t m a latency d i s v c h =
    let d₁ : Deduplicator = record d { total_checks = add64 d.total_checks 1 } in
    rw (is_duplicate-decide t m a latency d i s v) (
      with_latency-Tallied latency (is_hit t.look m d) a d (decide t m a d₁)
        (decide-Counted t m a d₁ c h) (decide-Defined t m a d₁ c))
