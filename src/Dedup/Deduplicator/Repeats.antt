-- ===== src/Dedup/Deduplicator/Repeats.antt =====
-- A message that comes again while the local cache remembers it.
use udp_to_rabbitmq_gateway.Base.{
  ap, ℕ, ◌+◌, ◌≤◌, ◌≡◌, refl, ◌∙◌, inl, inr, Bool, true, false, not, ◌&&◌, ◌||◌, Option, none, some,
  List, arith, ltb, if◌then◌else◌, if-true, if-false, bytes_eq, subst, if-either, Bytes,
  Option-cases, add64,
}
use udp_to_rabbitmq_gateway.Dedup.MessageId.{MessageId, generate_key}
use udp_to_rabbitmq_gateway.Dedup.Cache.{
  LocalCache, insert_id, contains, check_and_run_cleanup, visit, find,
}
use udp_to_rabbitmq_gateway.Dedup.Cache.Nodes.{deref, is_expired}
use udp_to_rabbitmq_gateway.Base.Maps.{lookup}
use udp_to_rabbitmq_gateway.Dedup.Cache.Invariant.{IsValid}
use udp_to_rabbitmq_gateway.Dedup.Cache.Safety.{Safe, contains-Safe, insert_id-Safe}
use udp_to_rabbitmq_gateway.Dedup.Cache.Reads.{remembers, Answers, contains-Answers}
use udp_to_rabbitmq_gateway.Dedup.Cache.Writes.{Inserted, insert_until-cleaned}
use udp_to_rabbitmq_gateway.Dedup.Deduplicator.{
  DeduplicationResult, unique, duplicate, RedisAnswer, set_result, Deduplicator, Clock,
  is_valid_message_id, check_with_redis, check_with_cache, update_local_cache, count_result,
  ask_redis, decide, is_duplicate, after_contains, after_insert, after_update, after_look,
  with_latency,
}

-- The deduplicator runs with its cache.
pub record IsReady (d : Deduplicator) (c : LocalCache) : Type 0 where
  pub started : d.initialized ≡ true
  pub open_ : d.shutting_down ≡ false
  pub cached : d.fallback ≡ true
  pub has_cache : d.local_cache ≡ some c
  pub valid : IsValid c

abbrev pub AnswersWith : DeduplicationResult → Option (Deduplicator × DeduplicationResult) → Type 0
AnswersWith r none = ⊥
AnswersWith r (some p) = p.1 ≡ r

with_latency-AnswersWith :
    (r : DeduplicationResult) (l : ℕ) (o : Option (Deduplicator × DeduplicationResult))
    → AnswersWith r o
    → AnswersWith r (with_latency l o)
unfolding with_latency
with_latency-AnswersWith r l none h = h
with_latency-AnswersWith r l (some p) h = h

-- The call gets to `decide`.
pub is_duplicate-decide :
    (t : Clock) (m : MessageId) (a : RedisAnswer) (l : ℕ) (d : Deduplicator)
    → d.initialized ≡ true
    → d.shutting_down ≡ false
    → is_valid_message_id m ≡ true
    → is_duplicate t m a l d
      ≡ with_latency l (decide t m a (record d { total_checks = add64 d.total_checks 1 }))
unfolding is_duplicate
is_duplicate-decide t m a l d i s v =
    if-false (not d.initialized || d.shutting_down) _ _ (ground arith)
    ∙ if-false (not (is_valid_message_id m)) _ _ (ap not v)

after_look-known :
    (t : Clock) (m : MessageId) (a : RedisAnswer) (d : Deduplicator) (l : List _)
    (r : Option (LocalCache × Bool))
    → Answers t.look m l r
    → remembers t.look m l ≡ true
    → AnswersWith duplicate (after_look t m a (after_contains d r))
unfolding after_look after_contains
after_look-known t m a d l none h k = h
after_look-known t m a d l (some (c, true)) h k = refl
after_look-known t m a d l (some (c, false)) h k = cc (h.0, k)

decide-cached :
    (t : Clock) (m : MessageId) (a : RedisAnswer) (d : Deduplicator) (c : LocalCache)
    → d.fallback ≡ true
    → d.local_cache ≡ some c
    → decide t m a d
      ≡ after_look t m a (after_contains d (contains t.look_check t.look_sweep t.look m c))
unfolding decide check_with_cache
decide-cached t m a d c f h =
    if-true d.fallback _ _ f ∙ ap (after_look t m a) (rw (h, check_with_cache))

pub remembered-duplicate :
    (t : Clock) (m : MessageId) (a : RedisAnswer) (latency : ℕ) (d : Deduplicator) (c : LocalCache)
    → IsReady d c
    → is_valid_message_id m ≡ true
    → t.look_sweep ≤ t.look
    → remembers t.look m c.cache_list ≡ true
    → AnswersWith duplicate (is_duplicate t m a latency d)
remembered-duplicate t m a latency d c r v le known =
    rw (is_duplicate-decide t m a latency d r.started r.open_ v) (
      with_latency-AnswersWith duplicate latency _ (
        rw
          (decide-cached t m a (record d { total_checks = add64 d.total_checks 1 }) c r.cached
            r.has_cache)
          (after_look-known t m a _ c.cache_list _
            (contains-Answers t.look_check t.look_sweep t.look m c r.valid le) known)))

-- From now up to the time the message is a duplicate, whatever Redis answers then.
abbrev pub KnownUntil : ℕ → MessageId → Deduplicator → Type 0
KnownUntil until m d =
    (t : Clock) (a : RedisAnswer) (latency : ℕ)
    → t.look_sweep ≤ t.look
    → t.look ≤ until
    → AnswersWith duplicate (is_duplicate t m a latency d)

abbrev pub First : ℕ → MessageId → Bool → Option (Deduplicator × DeduplicationResult) → Type 0
First until m b none = ⊥
First until m b (some (d, r)) = (r ≡ (if b then unique else duplicate)) × KnownUntil until m d

-- The fields that decide whether a call is answered.
abbrev Runs : Deduplicator → Type 0
Runs d = (d.initialized ≡ true) × (d.shutting_down ≡ false) × (d.fallback ≡ true)

known_of_cache :
    (until : ℕ) (m : MessageId) (d : Deduplicator) (c : LocalCache)
    → IsReady d c
    → is_valid_message_id m ≡ true
    → ((t : ℕ) → remembers t m c.cache_list ≡ not (ltb until t))
    → KnownUntil until m d
known_of_cache until m d c r v h t a latency le before =
    remembered-duplicate t m a latency d c r v le (h t.look ∙ ground arith)

count_result-Runs : (r : DeduplicationResult) (d : Deduplicator) → Runs d → Runs (count_result r d)
unfolding count_result
count_result-Runs duplicate d h = h
count_result-Runs _ d h = h

count_result-cache :
    (r : DeduplicationResult) (d : Deduplicator) → (count_result r d).local_cache ≡ d.local_cache
unfolding count_result
count_result-cache duplicate d = refl
count_result-cache _ d = refl

after_insert-First :
    (until : ℕ) (m : MessageId) (b : Bool) (l : ℕ) (d : Deduplicator) (c : LocalCache)
    (r : Option (LocalCache × Bool))
    → Runs d
    → is_valid_message_id m ≡ true
    → Safe r
    → Inserted m until c r
    → First until m b
        (with_latency l (after_update (if b then unique else duplicate) (after_insert d r)))
unfolding after_insert after_update with_latency
after_insert-First until m b l d c none runs v s i = s
after_insert-First until m b l d c (some (c', x)) runs v s i =
    let result = (if b then unique else duplicate) in
    let d' : Deduplicator = record d { local_cache = some c' } in
    let kept = count_result-Runs result d' runs in
    (
      refl,
      known_of_cache until m _ c'
          (record {
            started = kept.0;
            open_ = kept.1;
            cached = kept.2;
            has_cache = count_result-cache result d';
            valid = s;
          })
          v i.1,
    )

update_local_cache-stored :
    (t : Clock) (m : MessageId) (d : Deduplicator) (c : LocalCache)
    → d.fallback ≡ true
    → d.local_cache ≡ some c
    → update_local_cache t m d
      ≡ after_insert d (insert_id t.put_start t.put_check t.put_sweep t.put_created m c)
unfolding update_local_cache
update_local_cache-stored t m d c f h =
    rw (h, update_local_cache) (if-false (not d.fallback) _ _ (ap not f))

ask_redis-stored :
    (t : Clock) (m : MessageId) (b : Bool) (d : Deduplicator) (c : LocalCache)
    → d.fallback ≡ true
    → d.local_cache ≡ some c
    → ask_redis t m (set_result b) d
      ≡ after_update
          (if b then unique else duplicate)
          (after_insert d (insert_id t.put_start t.put_check t.put_sweep t.put_created m c))
unfolding ask_redis check_with_redis
ask_redis-stored t m true d c f h =
    ap (after_update unique)
      (if-true (d.fallback && true) _ _ (ground arith) ∙ update_local_cache-stored t m d c f h)
ask_redis-stored t m false d c f h =
    ap (after_update duplicate)
      (if-true (d.fallback && true) _ _ (ground arith) ∙ update_local_cache-stored t m d c f h)

-- No operation changes the time to live.
abbrev HasTtl : ℕ → Option (LocalCache × Bool) → Type 0
HasTtl n none = Unit {0}
HasTtl n (some r) = r.0.ttl ≡ n

visit-HasTtl : (now : ℕ) (k : Bytes) (i : ℕ) (c : LocalCache) → HasTtl c.ttl (visit now k i c)
unfolding visit
visit-HasTtl now k i c = elim (Option-cases (deref i c.cache_list)) [
  | inl e ↦ rw (e, visit) tt
  | inr (n, e) ↦ rw (e, visit) (if-either (HasTtl c.ttl) (is_expired n.entry now) _ _ refl refl)
]

find-HasTtl : (now : ℕ) (k : Bytes) (c : LocalCache) → HasTtl c.ttl (find now k c)
unfolding find
find-HasTtl now k c = elim (Option-cases (lookup k c.cache_map)) [
  | inl e ↦ rw (e, find) refl
  | inr (i, e) ↦ rw (e, find) (visit-HasTtl now k i c)
]

contains-HasTtl :
    (now sweep_now later : ℕ) (m : MessageId) (c : LocalCache)
    → HasTtl c.ttl (contains now sweep_now later m c)
unfolding contains check_and_run_cleanup
contains-HasTtl now sweep_now later m c =
    subst (λ n. HasTtl n (find later (generate_key m) (check_and_run_cleanup now sweep_now c))) same
      (find-HasTtl later (generate_key m) (check_and_run_cleanup now sweep_now c))
  where
    same : (check_and_run_cleanup now sweep_now c).ttl ≡ c.ttl
    same = ground arith

after_look-unknown :
    (t : Clock) (m : MessageId) (a : RedisAnswer) (d : Deduplicator) (l : List _)
    (r : Option (LocalCache × Bool))
    → Answers t.look m l r
    → remembers t.look m l ≡ false
    → Safe r
    → (n : ℕ) → HasTtl n r
    → (c : LocalCache) × (after_look t m a (after_contains d r)
        ≡ ask_redis t m a
            (record d { local_cache = some c; cache_misses = add64 d.cache_misses 1 }))
      × IsValid c
      × (c.ttl ≡ n)
unfolding after_look after_contains
after_look-unknown t m a d l none h k s n w = absurd s
after_look-unknown t m a d l (some (c, true)) h k s n w = absurd (cc (h.0, k))
after_look-unknown t m a d l (some (c, false)) h k s n w = (c, refl, s, w)

insert_id-Inserted :
    (t : Clock) (m : MessageId) (c : LocalCache) (until : ℕ)
    → t.put_start + c.ttl ≡ until
    → IsValid c
    → Inserted m until
        (check_and_run_cleanup t.put_check t.put_sweep c)
        (insert_id t.put_start t.put_check t.put_sweep t.put_created m c)
unfolding insert_id
insert_id-Inserted t m c until e v =
    rw (← e)
      (insert_until-cleaned t.put_check t.put_sweep t.put_created m (t.put_start + c.ttl) c v)

-- A running deduplicator, with the fallback to its cache enabled and a valid cache, checks a
-- valid message that the cache does not remember; Redis says whether the key was set, and the
-- clock does not run backwards from the cache's cleanup to its look-up. Then the answer is
-- Redis's, and in the state that the check leaves, a further check of the message whose clock
-- does not run backwards either, and whose look-up is not later than the insertion's start plus
-- the cache's time to live, finds a duplicate, whatever Redis answers.
pub is_duplicate-First :
    (t : Clock) (m : MessageId) (b : Bool) (latency : ℕ) (d : Deduplicator) (c : LocalCache)
    → IsReady d c
    → is_valid_message_id m ≡ true
    → t.look_sweep ≤ t.look
    → remembers t.look m c.cache_list ≡ false
    → First (t.put_start + c.ttl) m b (is_duplicate t m (set_result b) latency d)
is_duplicate-First t m b latency d c r v le new =
    let d₁ : Deduplicator = record d { total_checks = add64 d.total_checks 1 } in
    let (c', looked, valid, ttl) =
      after_look-unknown t m (set_result b) d₁ c.cache_list _
        (contains-Answers t.look_check t.look_sweep t.look m c r.valid le) new
        (contains-Safe t.look_check t.look_sweep t.look m c r.valid) c.ttl
        (contains-HasTtl t.look_check t.look_sweep t.look m c) in
    let d₂ : Deduplicator = record d₁ {
      local_cache = some c';
      cache_misses = add64 d.cache_misses 1;
    } in
    let answer =
      is_duplicate-decide t m (set_result b) latency d r.started r.open_ v
      ∙ ap (with_latency latency) (
          decide-cached t m (set_result b) d₁ c r.cached r.has_cache
          ∙ looked
          ∙ ask_redis-stored t m b d₂ c' r.cached refl) in
    rw answer (
      after_insert-First (t.put_start + c.ttl) m b latency d₂ _ _ (r.started, r.open_, r.cached) v
        (insert_id-Safe t.put_start t.put_check t.put_sweep t.put_created m c' valid)
        (insert_id-Inserted t m c' (t.put_start + c.ttl) (ap (◌+◌ t.put_start) ttl) valid))
