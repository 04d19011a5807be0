-- ===== src/Gateway/Limiter/Statistics.antt =====
-- components/udp-gateway/src/rate_limiter.cpp: `tryAcquire` and `getDeviceStatistics`, which refills
-- the bucket that it reports although it is declared const.
use udp_to_rabbitmq_gateway.Base.{
  ℕ, ◌*◌, ◌≡◌, false, refl, sym, ap, subst, ◌∙◌, Bool, Option, inl, inr, zero, suc, if-true,
  Option-cases, if-split, if-false, none, some, ltb, if◌then◌else◌, arith, Bytes, bytes_eq,
  bytes_beq_iff, ◌==◌,
}
use udp_to_rabbitmq_gateway.Base.Int.{ℤ, pos, ltb_ℤ, sub_ℕ, ◌*ℤ◌}
use udp_to_rabbitmq_gateway.Base.Maps.{lookup, insert, lookup-insert}
use udp_to_rabbitmq_gateway.Gateway.Limiter.{
  Priority, normal, high, critical, token, DeviceBucket, RateLimiter, refill, spend, consume_token,
  priority_multiplier, find_or_make, check_limit,
}

-- The switch of `tryAcquire`.
unfoldable pub as_priority : ℤ → Priority
as_priority (pos zero) = normal
as_priority (pos (suc zero)) = high
as_priority (pos (suc (suc zero))) = critical
as_priority _ = normal

unfoldable pub try_acquire : ℕ → ℕ → Bytes → ℤ → RateLimiter → RateLimiter × Bool
unfolding check_limit as_priority
try_acquire made now id priority l = check_limit made now id (as_priority priority) l

-- The map that `getDeviceStatistics` fills. The percentage is a numerator and a denominator.
pub record DeviceStatistics : Type 0 where
  pub tokens_per_second : ℤ
  pub bucket_size : ℕ
  pub available_tokens : ℤ
  pub total_messages : ℕ
  pub limited_messages : ℕ
  pub limited_percentage : ℕ × ℕ

unfoldable pub bucket_statistics : DeviceBucket → DeviceStatistics
bucket_statistics b = record {
  tokens_per_second = b.tokens_per_second;
  bucket_size = b.bucket_size;
  available_tokens = b.available_tokens;
  total_messages = b.total_messages;
  limited_messages = b.limited_messages;
  limited_percentage =
      if ltb 0 b.total_messages then (100 * b.limited_messages, b.total_messages) else (0, 1);
}

unfoldable pub default_statistics : RateLimiter → DeviceStatistics
default_statistics l = record {
  tokens_per_second = l.default_messages_per_second;
  bucket_size = l.default_burst_size;
  available_tokens = pos (l.default_burst_size * token);
  total_messages = 0;
  limited_messages = 0;
  limited_percentage = (0, 1);
}

unfoldable pub get_device_statistics : ℕ → Bytes → RateLimiter → RateLimiter × DeviceStatistics
unfolding refill bucket_statistics default_statistics
get_device_statistics now id l = elim (lookup id l.device_buckets) [
  | none ↦ (l, default_statistics l)
  | some b ↦ (
    record l { device_buckets = insert id (refill now b) l.device_buckets },
    bucket_statistics (refill now b),
  )
]

none_elapsed : (now : ℕ) → sub_ℕ now now ≡ pos 0
none_elapsed now = ground arith

nothing_new : (r : ℤ) → ltb_ℤ (pos 0) (pos 0 *ℤ r) ≡ false
unfolding ◌*ℤ◌
nothing_new r = ground arith

-- A second refill at the same reading of the clock finds nothing to add.
refill-refill : (now : ℕ) (b : DeviceBucket) → refill now (refill now b) ≡ refill now b
unfolding refill
refill-refill now b =
    if-split (λ d. refill now d ≡ d)
      (ltb_ℤ (pos 0) (sub_ℕ now b.last_updated *ℤ b.tokens_per_second)) _ _
      (λ full. if-false (ltb_ℤ (pos 0) (sub_ℕ now now *ℤ b.tokens_per_second)) _ _ (
        ap (λ n. ltb_ℤ (pos 0) (n *ℤ b.tokens_per_second)) (none_elapsed now)
        ∙ nothing_new b.tokens_per_second))
      (λ still. if-false _ _ _ still)

lookup-insert_same :
    (id : Bytes) (b : DeviceBucket) (l : RateLimiter)
    → lookup id (insert id b l.device_buckets) ≡ some b
lookup-insert_same id b l =
    lookup-insert id id b l.device_buckets ∙ if-true (id == id) _ _ ((bytes_beq_iff id id).1 refl)

find_or_make_known :
    (made : ℕ) (id : Bytes) (l : RateLimiter) (b : DeviceBucket)
    → lookup id l.device_buckets ≡ some b
    → find_or_make made id l ≡ b
unfolding find_or_make
find_or_make_known made id l b e = rw (e, find_or_make) refl

-- `getDeviceStatistics` by what it finds.
abbrev report : ℕ → Bytes → RateLimiter → Option DeviceBucket → RateLimiter × DeviceStatistics
report seen id l found = elim found [
  | none ↦ (l, default_statistics l)
  | some b ↦ (
    record l { device_buckets = insert id (refill seen b) l.device_buckets },
    bucket_statistics (refill seen b),
  )
]

get_device_statistics_known :
    (seen : ℕ) (id : Bytes) (l : RateLimiter) (b : DeviceBucket)
    → lookup id l.device_buckets ≡ some b
    → get_device_statistics seen id l ≡ (
      record l { device_buckets = insert id (refill seen b) l.device_buckets },
      bucket_statistics (refill seen b),
    )
unfolding get_device_statistics
get_device_statistics_known seen id l b e = ap (report seen id l) e

-- What two checks of one device have in common: the answer, and the bucket that they leave.
pub record IsSame (id : Bytes) (r s : RateLimiter × Bool) : Type 0 where
  pub answer : r.1 ≡ s.1
  pub bucket : lookup id r.0.device_buckets ≡ lookup id s.0.device_buckets

check_limit-IsSame :
    (made now : ℕ) (id : Bytes) (p : Priority) (l : RateLimiter) (b c : DeviceBucket)
    → lookup id l.device_buckets ≡ some b
    → refill now c ≡ refill now b
    → let observed = record l { device_buckets = insert id c l.device_buckets } in
      IsSame id (check_limit made now id p observed) (check_limit made now id p l)
unfolding check_limit consume_token
check_limit-IsSame made now id p l b c e h =
    let observed = record l { device_buckets = insert id c l.device_buckets } in
    let m = priority_multiplier l.enable_priority_boost p in
    let consumed : consume_token now m (find_or_make made id observed)
        ≡ consume_token now m (find_or_make made id l) =
      ap (consume_token now m) (find_or_make_known made id observed c (lookup-insert_same id c l))
      ∙ ap (spend m) h
      ∙ ap (consume_token now m) (sym (find_or_make_known made id l b e)) in
    record {
      answer = ap (λ r. r.1) consumed;
      bucket =
          lookup-insert_same id (consume_token now m (find_or_make made id observed)).0 observed
          ∙ ap (λ r. some r.0) consumed
          ∙ sym (lookup-insert_same id (consume_token now m (find_or_make made id l)).0 l);
    }

IsSame-refl : (id : Bytes) (r : RateLimiter × Bool) → IsSame id r r
IsSame-refl id r = record { answer = refl; bucket = refl }

get_device_statistics-unknown :
    (now : ℕ) (id : Bytes) (l : RateLimiter)
    → lookup id l.device_buckets ≡ none
    → (get_device_statistics now id l).0 ≡ l
unfolding get_device_statistics
get_device_statistics-unknown now id l e = ap (λ o. (report now id l o).0) e

-- Asking for the statistics of a device makes no difference to a check of it at the same reading of
-- the clock, although it refills the bucket: the answer and the bucket afterwards are the same as
-- without, for every limiter, rate and device, known or not.
pub get_device_statistics-check_limit :
    (made now : ℕ) (id : Bytes) (p : Priority) (l : RateLimiter)
    → IsSame id
        (check_limit made now id p (get_device_statistics now id l).0)
        (check_limit made now id p l)
get_device_statistics-check_limit made now id p l =
    let Same =
      λ (k : RateLimiter). IsSame id (check_limit made now id p k) (check_limit made now id p l) in
    elim (Option-cases (lookup id l.device_buckets)) [
      | inl e ↦
          subst Same (sym (get_device_statistics-unknown now id l e))
            (IsSame-refl id (check_limit made now id p l))
      | inr (b, e) ↦
          subst (λ (o : RateLimiter × DeviceStatistics). Same o.0)
            (sym (get_device_statistics_known now id l b e))
            (check_limit-IsSame made now id p l b (refill now b) e (refill-refill now b))
    ]
