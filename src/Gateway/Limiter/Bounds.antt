-- ===== src/Gateway/Limiter/Bounds.antt =====
-- How many tokens a bucket can hold or owe.
use udp_to_rabbitmq_gateway.Base.{ℕ, ◌*◌, ◌<◌, ◌≡◌, inl, inr, Bool, true, false, arith, Bool-cases}
use udp_to_rabbitmq_gateway.Base.Int.{ℤ, pos, neg_part, sub_ℕ, ◌*ℤ◌, ◌≤ℤ◌, +ℤ_parts, -ℤ_parts}
use udp_to_rabbitmq_gateway.Base.{
  some, Bytes, bytes_eq, Option-cases, ◌==◌, if-true, if-false, subst, sym, ◌∙◌,
}
use mathlib.Core.Option.{some-injective}
use udp_to_rabbitmq_gateway.Base.Maps.{lookup, insert, lookup-insert}
use udp_to_rabbitmq_gateway.Gateway.Limiter.{
  RateLimiter, find_or_make, limit_bucket, check_limit, set_device_limit, Priority, low, normal,
  high, critical, token, DeviceBucket, make_bucket, refill, spend, consume_token,
  priority_multiplier,
}

-- At most the burst, and a debt of less than 4.1 tokens.
pub record WithinBounds (b : DeviceBucket) : Type 0 where
  pub capped : b.available_tokens ≤ℤ pos (b.bucket_size * token)
  pub owed : neg_part b.available_tokens < 4_100_000_000_000

pub make_bucket-WithinBounds : (rate : ℤ) (size now : ℕ) → WithinBounds (make_bucket rate size now)
unfolding make_bucket
make_bucket-WithinBounds rate size now = record { capped = omega arith; owed = omega arith }

refill-WithinBounds : (now : ℕ) (b : DeviceBucket) → WithinBounds b → WithinBounds (refill now b)
unfolding refill
refill-WithinBounds now b v =
    let new = sub_ℕ now b.last_updated *ℤ b.tokens_per_second in
    ground (arith, +ℤ_parts b.available_tokens new)

spend-WithinBounds :
    (boost : Bool) (p : Priority) (b : DeviceBucket)
    → WithinBounds b
    → WithinBounds (spend (priority_multiplier boost p) b).0
unfolding spend priority_multiplier
spend-WithinBounds false p b v = ground (arith, -ℤ_parts b.available_tokens (pos 1_000_000_000_000))
spend-WithinBounds true critical b v =
    ground (arith, -ℤ_parts b.available_tokens (pos 100_000_000_000))
spend-WithinBounds true high b v = ground (arith, -ℤ_parts b.available_tokens (pos 200_000_000_000))
spend-WithinBounds true normal b v =
    ground (arith, -ℤ_parts b.available_tokens (pos 1_000_000_000_000))
spend-WithinBounds true low b v =
    ground (arith, -ℤ_parts b.available_tokens (pos 2_000_000_000_000))

-- A message of any priority, admitted or refused, leaves a bucket that holds at most its burst and
-- owes less than 4.1 tokens, if it did before.
pub consume_token-WithinBounds :
    (now : ℕ) (boost : Bool) (p : Priority) (b : DeviceBucket)
    → WithinBounds b
    → WithinBounds (consume_token now (priority_multiplier boost p) b).0
unfolding consume_token
consume_token-WithinBounds now boost p b v =
    spend-WithinBounds boost p (refill now b) (refill-WithinBounds now b v)

limit_bucket-WithinBounds :
    (rate : ℤ) (burst : ℕ) (b : DeviceBucket)
    → WithinBounds b
    → WithinBounds (limit_bucket rate burst b)
unfolding limit_bucket
limit_bucket-WithinBounds rate burst b v = ground arith

-- Every bucket of a device that the limiter knows.
unfoldable pub IsBounded : RateLimiter → Type 0
IsBounded l = (id : Bytes) (b : DeviceBucket) → lookup id l.device_buckets ≡ some b → WithinBounds b

find_or_make-WithinBounds :
    (now : ℕ) (id : Bytes) (l : RateLimiter) → IsBounded l → WithinBounds (find_or_make now id l)
unfolding find_or_make IsBounded
find_or_make-WithinBounds now id l v = elim (Option-cases (lookup id l.device_buckets)) [
  | inl e ↦
      rw (e, find_or_make)
        (make_bucket-WithinBounds l.default_messages_per_second l.default_burst_size now)
  | inr (b, e) ↦ rw (e, find_or_make) (v id b e)
]

insert-IsBounded :
    (id : Bytes) (b : DeviceBucket) (l : RateLimiter)
    → WithinBounds b
    → IsBounded l
    → IsBounded (record l { device_buckets = insert id b l.device_buckets })
unfolding IsBounded
insert-IsBounded id b l w v j c h = elim (Bool-cases (id == j)) [
  | inl e ↦
      subst WithinBounds
        (some-injective b c (
          sym (if-true (id == j) (some b) (lookup j l.device_buckets) e)
          ∙ sym (lookup-insert id j b l.device_buckets)
          ∙ h))
        w
  | inr e ↦ v j c (
      sym (if-false (id == j) (some b) (lookup j l.device_buckets) e)
      ∙ sym (lookup-insert id j b l.device_buckets)
      ∙ h)
]

-- A check of any device and priority keeps all buckets between a debt of less than 4.1 tokens and
-- their burst.
pub check_limit-IsBounded :
    (made now : ℕ) (id : Bytes) (p : Priority) (l : RateLimiter)
    → IsBounded l
    → IsBounded (check_limit made now id p l).0
unfolding check_limit
check_limit-IsBounded made now id p l v =
    let b = find_or_make made id l in
    insert-IsBounded id (consume_token now (priority_multiplier l.enable_priority_boost p) b).0 l
      (consume_token-WithinBounds now l.enable_priority_boost p b
        (find_or_make-WithinBounds made id l v))
      v

-- So does a new limit for a device, also one with a smaller burst.
set_device_limit-IsBounded :
    (now : ℕ) (id : Bytes) (rate : ℤ) (burst : ℕ) (l : RateLimiter)
    → IsBounded l
    → IsBounded (set_device_limit now id rate burst l)
unfolding set_device_limit IsBounded
set_device_limit-IsBounded now id rate burst l v =
    elim (Option-cases (lookup id l.device_buckets)) [
      | inl e ↦ rw e (
          insert-IsBounded id (make_bucket rate burst now) l
            (make_bucket-WithinBounds rate burst now) v)
      | inr (b, e) ↦ rw e (
          insert-IsBounded id (limit_bucket rate burst b) l
            (limit_bucket-WithinBounds rate burst b (v id b e)) v)
    ]
