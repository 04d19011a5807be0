-- ===== src/Gateway/Limiter.antt =====
-- components/udp-gateway/src/rate_limiter.cpp. Tokens are `double` in the source; here they are
-- integers in units of 1e-12 tokens, in which every constant of the source is whole. A rate is in
-- thousandths of a message per second and a time in nanoseconds, so that their product is in
-- units. Rounding of `double` is left out. The clock's readings are arguments.
pub mod Bounds
pub mod Conserve
pub mod Statistics
use udp_to_rabbitmq_gateway.Base.{
  ℕ, suc, ◌+◌, ◌-◌, ◌*◌, ◌/◌, ◌^◌, Bool, true, false, ◌||◌, Option, none, some, List, [], ◌∷◌, ltb,
  leb, if◌then◌else◌, Bytes, bytes_eq, add64,
}
use udp_to_rabbitmq_gateway.Base.Int.{ℤ, pos, negsuc, sub_ℕ, ◌+ℤ◌, ◌-ℤ◌, ◌*ℤ◌, leb_ℤ, ltb_ℤ, min_ℤ}
use udp_to_rabbitmq_gateway.Base.Maps.{Map, lookup, insert}

-- `Priority` of udp_gateway/types.hpp
pub data Priority : Type 0 where
  low normal high critical : Priority

-- One token.
abbrev pub token : ℕ
token = 1_000_000_000_000

pub record DeviceBucket : Type 0 where
  pub tokens_per_second : ℤ
  pub bucket_size : ℕ
  pub available_tokens : ℤ
  pub last_updated : ℕ
  pub total_messages : ℕ
  pub limited_messages : ℕ

unfoldable pub make_bucket : ℤ → ℕ → ℕ → DeviceBucket
make_bucket rate size now = record {
  tokens_per_second = rate;
  bucket_size = size;
  available_tokens = pos (size * token);
  last_updated = now;
  total_messages = 0;
  limited_messages = 0;
}

unfoldable pub refill : ℕ → DeviceBucket → DeviceBucket
refill now b =
    let new_tokens = sub_ℕ now b.last_updated *ℤ b.tokens_per_second in
    if ltb_ℤ (pos 0) new_tokens
    then (record b {
      available_tokens = min_ℤ (pos (b.bucket_size * token)) (b.available_tokens +ℤ new_tokens);
      last_updated = now;
    })
    else b

-- `1.0 / priorityMultiplier`, for a multiplier in tenths.
abbrev pub tokens_needed : ℕ → ℕ
tokens_needed multiplier = 10 * token / multiplier

unfoldable pub take : ℕ → DeviceBucket → DeviceBucket × Bool
take needed b = (
  record b {
    available_tokens = b.available_tokens -ℤ pos needed;
    total_messages = add64 b.total_messages 1;
  },
  true,
)

unfoldable pub deny : DeviceBucket → DeviceBucket × Bool
deny b = (
  record b {
    total_messages = add64 b.total_messages 1;
    limited_messages = add64 b.limited_messages 1;
  },
  false,
)

-- -4.0 tokens
abbrev pub debt_floor : ℤ
debt_floor = negsuc (4 * token - 1)

-- `consumeToken` behind `refill`
unfoldable pub spend : ℕ → DeviceBucket → DeviceBucket × Bool
unfolding take deny
spend multiplier b =
    let needed = tokens_needed multiplier in
    if leb 100 multiplier
    then (if leb_ℤ (pos needed) b.available_tokens || ltb_ℤ debt_floor b.available_tokens
        then take needed b
        else deny b)
    else (if leb_ℤ (pos needed) b.available_tokens then take needed b else deny b)

unfoldable pub consume_token : ℕ → ℕ → DeviceBucket → DeviceBucket × Bool
unfolding refill spend
consume_token now multiplier b = spend multiplier (refill now b)

-- `getPriorityMultiplier`, in tenths
unfoldable pub priority_multiplier : Bool → Priority → ℕ
priority_multiplier false p = 10
priority_multiplier true critical = 100
priority_multiplier true high = 50
priority_multiplier true normal = 10
priority_multiplier true low = 5

pub record RateLimiter : Type 0 where
  pub default_messages_per_second : ℤ
  pub default_burst_size : ℕ
  pub enable_priority_boost : Bool
  pub device_buckets : Map Bytes DeviceBucket

unfoldable pub find_or_make : ℕ → Bytes → RateLimiter → DeviceBucket
unfolding make_bucket
find_or_make now id l = elim (lookup id l.device_buckets) [
  | none ↦ make_bucket l.default_messages_per_second l.default_burst_size now
  | some b ↦ b
]

-- The constructor of a new bucket reads the clock before `refill` does.
unfoldable pub check_limit : ℕ → ℕ → Bytes → Priority → RateLimiter → RateLimiter × Bool
unfolding find_or_make consume_token priority_multiplier
check_limit made now id p l =
    let (b, allowed) =
      consume_token now (priority_multiplier l.enable_priority_boost p) (find_or_make made id l) in
    (record l { device_buckets = insert id b l.device_buckets }, allowed)

-- A new limit for a bucket that exists.
unfoldable pub limit_bucket : ℤ → ℕ → DeviceBucket → DeviceBucket
limit_bucket rate burst b = record b {
  tokens_per_second = rate;
  bucket_size = burst;
  available_tokens = min_ℤ b.available_tokens (pos (burst * token));
}

unfoldable pub set_device_limit : ℕ → Bytes → ℤ → ℕ → RateLimiter → RateLimiter
unfolding make_bucket limit_bucket
set_device_limit now id rate burst l =
    let b : DeviceBucket = elim (lookup id l.device_buckets) [
      | none ↦ make_bucket rate burst now
      | some b ↦ limit_bucket rate burst b
    ] in
    record l { device_buckets = insert id b l.device_buckets }

unfoldable pub set_default_limit : ℤ → ℕ → RateLimiter → RateLimiter
set_default_limit rate burst l = record l {
  default_messages_per_second = rate;
  default_burst_size = burst;
}

unfoldable pub reset_bucket : ℕ → DeviceBucket → DeviceBucket
reset_bucket now b = record b {
  available_tokens = pos (b.bucket_size * token);
  last_updated = now;
  total_messages = 0;
  limited_messages = 0;
}

-- The buckets of the test interface are never filled, so that erasing them is left out.
unfoldable pub reset_device : ℕ → Bytes → RateLimiter → RateLimiter
unfolding reset_bucket
reset_device now id l = elim (lookup id l.device_buckets) [
  | none ↦ l
  | some b ↦ record l { device_buckets = insert id (reset_bucket now b) l.device_buckets }
]
