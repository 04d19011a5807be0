-- ===== src/Gateway/Tests.antt =====
-- The rate limiter's and the gateway's theorems at concrete inputs.
use udp_to_rabbitmq_gateway.Base.{
  ℕ, ◌+◌, ◌*◌, ◌≤◌, ◌≡◌, refl, true, false, ◌&&◌, List, [], ◌∷◌, bytes_eq, codes, arith,
  if◌then◌else◌,
}
use udp_to_rabbitmq_gateway.Base.Int.{pos, pos_part, neg_part}
use udp_to_rabbitmq_gateway.Base.Maps.{lookup}
use udp_to_rabbitmq_gateway.Gateway.Types.{ok}
use udp_to_rabbitmq_gateway.Gateway.Limiter.{
  Priority, normal, high, critical, DeviceBucket, make_bucket, RateLimiter, check_limit,
}
use udp_to_rabbitmq_gateway.Gateway.Limiter.Bounds.{
  make_bucket-WithinBounds, IsBounded, check_limit-IsBounded,
}
use udp_to_rabbitmq_gateway.Gateway.Limiter.Conserve.{granted, granted-bounded}
use udp_to_rabbitmq_gateway.Gateway.Limiter.Statistics.{
  IsSame, get_device_statistics, get_device_statistics-check_limit,
}
use udp_to_rabbitmq_gateway.Gateway.Lifecycle.{Gateway, start, start-sessions}

-- Ten messages a second, twenty at once.
abbrev bucket : DeviceBucket
bucket = make_bucket (pos 10_000) 20 0

abbrev limiter : RateLimiter
limiter = record {
  default_messages_per_second = pos 10_000;
  default_burst_size = 20;
  enable_priority_boost = true;
  device_buckets = [];
}

limiter-IsBounded : IsBounded limiter
unfolding IsBounded lookup
limiter-IsBounded id b h = cc

-- Two messages, one second apart.
abbrev calls : List (ℕ × Priority)
calls = (5, critical) ∷ (1_000_000_005, normal) ∷ []

granted-bounded_example :
    granted true calls bucket + neg_part bucket.available_tokens + 10_000 * bucket.last_updated
    ≤ pos_part bucket.available_tokens + 4_100_000_000_000 + 10_000 * 1_000_000_005
unfolding make_bucket
granted-bounded_example =
    granted-bounded true 10_000 1_000_000_005 calls bucket
      (make_bucket-WithinBounds (pos 10_000) 20 0) refl (omega arith, (omega arith, omega arith))

check_limit-IsBounded_example : IsBounded (check_limit 5 6 (codes "a") high limiter).0
check_limit-IsBounded_example = check_limit-IsBounded 5 6 (codes "a") high limiter limiter-IsBounded

abbrev known : RateLimiter
known = record limiter { device_buckets = (codes "a", bucket) ∷ [] }

get_device_statistics-check_limit_example :
    IsSame
      (codes "a")
      (check_limit 5 6 (codes "a") high (get_device_statistics 6 (codes "a") known).0)
      (check_limit 5 6 (codes "a") high known)
get_device_statistics-check_limit_example =
    get_device_statistics-check_limit 5 6 (codes "a") high known

abbrev gateway : Gateway
gateway = record {
  num_worker_threads = 4;
  enable_metrics = true;
  has_collector = true;
  running = false;
  work_guard = false;
  worker_threads = 0;
  timer_created = false;
  timer_armed = false;
  active_sessions = [];
  active_connections = 0;
  peak_connections = 0;
}

start-sessions_example :
    let (h, result) = start true 8125 gateway in
    (result ≡ ok true)
    × (h.running ≡ true)
    × (h.active_sessions ≡ gateway.active_sessions)
    × (h.timer_armed
        ≡ (if gateway.enable_metrics && gateway.has_collector then false else gateway.timer_armed))
    × (h.worker_threads ≡ gateway.worker_threads + gateway.num_worker_threads)
start-sessions_example = start-sessions 8125 gateway refl
