-- ===== src/Dedup/DeduplicatorTests.antt =====
-- The deduplicator's theorems at concrete inputs.
use udp_to_rabbitmq_gateway.Base.{
  ◌+◌, ◌≡◌, refl, true, false, none, some, List, [], ◌∷◌, bytes_beq, codes, arith,
}
use udp_to_rabbitmq_gateway.Dedup.MessageId.{same_id}
use udp_to_rabbitmq_gateway.Dedup.Cache.Nodes.{is_expired}
use udp_to_rabbitmq_gateway.Dedup.Cache.Reads.{remembers}
use udp_to_rabbitmq_gateway.Dedup.Deduplicator.{
  set_result, exception, Deduplicator, Clock, is_duplicate, is_valid_message_id, all_digits,
  initialize, shutdown, error,
}
use udp_to_rabbitmq_gateway.Dedup.Deduplicator.Answer.{is_duplicate-restarted}
use udp_to_rabbitmq_gateway.Dedup.Deduplicator.Repeats.{IsReady, First, is_duplicate-First}
use udp_to_rabbitmq_gateway.Dedup.Deduplicator.Counters.{Tallied, is_hit, is_duplicate-Tallied}
use udp_to_rabbitmq_gateway.Dedup.Deduplicator.Batch.{
  BatchItem, IsCheckedSome, are_duplicates, are_duplicates-IsChecked,
}
use udp_to_rabbitmq_gateway.Dedup.Deduplicator.Upkeep.{
  Call, checks, checks_all, maintains, stops, run, Sound, run-Sound,
}
use udp_to_rabbitmq_gateway.Dedup.Tests.{msg, other, one, one-IsValid}

-- All readings of the clock are 20.
abbrev now : Clock
now = record {
  look_check = 20;
  look_sweep = 20;
  look = 20;
  put_start = 20;
  put_check = 20;
  put_sweep = 20;
  put_created = 20;
}

abbrev service : Deduplicator
service = record {
  key_prefix = codes "dedup";
  window = 3600;
  initialized = true;
  shutting_down = false;
  fallback = true;
  local_cache = some one;
  total_checks = 0;
  duplicates_found = 0;
  unique_messages = 0;
  redis_failures = 0;
  cache_hits = 0;
  cache_misses = 0;
  latencies = record { recent = []; total = 0; longest = 0; shortest = none };
}

service-IsReady : IsReady service one
service-IsReady = record {
  started = refl;
  open_ = refl;
  cached = refl;
  has_cache = refl;
  valid = one-IsValid;
}

is_duplicate-First_example :
    First (20 + one.ttl) other true (is_duplicate now other (set_result true) 5 service)
unfolding is_valid_message_id all_digits remembers same_id is_expired bytes_beq
is_duplicate-First_example =
    is_duplicate-First now other true 5 service one service-IsReady refl (omega arith) refl

is_duplicate-Tallied_example :
    Tallied
      (is_hit 20 other service)
      (set_result true)
      service
      (is_duplicate now other (set_result true) 5 service)
unfolding is_valid_message_id all_digits
is_duplicate-Tallied_example =
    is_duplicate-Tallied now other (set_result true) 5 service refl refl refl one-IsValid
      (omega arith)

is_duplicate-restarted_example :
    let e = (initialize true 10 1000 30 (shutdown service)).0 in
    is_duplicate now msg (set_result true) 5 e ≡ some (e, error)
is_duplicate-restarted_example =
    is_duplicate-restarted now msg (set_result true) 5 true 10 1000 30 service refl

abbrev pair : List BatchItem
pair =
    (record { message = other; clock = now; answer = set_result true })
    ∷ (record { message = msg; clock = now; answer = exception })
    ∷ []

are_duplicates-IsChecked_example : IsCheckedSome pair service (are_duplicates 5 pair service)
are_duplicates-IsChecked_example =
    are_duplicates-IsChecked 5 (record { message = other; clock = now; answer = set_result true })
      ((record { message = msg; clock = now; answer = exception }) ∷ []) service refl refl
      one-IsValid

abbrev day : List Call
day = checks now other (set_result true) 5 ∷ maintains 30 ∷ checks_all 5 pair ∷ stops ∷ []

run-Sound_example : Sound (run day service)
run-Sound_example = run-Sound day service one-IsValid
