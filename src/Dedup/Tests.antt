-- ===== src/Dedup/Tests.antt =====
-- The deduplication theorems at concrete inputs.
use udp_to_rabbitmq_gateway.Base.{refl, [], ◌∷◌, codes, arith, add64, bytes_eq}
use udp_to_rabbitmq_gateway.Base.Maps.{lookup, insert}
use udp_to_rabbitmq_gateway.Dedup.MessageId.{MessageId, generate_key}
use udp_to_rabbitmq_gateway.Dedup.Cache
use udp_to_rabbitmq_gateway.Dedup.Cache.{
  LocalCache, contains, insert_id, insert_until, check_and_run_cleanup, remove, store, insert_new,
  push_front,
}
use udp_to_rabbitmq_gateway.Dedup.Cache.Invariant.{IsValid, init-IsValid}
use udp_to_rabbitmq_gateway.Dedup.Cache.Safety.{Safe, contains-Safe, insert_id-Safe}
use udp_to_rabbitmq_gateway.Dedup.Cache.Reads.{Answers, contains-Answers}
use udp_to_rabbitmq_gateway.Dedup.Cache.Writes.{
  InsertedAt, evicted, insert_until-InsertedAt, IsRemoved, remove-IsRemoved,
}

abbrev pub msg : MessageId
msg = record { imei = codes "123456789012345"; sequence_number = 7 }

abbrev pub other : MessageId
other = record { imei = codes "123456789012345"; sequence_number = 8 }

-- Room for two messages, for a second.
abbrev empty : LocalCache
empty = record {
  max_size = 2;
  ttl = 1000;
  cache_list = [];
  cache_map = [];
  fresh = 0;
  hits = 0;
  misses = 0;
  insertions = 0;
  evictions = 0;
  expired_removals = 0;
  cleanup_interval = 300000;
  last_cleanup = 0;
  next_cleanup = 300000;
}

-- The cache with the first message, stored at 10.
abbrev pub one : LocalCache
one = record empty {
  cache_list =
      record {
        iter = 0;
        entry = record { message_id = msg; expiry_time = 1010; created_time = 10 };
      }
      ∷ [];
  cache_map = (codes "123456789012345:7", 0) ∷ [];
  fresh = 1;
  insertions = 1;
}

empty-IsValid : IsValid empty
unfolding Cache.init
empty-IsValid = init-IsValid 2 1000 0 empty refl

pub one-IsValid : IsValid one
unfolding insert_id lookup insert add64 generate_key
one-IsValid = insert_id-Safe 10 10 10 10 msg empty empty-IsValid

contains-Safe_example : Safe (contains 20 20 20 msg one)
contains-Safe_example = contains-Safe 20 20 20 msg one one-IsValid

insert_id-Safe_example : Safe (insert_id 20 20 20 20 other one)
insert_id-Safe_example = insert_id-Safe 20 20 20 20 other one one-IsValid

contains-Answers_example : Answers 20 msg one.cache_list (contains 20 20 20 msg one)
contains-Answers_example = contains-Answers 20 20 20 msg one one-IsValid (omega arith)

insert_until-InsertedAt_example :
    InsertedAt 20 other 900 (evicted 20 20 other one) one (insert_until 20 20 20 other 900 one)
insert_until-InsertedAt_example = insert_until-InsertedAt 20 20 20 other 900 one one-IsValid

remove-IsRemoved_example : IsRemoved msg one (remove msg one)
remove-IsRemoved_example = remove-IsRemoved msg one one-IsValid
