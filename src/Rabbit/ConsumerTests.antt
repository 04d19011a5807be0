-- ===== src/Rabbit/ConsumerTests.antt =====
-- The consumer's theorems at concrete states.
use udp_to_rabbitmq_gateway.Base.{
  ◌≡◌, refl, true, false, none, some, [], ◌∷◌, Bytes, codes, bytes_eq, bytes_beq, add64,
}
use udp_to_rabbitmq_gateway.Base.Maps.{insert, lookup}
use udp_to_rabbitmq_gateway.Rabbit.Connection.{connected, is_connected, open_connection}
use udp_to_rabbitmq_gateway.Rabbit.Consumer.{
  ConsumerConfig, ConsumerInfo, ConsumerStats, looping, registering, Thread, Consumer, no_stats,
  init, validate_queue, has_connection, initialize_connection, is_known, create_consumer,
  start_consuming, register, test_loop, check_active,
}
use udp_to_rabbitmq_gateway.Rabbit.Consumer.Statistics.{
  acknowledge, process_message, IsSound, IsBalanced, no_more, one_more, process_message-IsSound,
  process_message-acknowledge,
}
use udp_to_rabbitmq_gateway.Rabbit.Consumer.Threads.{
  Reach, new, more, started, registered, tested, check_active-Reach,
}

abbrev config : ConsumerConfig
config = record { prefetch_count = 10; auto_ack = false; ack_timeout = 30000 }

abbrev name : Bytes
name = codes "eu.1_inbound"

abbrev zeros : ConsumerStats
zeros = record {
  messages_received = 0;
  messages_acknowledged = 0;
  messages_rejected = 0;
  messages_requeued = 0;
  messages_unacked = 0;
  bytes_received = 0;
  max_processing_time = 0;
  avg_processing_time = 0;
  last_message = 0;
}

abbrev info : ConsumerInfo
info = record { queue_name = name; consumer_tag = codes "t"; active = true; stats = zeros }

-- Started on one queue, then with its thread registered, then with the thread in its loop.
abbrev begun : Consumer
begun = (start_consuming true 7 name (codes "t") (init config)).0

abbrev known : Consumer
known = record begun {
  consumers = (name, info) ∷ [];
  consumer_threads = (record { info = none; position = looping }) ∷ [];
}

abbrev in_loop : Thread
in_loop = test_loop (record { info = none; position = looping }) known

abbrev running : Consumer
running = record known { consumer_threads = in_loop ∷ [] }

running-Reach : Reach config running
unfolding init start_consuming validate_queue is_known initialize_connection has_connection
    is_connected open_connection create_consumer register lookup insert no_stats
running-Reach =
    more
      (more (more new (started true 7 name (codes "t")))
        (registered [] [] (record { info = some info; position = registering }) refl refl refl))
      (tested [] [] (record { info = none; position = looping }) refl refl)

check_active-Reach_example : check_active in_loop running ≡ none
unfolding test_loop init start_consuming validate_queue is_known initialize_connection
    has_connection is_connected open_connection create_consumer
check_active-Reach_example = check_active-Reach config running [] [] in_loop running-Reach refl refl

abbrev linked : Consumer
linked = record {
  config = config;
  connection = some connected;
  running = true;
  stopping = false;
  consumers = (name, info) ∷ [];
  aggregated_stats = zeros;
  consumer_threads = [];
}

zeros-IsBalanced : IsBalanced zeros
unfolding add64
zeros-IsBalanced = record { balanced = refl }

linked-IsSound : IsSound linked
linked-IsSound = record { each = one_more zeros-IsBalanced no_more; all = zeros-IsBalanced }

found : lookup name linked.consumers ≡ some info
unfolding lookup bytes_beq
found = refl

process_message-IsSound_example : IsSound (process_message name 3 9 (some false) linked)
process_message-IsSound_example =
    process_message-IsSound name 3 9 (some false) linked linked-IsSound

process_message-acknowledge_example :
    (process_message name 3 9 (some true) (acknowledge linked).0).aggregated_stats
    ≡ (process_message name 3 9 (some true) linked).aggregated_stats
process_message-acknowledge_example = process_message-acknowledge name 3 9 true info linked found
