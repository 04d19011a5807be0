-- ===== src/Rabbit/PublisherTests.antt =====
-- The publisher's and the messages' theorems at concrete inputs.
use udp_to_rabbitmq_gateway.Base.{
  ◌≡◌, refl, true, false, none, some, [], ◌∷◌, ◌++◌, codes, arith, inr, bytes_beq,
}
use udp_to_rabbitmq_gateway.Base.Int.{negsuc}
use udp_to_rabbitmq_gateway.Rabbit.Message.{
  Message, from_text, created, generate_message_id, is_empty, is_valid,
}
use udp_to_rabbitmq_gateway.Rabbit.Message.Split.Join.{
  IsRestored, rejoined, combine_messages-split_message,
}
use udp_to_rabbitmq_gateway.Rabbit.Message.Headers.{
  set_header_int, get_header_int, get_header_string, get_header_int-set_header_int,
}
use udp_to_rabbitmq_gateway.Rabbit.Connection.{ConnectionState}
use udp_to_rabbitmq_gateway.Rabbit.Publisher.{
  Item, Publisher, PublisherConfig, init, no_stats, publish, validate_message, publish_internal,
  publish_to_local, finish_publish, process_local_queue,
}
use udp_to_rabbitmq_gateway.Rabbit.Publisher.Control.{
  publish_batch, publish_all, begin_batch, end_batch, on_connection_state_changed,
}
use udp_to_rabbitmq_gateway.Rabbit.Publisher.Drain.{flushed, process_local_queue-flushed}
use udp_to_rabbitmq_gateway.Rabbit.Publisher.Fate.{IsPublished, publish-IsPublished, holdings}
use udp_to_rabbitmq_gateway.Rabbit.Publisher.Valid.{IsValid, Leads}
use udp_to_rabbitmq_gateway.Rabbit.Publisher.Steps.{
  one, pause, resume, state_changed, advance, advance-IsValid,
}
use udp_to_rabbitmq_gateway.Rabbit.Publisher.Reconnect.{
  IsSilent, run, run-IsSilent, publish_batch-on_connection_state_changed,
}

abbrev config : PublisherConfig
config = record {
  confirm_enabled = true;
  persistent_messages = true;
  use_transactions = true;
  local_queue_size = 2;
  batch_size = 100;
}

abbrev item : Item
item = (codes "", codes "eu.1_inbound", from_text 5 100000 (codes "hello"))

abbrev offline : Publisher
offline = record {
  config = config;
  connection = none;
  channel = false;
  connected = false;
  confirms_enabled = false;
  transaction_active = false;
  publishing_paused = false;
  local_queue = item ∷ [];
  local_queue_size = 1;
  local_queue_enabled = true;
  async_tasks = [];
  async_running = false;
  pending_confirms = [];
  stats = no_stats;
  simulated = [];
  calls = [];
}

abbrev online : Publisher
online = record offline { connected = true }

offline-IsValid : IsValid offline
offline-IsValid = record { sized = refl; bounded = omega arith; small = omega arith }

get_header_int-set_header_int_example :
    let m = set_header_int (codes "n") (negsuc 41) (item.2) in
    (get_header_int (codes "n") m ≡ some (negsuc 41))
    × (get_header_string (codes "k") m ≡ get_header_string (codes "k") (item.2))
unfolding bytes_beq
get_header_int-set_header_int_example =
    get_header_int-set_header_int (codes "n") (codes "k") (negsuc 41) (item.2)
      (record { above = omega arith; below = omega arith }) refl

combine_messages-split_message_example :
    (c : Message) × (rejoined 6 100001 2 (item.2) ≡ some c) × IsRestored (item.2) c
unfolding from_text created
combine_messages-split_message_example =
    combine_messages-split_message 6 100001 2 (item.2) (omega arith) (omega arith)

publish-IsPublished_example : IsPublished item offline (publish 1 9 item offline)
publish-IsPublished_example = publish-IsPublished 1 9 item offline

process_local_queue-flushed_example :
    process_local_queue online ≡ some (flushed (online.local_queue) online)
process_local_queue-flushed_example =
    process_local_queue-flushed online refl refl refl (omega arith)

advance-IsValid_example :
    Leads IsValid (advance (inr (state_changed ConnectionState.connected)) offline)
advance-IsValid_example =
    advance-IsValid (inr (state_changed ConnectionState.connected)) offline offline-IsValid

accepted : (publish_batch 1 9 (item ∷ []) offline).1 ≡ true
unfolding publish_batch publish_all publish publish_internal publish_to_local finish_publish
    begin_batch end_batch validate_message is_empty is_valid from_text created generate_message_id
accepted = refl

publish_batch-on_connection_state_changed_example :
    Leads
      (λ r. holdings r ≡ (offline.simulated ++ (offline.local_queue ++ item ∷ []), []))
      (on_connection_state_changed ConnectionState.connected
        (publish_batch 1 9 (item ∷ []) offline).0)
publish_batch-on_connection_state_changed_example =
    publish_batch-on_connection_state_changed 1 9 (item ∷ []) offline offline-IsValid refl refl refl
      accepted

run-IsSilent_example : Leads IsSilent (run (one 1 9 item ∷ pause ∷ resume ∷ []) (init config))
run-IsSilent_example = run-IsSilent (one 1 9 item ∷ pause ∷ resume ∷ []) config
