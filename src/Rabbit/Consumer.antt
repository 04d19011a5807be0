-- ===== src/Rabbit/Consumer.antt =====
-- components/rabbitmq_integration/src/consumer.cpp, `Consumer`. The clock, the time that a callback took and
-- what it answered, and whether `createChannel` gives a channel are arguments: the code of the last is
-- commented out. What holds a mutex is one step.
pub mod Statistics
pub mod Threads
pub mod Groups
use udp_to_rabbitmq_gateway.Base.{
  ℕ, zero, suc, ◌+◌, ◌/◌, Bool, true, false, not, ◌&&◌, ◌||◌, Option, none, some, List, [], ◌∷◌,
  ◌++◌, Bytes, codes, length, leb, ltb, nat_beq, ◌==◌, bytes_eq, if◌then◌else◌, ◌>>=◌, add64,
}
use udp_to_rabbitmq_gateway.Base.Maps.{Map, lookup, insert, erase}
use udp_to_rabbitmq_gateway.Dedup.MessageId.{to_string}
use udp_to_rabbitmq_gateway.Rabbit.Connection.{
  ConnectionState, disconnected, is_connected, open_connection,
}

pub record ConsumerConfig : Type 0 where
  pub prefetch_count : ℕ
  pub auto_ack : Bool
  pub ack_timeout : ℕ

pub record ConsumerStats : Type 0 where
  pub messages_received : ℕ
  pub messages_acknowledged : ℕ
  pub messages_rejected : ℕ
  pub messages_requeued : ℕ
  pub messages_unacked : ℕ
  pub bytes_received : ℕ
  pub max_processing_time : ℕ
  pub avg_processing_time : ℕ
  pub last_message : ℕ

pub record ConsumerInfo : Type 0 where
  pub queue_name : Bytes
  pub consumer_tag : Bytes
  pub active : Bool
  pub stats : ConsumerStats

-- Where a thread stands: before it puts its consumer into the map, at the head of its loop, in the sleep of
-- the loop, and at its end.
pub data Position : Type 0 where
  registering looping sleeping finished : Position

-- The pointer `info` of a thread is `none` once it has been moved from.
pub record Thread : Type 0 where
  pub info : Option ConsumerInfo
  pub position : Position

pub record Consumer : Type 0 where
  pub config : ConsumerConfig
  pub connection : Option ConnectionState
  pub running : Bool
  pub stopping : Bool
  pub consumers : Map Bytes ConsumerInfo
  pub aggregated_stats : ConsumerStats
  pub consumer_threads : List Thread

unfoldable pub no_stats : ConsumerStats
no_stats = record {
  messages_received = 0;
  messages_acknowledged = 0;
  messages_rejected = 0;
  messages_requeued = 0;
  messages_unacked = 0;
  bytes_received = 0;
  max_processing_time = 0;
  avg_processing_time = 0;
  last_message = 0;
}

unfoldable pub init : ConsumerConfig → Consumer
unfolding no_stats
init config = record {
  config = config;
  connection = none;
  running = false;
  stopping = false;
  consumers = [];
  aggregated_stats = no_stats;
  consumer_threads = [];
}

unfoldable pub validate_queue : Bytes → Bool
validate_queue name = ltb 0 (length name) && leb (length name) 255

unfoldable pub generate_consumer_tag : ℕ → Bytes → Bytes
unfolding to_string
generate_consumer_tag now name = codes "consumer_" ++ (name ++ (codes "_" ++ to_string now))

unfoldable pub has_connection : Consumer → Bool
unfolding is_connected
has_connection c = elim c.connection [ none ↦ false | some state ↦ is_connected state ]

-- Opening always answers true.
unfoldable pub initialize_connection : Consumer → Consumer
unfolding has_connection open_connection
initialize_connection c =
    if has_connection c then c else record c { connection = some (open_connection disconnected).0 }

unfoldable pub is_known : Bytes → Consumer → Bool
unfolding lookup
is_known name c = elim (lookup name c.consumers) [ none ↦ false | some info ↦ true ]

unfoldable pub create_consumer : Bytes → Bytes → Consumer → Consumer
unfolding no_stats
create_consumer name tag c =
    let info : ConsumerInfo = record {
      queue_name = name;
      consumer_tag = tag;
      active = true;
      stats = no_stats;
    } in
    record c {
      consumer_threads =
          c.consumer_threads ++ (record { info = some info; position = registering }) ∷ [];
    }

unfoldable pub start_consuming : Bool → ℕ → Bytes → Bytes → Consumer → Consumer × Bool
unfolding validate_queue is_known initialize_connection create_consumer generate_consumer_tag
start_consuming created now name tag c =
    if not (validate_queue name) || is_known name c
    then (c, false)
    else if created
    then (
      record (create_consumer name
          (if nat_beq (length tag) 0 then generate_consumer_tag now name else tag)
          (initialize_connection c)) { running = true },
      true,
    )
    else (initialize_connection c, false)

-- `consumers_[info->queueName] = std::move(info)`
unfoldable pub register : Thread → Consumer → Option (Thread × Consumer)
unfolding insert
register t c = do
  info ← t.info
  some (
    record { info = none; position = looping },
    record c { consumers = insert info.queue_name info c.consumers },
  )

-- The condition of the loop.
unfoldable pub test_loop : Thread → Consumer → Thread
test_loop t c = record t { position = if c.running && not c.stopping then sleeping else finished }

-- The body behind the sleep: `none` where the name is read through a null pointer.
unfoldable pub check_active : Thread → Consumer → Option Thread
unfolding lookup
check_active t c = do
  info ← t.info
  some (elim (lookup info.queue_name c.consumers) [
    | none ↦ record t { position = finished }
    | some other ↦ record t { position = if other.active then looping else finished }
  ])

unfoldable pub deactivate : Map Bytes ConsumerInfo → Map Bytes ConsumerInfo
deactivate [] = []
deactivate ((name, info) ∷ more) = (name, record info { active = false }) ∷ deactivate more

-- `stopConsuming` of all up to the joins, and behind them.
unfoldable pub stop_begin : Consumer → Consumer
unfolding deactivate
stop_begin c = record c { stopping = true; consumers = deactivate c.consumers }

unfoldable pub stop_end : Consumer → Consumer
stop_end c = record c { consumer_threads = []; consumers = []; running = false; stopping = false }

-- `stopConsuming` of one queue; `cleanupConsumer` does the same and answers nothing.
unfoldable pub stop_consuming : Bytes → Consumer → Consumer × Bool
unfolding is_known erase
stop_consuming name c =
    if is_known name c then (record c { consumers = erase name c.consumers }, true) else (c, false)

unfoldable pub teardown_connection : Consumer → Consumer
teardown_connection c = record c { connection = none }

unfoldable pub active_names : Map Bytes ConsumerInfo → List Bytes
active_names [] = []
active_names ((name, info) ∷ more) =
    let rest = active_names more in if info.active then name ∷ rest else rest

unfoldable pub get_active_consumers : Consumer → List Bytes
unfolding active_names
get_active_consumers c = active_names c.consumers
