-- ===== src/Rabbit/Publisher/Control.antt =====
-- components/rabbitmq_integration/src/publisher.cpp: batches, transactions, the state of the connection, the
-- tasks of the thread, and the publishers that the factory makes.
use udp_to_rabbitmq_gateway.Base.{
  ℕ, Bool, true, false, Option, none, some, List, [], ◌∷◌, ◌++◌, nat_beq, if◌then◌else◌, ◌>>=◌,
  add64, Bytes,
}
use udp_to_rabbitmq_gateway.Rabbit.Message.{Message}
use udp_to_rabbitmq_gateway.Rabbit.Connection.{ConnectionState, is_connected, open_connection}
use udp_to_rabbitmq_gateway.Rabbit.Publisher.{
  PublisherConfig, Item, connection_changed, returned, Publisher, no_stats, init, publish,
  process_local_queue,
}

unfoldable pub begin_transaction : Publisher → Publisher × Bool
begin_transaction p =
    if p.connected then (record p { transaction_active = true }, true) else (p, false)

unfoldable pub commit_transaction : Publisher → Publisher × Bool
commit_transaction p =
    if p.transaction_active
    then (
      record p {
        transaction_active = false;
        stats = record p.stats { transaction_count = add64 p.stats.transaction_count 1 };
      },
      true,
    )
    else (p, false)

unfoldable pub rollback_transaction : Publisher → Publisher × Bool
rollback_transaction p =
    if p.transaction_active
    then (
      record p {
        transaction_active = false;
        stats = record p.stats { transaction_rollbacks = add64 p.stats.transaction_rollbacks 1 };
      },
      true,
    )
    else (p, false)

-- The loop of `publishBatch`, up to the first message that fails.
unfoldable pub publish_all : ℕ → ℕ → List Item → Publisher → Publisher × Bool
unfolding publish
publish_all duration now [] p = (p, true)
publish_all duration now (item ∷ items) p =
    let (tried, success) = publish duration now item p in
    let later = publish_all duration now items tried in if success then later else (tried, false)

unfoldable pub begin_batch : Publisher → Publisher
unfolding begin_transaction
begin_batch p = if p.config.use_transactions then (begin_transaction p).0 else p

unfoldable pub end_batch : Publisher × Bool → Publisher × Bool
unfolding commit_transaction rollback_transaction
end_batch (p, success) = (
  if p.config.use_transactions
      then (if success then (commit_transaction p).0 else (rollback_transaction p).0)
      else p,
  success,
)

unfoldable pub publish_batch : ℕ → ℕ → List Item → Publisher → Publisher × Bool
unfolding publish_all begin_batch end_batch
publish_batch duration now items p =
    if p.publishing_paused
    then (p, false)
    else end_batch (publish_all duration now items (begin_batch p))

-- The batch with one exchange and one routing key.
unfoldable pub address_all : Bytes → Bytes → List Message → List Item
address_all exchange key [] = []
address_all exchange key (m ∷ ms) = (exchange, key, m) ∷ address_all exchange key ms

unfoldable pub publish_messages :
    ℕ → ℕ → Bytes → Bytes → List Message → Publisher → Publisher × Bool
unfolding address_all publish_batch
publish_messages duration now exchange key ms p =
    publish_batch duration now (address_all exchange key ms) p

unfoldable pub reset_stats : Publisher → Publisher
unfolding no_stats
reset_stats p = record p { stats = no_stats }

unfoldable pub update_config : PublisherConfig → Publisher → Publisher
update_config config p = record p { config = config }

unfoldable pub enable_local_queue : Bool → Publisher → Publisher
enable_local_queue enable p = record p { local_queue_enabled = enable }

unfoldable pub clear_local_queue : Publisher → Publisher
clear_local_queue p = record p { local_queue = []; local_queue_size = 0 }

unfoldable pub pause_publishing : Publisher → Publisher
pause_publishing p = record p { publishing_paused = true }

unfoldable pub resume_publishing : Publisher → Option Publisher
unfolding process_local_queue
resume_publishing p = process_local_queue (record p { publishing_paused = false })

-- `created` tells whether `createChannel` gives a channel: its code is commented out.
unfoldable pub initialize_channel : Bool → Publisher → Publisher × Bool
initialize_channel created p =
    if created
    then (
      record p {
        channel = true;
        confirms_enabled = if p.config.confirm_enabled then true else p.confirms_enabled;
      },
      true,
    )
    else (record p { channel = false }, false)

unfoldable pub has_open_connection : Option ConnectionState → Bool
unfolding is_connected
has_open_connection none = false
has_open_connection (some state) = is_connected state

-- Opening a new connection always answers true.
unfoldable pub initialize_connection : Bool → Publisher → Publisher × Bool
unfolding has_open_connection open_connection initialize_channel
initialize_connection created p =
    if has_open_connection p.connection
    then (p, true)
    else initialize_channel created (record p {
      connection = some (open_connection ConnectionState.disconnected).0;
      connected = true;
    })

unfoldable pub teardown_channel : Publisher → Publisher
teardown_channel p = record p { confirms_enabled = false; channel = false }

unfoldable pub teardown_connection : Publisher → Publisher
unfolding teardown_channel
teardown_connection p =
    let closed = teardown_channel (record p { connected = false }) in
    record closed { connection = none }

unfoldable pub on_connection_state_changed : ConnectionState → Publisher → Option Publisher
unfolding is_connected process_local_queue
on_connection_state_changed state p = do
  let now_connected = is_connected state
  let changed = record p { connected = now_connected }
  processed ← (if now_connected then process_local_queue changed else some changed)
  some (record processed { calls = processed.calls ++ connection_changed processed.connected ∷ [] })

unfoldable pub remove_tag : ℕ → List ℕ → List ℕ
remove_tag tag [] = []
remove_tag tag (t ∷ tags) =
    let rest = remove_tag tag tags in if nat_beq t tag then tags else t ∷ rest

unfoldable pub has_tag : ℕ → List ℕ → Bool
has_tag tag [] = false
has_tag tag (t ∷ tags) = let rest = has_tag tag tags in if nat_beq t tag then true else rest

unfoldable pub on_publish_confirm : ℕ → Bool → Publisher → Publisher
unfolding has_tag remove_tag
on_publish_confirm tag ack p =
    if has_tag tag p.pending_confirms
    then record p {
      pending_confirms = remove_tag tag p.pending_confirms;
      stats =
          if ack
          then record p.stats { messages_confirmed = add64 p.stats.messages_confirmed 1 }
          else record p.stats { messages_nacked = add64 p.stats.messages_nacked 1 };
    }
    else p

unfoldable pub on_publish_return : Message → Publisher → Publisher
on_publish_return m p = record p {
  stats = record p.stats { messages_returned = add64 p.stats.messages_returned 1 };
  calls = p.calls ++ returned m ∷ [];
}

-- The task is queued, and the thread is started where it does not run.
unfoldable pub publish_async : Item → Publisher → Publisher
publish_async item p = record p { async_tasks = p.async_tasks ++ item ∷ []; async_running = true }

unfoldable pub stop_async_publishing : Publisher → Publisher
stop_async_publishing p = record p { async_running = false }

-- The thread takes the oldest task.
unfoldable pub run_next : ℕ → ℕ → List Item → Publisher → Publisher
unfolding publish
run_next duration now [] p = p
run_next duration now (item ∷ items) p =
    if p.async_running then (publish duration now item (record p { async_tasks = items })).0 else p

unfoldable pub run_task : ℕ → ℕ → Publisher → Publisher
unfolding run_next
run_task duration now p = run_next duration now p.async_tasks p

unfoldable pub cleanup : Publisher → Publisher
unfolding stop_async_publishing teardown_connection clear_local_queue
cleanup p = clear_local_queue (teardown_connection (stop_async_publishing p))

-- The configurations that the factory makes from the defaults.
unfoldable pub default_config : PublisherConfig
default_config = record {
  confirm_enabled = true;
  persistent_messages = true;
  use_transactions = false;
  local_queue_size = 10000;
  batch_size = 100;
}

unfoldable pub create_debug_publisher : PublisherConfig → Publisher
unfolding init
create_debug_publisher config = init (record config { persistent_messages = false })

unfoldable pub create_high_throughput_publisher : Publisher
unfolding init default_config
create_high_throughput_publisher =
    init (record default_config {
      confirm_enabled = false;
      batch_size = 1000;
      local_queue_size = 50000;
    })

unfoldable pub create_reliable_publisher : Publisher
unfolding init default_config
create_reliable_publisher = init (record default_config {
  confirm_enabled = true;
  use_transactions = true;
  persistent_messages = true;
})

unfoldable pub create_low_latency_publisher : Publisher
unfolding init default_config
create_low_latency_publisher =
    init (record default_config { confirm_enabled = false; batch_size = 1; local_queue_size = 100 })
