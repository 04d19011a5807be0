-- ===== src/Rabbit/Publisher.antt =====
-- components/rabbitmq_integration/src/publisher.cpp. The source sends nothing to a broker: where it
-- is connected, `publishInternal` only answers true ("Simulate successful publish"), and the message
-- is kept nowhere. `simulated` is a ghost: it lists the messages that this branch was run for and
-- no operation reads it. The threads of a publisher take turns, an operation at a time; callbacks
-- are kept as the calls that are made.
pub mod Control
pub mod Drain
pub mod Fate
pub mod Batches
pub mod Valid
pub mod Steps
pub mod Reconnect
use udp_to_rabbitmq_gateway.Base.{
  ℕ, zero, suc, ◌+◌, ◌-◌, ◌/◌, ◌%◌, ◌^◌, Bool, true, false, not, ◌&&◌, Option, none, some, List, [],
  ◌∷◌, ◌++◌, Bytes, codes, length, leb, ltb, nat_beq, if◌then◌else◌, ◌>>=◌, add64,
}
use udp_to_rabbitmq_gateway.Dedup.MessageId.{to_string}
use udp_to_rabbitmq_gateway.Rabbit.Message.{Message, is_empty, is_valid, set_header}
use udp_to_rabbitmq_gateway.Rabbit.Connection.{ConnectionState}

pub record PublisherConfig : Type 0 where
  pub confirm_enabled : Bool
  pub persistent_messages : Bool
  pub use_transactions : Bool
  pub local_queue_size : ℕ
  pub batch_size : ℕ

-- Times are in milliseconds.
pub record PublisherStats : Type 0 where
  pub messages_published : ℕ
  pub messages_failed : ℕ
  pub messages_confirmed : ℕ
  pub messages_nacked : ℕ
  pub messages_returned : ℕ
  pub bytes_published : ℕ
  pub transaction_count : ℕ
  pub transaction_rollbacks : ℕ
  pub local_queue_size : ℕ
  pub local_queue_max_size : ℕ
  pub max_publish_time : ℕ
  pub avg_publish_time : ℕ
  pub last_publish : ℕ

-- The exchange, the routing key and the message.
abbrev pub Item : Type 0
Item = Bytes × Bytes × Message

-- A call of the error callback, of the connection callback, of the callback for returned messages.
pub data Call : Type 0 where
  publish_error : Bytes → Bytes → Call
  connection_changed : Bool → Call
  returned : Message → Call

pub record Publisher : Type 0 where
  pub config : PublisherConfig
  pub connection : Option ConnectionState
  pub channel : Bool
  pub connected : Bool
  pub confirms_enabled : Bool
  pub transaction_active : Bool
  pub publishing_paused : Bool
  pub local_queue : List Item
  pub local_queue_size : ℕ
  pub local_queue_enabled : Bool
  pub async_tasks : List Item
  pub async_running : Bool
  pub pending_confirms : List ℕ
  pub stats : PublisherStats
  -- The ghost.
  pub simulated : List Item
  pub calls : List Call

unfoldable pub no_stats : PublisherStats
no_stats = record {
  messages_published = 0;
  messages_failed = 0;
  messages_confirmed = 0;
  messages_nacked = 0;
  messages_returned = 0;
  bytes_published = 0;
  transaction_count = 0;
  transaction_rollbacks = 0;
  local_queue_size = 0;
  local_queue_max_size = 0;
  max_publish_time = 0;
  avg_publish_time = 0;
  last_publish = 0;
}

unfoldable pub init : PublisherConfig → Publisher
unfolding no_stats
init config = record {
  config = config;
  connection = none;
  channel = false;
  connected = false;
  confirms_enabled = false;
  transaction_active = false;
  publishing_paused = false;
  local_queue = [];
  local_queue_size = 0;
  local_queue_enabled = true;
  async_tasks = [];
  async_running = false;
  pending_confirms = [];
  stats = no_stats;
  simulated = [];
  calls = [];
}

unfoldable pub validate_message : Message → Bool
unfolding is_empty is_valid
validate_message m = not (is_empty m) && is_valid m

unfoldable pub publish_to_local : Item → Publisher → Publisher × Bool
publish_to_local item p =
    if leb p.config.local_queue_size (length p.local_queue) then (p, false) else (
      record p {
        local_queue = p.local_queue ++ item ∷ [];
        local_queue_size = add64 p.local_queue_size 1;
      },
      true,
    )

unfoldable pub publish_internal : Item → Publisher → Publisher × Bool
unfolding publish_to_local
publish_internal item p =
    if p.connected
    then (record p { simulated = p.simulated ++ item ∷ [] }, true)
    else if p.local_queue_enabled
    then publish_to_local item p
    else (p, false)

unfoldable pub count_publish : Bool → ℕ → ℕ → PublisherStats → PublisherStats
count_publish success size now s =
    if success
    then record s {
      messages_published = add64 s.messages_published 1;
      bytes_published = add64 s.bytes_published size;
      last_publish = now;
    }
    else record s { messages_failed = add64 s.messages_failed 1 }

unfoldable pub update_stats : Bool → ℕ → ℕ → ℕ → Publisher → Publisher
unfolding count_publish
update_stats success size duration now p =
    let s = count_publish success size now p.stats in
    record p {
      stats = record s {
        max_publish_time = if ltb s.max_publish_time duration then duration else s.max_publish_time;
        avg_publish_time =
            if nat_beq s.avg_publish_time 0 then duration else (s.avg_publish_time + duration) / 2;
        local_queue_size = p.local_queue_size;
        local_queue_max_size = p.config.local_queue_size;
      };
    }

unfoldable pub handle_publish_error : Item → Publisher → Publisher
handle_publish_error (exchange, key, m) p = record p {
  calls = p.calls ++ publish_error exchange key ∷ [];
}

-- The end of `publish`: what was tried, and how long it took.
unfoldable pub finish_publish : ℕ → ℕ → Item → Publisher × Bool → Publisher × Bool
unfolding update_stats handle_publish_error
finish_publish duration now item (p, success) =
    let counted = update_stats success (length item.2.data_) duration now p in
    (if success then counted else handle_publish_error item counted, success)

unfoldable pub publish : ℕ → ℕ → Item → Publisher → Publisher × Bool
unfolding validate_message publish_internal finish_publish
publish duration now item p =
    if p.publishing_paused
    then (p, false)
    else if validate_message item.2
    then finish_publish duration now item (publish_internal item p)
    else (p, false)

-- The names of the queues of a device.
unfoldable pub generate_queue_name : Bytes → Bytes → Bytes → Bytes
generate_queue_name region imei queue_type = region ++ b'.' ∷ (imei ++ b'_' ∷ queue_type)

unfoldable pub publish_to_device :
    Bytes → ℕ → ℕ → Bytes → Bytes → Message → Publisher → Publisher × Bool
unfolding publish generate_queue_name
publish_to_device queue_type duration now region imei m p =
    publish duration now ([], generate_queue_name region imei queue_type, m) p

unfoldable pub publish_to_discard :
    ℕ → ℕ → Bytes → Bytes → Message → Bytes → Publisher → Publisher × Bool
unfolding publish_to_device set_header to_string
publish_to_discard duration now region imei m reason p =
    let marked = set_header (codes "discard_reason") reason m in
    publish_to_device (codes "discard") duration now region imei
      (set_header (codes "original_timestamp") (to_string now) marked) p

-- The loop of `processLocalQueue`, on fuel: `none` where it has not ended.
unfoldable pub drain : ℕ → List Item → Publisher → Option Publisher
unfolding publish_internal
drain fuel [] p = some p
drain zero (item ∷ rest) p = none
drain (suc fuel) (item ∷ rest) p =
    let popped = record p {
      local_queue = rest;
      local_queue_size = add64 p.local_queue_size (2 ^ 64 - 1);
    } in
    let (tried, success) = publish_internal item popped in
    let later = drain fuel tried.local_queue tried in
    if success
    then later
    else some (record tried {
      local_queue = tried.local_queue ++ item ∷ [];
      local_queue_size = add64 tried.local_queue_size 1;
    })

unfoldable pub process_local_queue : Publisher → Option Publisher
unfolding drain
process_local_queue p =
    if p.connected && p.local_queue_enabled
    then drain (length p.local_queue) p.local_queue p
    else some p
