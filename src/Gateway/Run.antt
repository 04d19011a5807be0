-- ===== src/Gateway/Run.antt =====
-- What the sessions and the gateway share: the state that a packet changes and the components
-- they call. The mock interfaces at the top of session.cpp and gateway.cpp have no implementation
-- in the repository, so that each call's answer is a parameter, a function of all calls so far;
-- an answer of `none` is an exception.
use udp_to_rabbitmq_gateway.Base.{ℕ, Bool, Option, none, some, List, [], ◌∷◌, Bytes}
use udp_to_rabbitmq_gateway.Gateway.Limiter.{Priority}
use udp_to_rabbitmq_gateway.Gateway.Types.{
  DeviceState, GatewayMetrics, DeviceMessage, MessageAcknowledgment, DeviceCommand, Result,
}

-- A call of another component, or a datagram given to the socket.
pub data Call : Type 0 where
  parse_message : Bytes → Call
  create_acknowledgment : MessageAcknowledgment → Call
  create_command_packet : List DeviceCommand → Call
  is_duplicate record_message : Bytes → ℕ → Bytes → Call
  check_limit : Bytes → Priority → Call
  record_limit : Bytes → Priority → ℕ → Call
  publish_message : Bytes → Bytes → Call
  is_authenticated get_device_state get_pending_commands mark_command_delivered : Bytes → Call
  update_device_status : Bytes → DeviceState → Call
  increment_counter : Bytes → ℕ → Call
  record_error : Bytes → Call
  send_to : Bytes → Call

-- The latest call first.
pub record World : Type 0 where
  pub calls : List Call
  pub metrics : GatewayMetrics

pub record Services : Type 0 where
  pub parse_message : List Call → Bytes → Option (Result DeviceMessage)
  pub create_acknowledgment : List Call → MessageAcknowledgment → Option Bytes
  pub create_command_packet : List Call → List DeviceCommand → Option Bytes
  pub is_duplicate : List Call → Bytes → ℕ → Bytes → Option Bool
  pub record_message : List Call → Bytes → ℕ → Bytes → Option (Unit {0})
  pub check_limit : List Call → Bytes → Priority → Option Bool
  pub publish_message : List Call → Bytes → Bytes → Option Bool
  pub increment_counter : List Call → Bytes → ℕ → Option (Unit {0})
  pub record_error : List Call → Bytes → Option (Unit {0})
  pub is_authenticated : List Call → Bytes → Option Bool
  pub get_device_state : List Call → Bytes → Option DeviceState
  pub update_device_status : List Call → Bytes → DeviceState → Option (Unit {0})
  pub get_pending_commands : List Call → Bytes → Option (List DeviceCommand)
  pub mark_command_delivered : List Call → Bytes → Option (Unit {0})

-- A computation that leaves a state, and a value or an exception.
abbrev pub Run : Type 0 → Type 0
Run A = World → World × Option A

abbrev pub pure : {A : Type 0} → A → Run A
pure a w = (w, some a)

abbrev pub then_run : {A B : Type 0} → World × Option A → (A → Run B) → World × Option B
then_run (w, none) k = (w, none)
then_run (w, some a) k = k a w

infixl 5 ◌>>=◌ ◌>>◌
abbrev pub ◌>>=◌ : {A B : Type 0} → Run A → (A → Run B) → Run B
(r >>= k) w = then_run (r w) k

abbrev pub ◌>>◌ : {B : Type 0} → Run (Unit {0}) → Run B → Run B
r >> s = r >>= λ u. s

-- A call, and its answer given the calls before it.
unfoldable pub ask : {A : Type 0} → Call → (List Call → Option A) → Run A
ask c answer w = (record w { calls = c ∷ w.calls }, answer w.calls)

-- A change of the metrics, under `metricsMutex_`.
unfoldable pub update : (GatewayMetrics → GatewayMetrics) → Run (Unit {0})
update f w = (record w { metrics = f w.metrics }, some tt)

-- `try { r } catch (const std::exception&) { handler }`
abbrev pub catch_result : {A : Type 0} → Run A → World × Option A → World × Option A
catch_result handler (w, none) = handler w
catch_result handler (w, some a) = (w, some a)

unfoldable pub try_catch : {A : Type 0} → Run A → Run A → Run A
try_catch r handler w = catch_result handler (r w)

-- For each element in turn.
unfoldable pub for_each : {A : Type 0} → (A → Run (Unit {0})) → List A → Run (Unit {0})
for_each f [] = pure tt
for_each f (x ∷ xs) = do f x; for_each f xs
