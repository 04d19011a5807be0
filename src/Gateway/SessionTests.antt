-- ===== src/Gateway/SessionTests.antt =====
-- The session's theorems at concrete inputs, with components that answer by the calls so far.
use udp_to_rabbitmq_gateway.Base.{
  ℕ, refl, Bool, true, false, ◌&&◌, ◌||◌, some, List, [], ◌∷◌, Bytes, bytes_eq, nat_eq, codes, ◌==◌,
  add64, if◌then◌else◌,
}
use udp_to_rabbitmq_gateway.Gateway.Types.{connected, DeviceMessage, ok, error, invalid_message}
use udp_to_rabbitmq_gateway.Gateway.Limiter.{normal}
use udp_to_rabbitmq_gateway.Gateway.Run.{Call, Services, World}
use udp_to_rabbitmq_gateway.Gateway.Handler.{Config}
use udp_to_rabbitmq_gateway.Gateway.Session.{process_packet, datagram, Session, handle_packet}
use udp_to_rabbitmq_gateway.Gateway.Session.Guards.{IsGuarded}
use udp_to_rabbitmq_gateway.Gateway.Session.Order.{process_packet-IsGuarded}
use udp_to_rabbitmq_gateway.Gateway.Session.Counters.{IsValid, IsHandled, handle_packet-IsHandled}

is_record : Bytes → ℕ → Bytes → Call → Bool
is_record id n mid (Call.record_message i k j) = i == id && k == n && j == mid
is_record id n mid d = false

-- Whether a message stands among the calls.
was_recorded : Bytes → ℕ → Bytes → List Call → Bool
unfolding is_record
was_recorded id n mid [] = false
was_recorded id n mid (d ∷ h) = is_record id n mid d || was_recorded id n mid h

abbrev message : DeviceMessage
message = record {
  device_id = codes "123456789012345";
  region = [];
  payload = 1 ∷ 2 ∷ [];
  sequence_number = 7;
  message_id = codes "m7";
  priority = normal;
  timestamp = 0;
  requires_acknowledgment = true;
}

-- A parser that knows one datagram, and a service that finds what was recorded.
services : Services
services = record {
  parse_message = λ h d.
      if d == (9 ∷ []) then some (ok message) else some (error invalid_message (codes "bad"));
  create_acknowledgment = λ h a. some [];
  create_command_packet = λ h ds. some [];
  is_duplicate = λ h id n mid. some (was_recorded id n mid h);
  record_message = λ h id n mid. some tt;
  check_limit = λ h id p. some true;
  publish_message = λ h q p. some true;
  increment_counter = λ h name n. some tt;
  record_error = λ h name. some tt;
  is_authenticated = λ h id. some true;
  get_device_state = λ h id. some connected;
  update_device_status = λ h id d. some tt;
  get_pending_commands = λ h id. some [];
  mark_command_delivered = λ h id. some tt;
}

abbrev config : Config
config = record {
  queue_prefix = [];
  region_code = codes "eu";
  enable_debugging = true;
  enable_acknowledgments = true;
  has_collector = true;
}

abbrev first_call : World
first_call = record {
  calls = [];
  metrics = record {
    total_packets_processed = 0;
    total_packets_rejected = 0;
    packets_per_region = [];
    errors_per_type = [];
  };
}

process_packet-IsGuarded_example :
    IsGuarded services config (process_packet services config (9 ∷ []) first_call).0.calls
unfolding IsGuarded
process_packet-IsGuarded_example = process_packet-IsGuarded services config (9 ∷ []) first_call tt

abbrev session : Session
session = record {
  active = true;
  receiving = false;
  packets_received = 0;
  packets_processed = 0;
  packets_rejected = 0;
  bytes_received = 0;
  world = first_call;
}

session-IsValid : IsValid services config session
unfolding IsGuarded add64
session-IsValid = record { counted = refl; guarded = tt }

handle_packet-IsHandled_example :
    IsHandled services config
      (datagram (9 ∷ []))
      session
      (handle_packet services config (datagram (9 ∷ [])) session)
handle_packet-IsHandled_example =
    handle_packet-IsHandled services config (datagram (9 ∷ [])) session session-IsValid refl
