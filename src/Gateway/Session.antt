-- ===== src/Gateway/Session.antt =====
-- components/udp-gateway/src/session.cpp: a session, whose handler is the gateway. The texts of the
-- log are left out.
pub mod Triple
pub mod Guards
pub mod Order
pub mod Counters
use udp_to_rabbitmq_gateway.Base.{
  ℕ, zero, suc, ◌+◌, Bool, true, false, ◌&&◌, not, Option, none, some, List, [], ◌∷◌, ◌++◌, Bytes,
  codes, length, take, leb, ltb, if◌then◌else◌, add64,
}
use udp_to_rabbitmq_gateway.Gateway.Types.{
  DeviceState, unknown, connected, disconnected, suspended, DeviceMessage, MessageAcknowledgment,
  DeviceCommand, ErrorCode, invalid_message, authentication_failure, device_suspended,
  duplicate_message, rate_limited, error_code_to_string, Result, ok, error,
}
use udp_to_rabbitmq_gateway.Gateway.Run.{
  Call, Services, Run, World, pure, ◌>>=◌, ◌>>◌, ask, for_each, then_run,
}
use udp_to_rabbitmq_gateway.Gateway.Handler.{
  Config, when, count, count_error, handle_message, handle_error, get_pending_commands,
}

unfoldable pub is_suspended : DeviceState → Bool
is_suspended suspended = true
is_suspended d = false

unfoldable pub is_success : ErrorCode → Bool
is_success ErrorCode.success = true
is_success e = false

-- What a receive operation ends with.
pub data Received : Type 0 where
  datagram : Bytes → Received
  operation_aborted receive_error : Received

-- `receiving` tells that a receive operation is pending.
pub record Session : Type 0 where
  pub active : Bool
  pub receiving : Bool
  pub packets_received : ℕ
  pub packets_processed : ℕ
  pub packets_rejected : ℕ
  pub bytes_received : ℕ
  pub world : World

unfoldable pub do_receive : Session → Session
do_receive n = if n.active then (record n { receiving = true }) else n

unfoldable pub start : Session → Session
unfolding do_receive
start n = do_receive (record n { active = true })

unfoldable pub stop : Session → Session
stop n = record n { active = false; receiving = false }

unfoldable pub reported_id : Bytes → Bytes
reported_id data_ = if leb 15 (length data_) then take 15 data_ else codes "unknown"

-- Whether a call ended with an exception.
unfoldable pub threw : {A : Type 0} → World × Option A → Bool
threw (w, none) = true
threw (w, some a) = false

module _ (s : Services) (c : Config) where
  -- The end of `parseAndValidate`, behind its guards.
  unfoldable pub accept : Bytes → DeviceMessage → Run (Result DeviceMessage)
  unfolding ask
  accept data_ m = do
    ask (Call.record_message m.device_id m.sequence_number m.message_id)
        (λ h. s.record_message h m.device_id m.sequence_number m.message_id)
    ask (Call.record_limit m.device_id m.priority (length data_)) (λ h. some tt)
    ask (Call.update_device_status m.device_id connected)
        (λ h. s.update_device_status h m.device_id connected)
    pure (ok m)

  unfoldable pub step_limit : Bytes → DeviceMessage → Bool → Run (Result DeviceMessage)
  unfolding accept
  step_limit data_ m true = accept data_ m
  step_limit data_ m false =
      pure (error rate_limited (codes "Device exceeded rate limit: " ++ m.device_id))

  unfoldable pub step_duplicate : Bytes → DeviceMessage → Bool → Run (Result DeviceMessage)
  unfolding step_limit ask
  step_duplicate data_ m true =
      pure (error duplicate_message (codes "Duplicate message detected: " ++ m.message_id))
  step_duplicate data_ m false =
      ask (Call.check_limit m.device_id m.priority) (λ h. s.check_limit h m.device_id m.priority)
      >>= step_limit data_ m

  unfoldable pub step_suspended : Bytes → DeviceMessage → Bool → Run (Result DeviceMessage)
  unfolding step_duplicate ask
  step_suspended data_ m true =
      pure (error device_suspended (codes "Device is suspended: " ++ m.device_id))
  step_suspended data_ m false =
      ask (Call.is_duplicate m.device_id m.sequence_number m.message_id)
        (λ h. s.is_duplicate h m.device_id m.sequence_number m.message_id)
      >>= step_duplicate data_ m

  unfoldable pub step_authenticated : Bytes → DeviceMessage → Bool → Run (Result DeviceMessage)
  unfolding step_suspended ask is_suspended
  step_authenticated data_ m false =
      pure (error authentication_failure (codes "Device is not authenticated: " ++ m.device_id))
  step_authenticated data_ m true =
      ask (Call.get_device_state m.device_id) (λ h. s.get_device_state h m.device_id) >>= λ d.
      step_suspended data_ m (is_suspended d)

  unfoldable pub step_parsed : Bytes → Result DeviceMessage → Run (Result DeviceMessage)
  unfolding step_authenticated ask
  step_parsed data_ (error code text) =
      pure (error invalid_message (codes "Failed to parse message: " ++ text))
  step_parsed data_ (ok parsed) =
      let m : DeviceMessage = record parsed { region = c.region_code } in
      ask (Call.is_authenticated m.device_id) (λ h. s.is_authenticated h m.device_id)
      >>= step_authenticated data_ m

  unfoldable pub parse_and_validate : Bytes → Run (Result DeviceMessage)
  unfolding step_parsed ask
  parse_and_validate data_ =
      ask (Call.parse_message data_) (λ h. s.parse_message h data_) >>= step_parsed data_

  unfoldable pub send_acknowledgment : DeviceMessage → ErrorCode → Run (Unit {0})
  unfolding ask count is_success error_code_to_string
  send_acknowledgment m code = do
    let success = is_success code
    let ack : MessageAcknowledgment = record {
      device_id = m.device_id;
      message_id = m.message_id;
      success = success;
      error_reason = if success then [] else error_code_to_string code;
    }
    packet ← ask (Call.create_acknowledgment ack) (λ h. s.create_acknowledgment h ack)
    ask (Call.send_to packet) (λ h. some tt)
    when c.has_collector (count s c (codes "acknowledgments_sent") 1)

  unfoldable pub deliver : List DeviceCommand → Run (Unit {0})
  unfolding ask count for_each
  deliver [] = pure tt
  deliver (d ∷ ds) = do
    let commands = d ∷ ds
    packet ← ask (Call.create_command_packet commands) (λ h. s.create_command_packet h commands)
    ask (Call.send_to packet) (λ h. some tt)
    for_each
        (λ k.
          ask (Call.mark_command_delivered k.command_id)
            (λ h. s.mark_command_delivered h k.command_id))
        commands
    when c.has_collector (count s c (codes "commands_sent") (length commands))

  unfoldable pub send_commands : Bytes → Run (Unit {0})
  unfolding deliver get_pending_commands
  send_commands device_id = get_pending_commands s c device_id >>= deliver

  unfoldable pub update_metrics : Bool → Bytes → Run (Unit {0})
  unfolding count count_error
  update_metrics true name = when c.has_collector (count s c (codes "packets_processed") 1)
  update_metrics false name =
      when c.has_collector (do
        count s c (codes "packets_rejected") 1
        when (ltb 0 (length name)) (count_error s c name))

  unfoldable pub after_handler : DeviceMessage → Result Bool → Run (Unit {0})
  unfolding send_acknowledgment send_commands
  after_handler m (ok b) = do
    when (m.requires_acknowledgment && c.enable_acknowledgments)
        (send_acknowledgment m ErrorCode.success)
    send_commands m.device_id
  after_handler m (error code text) =
      when (m.requires_acknowledgment && c.enable_acknowledgments) (send_acknowledgment m code)

  unfoldable pub after_validation : Bytes → Result DeviceMessage → Run (Unit {0})
  unfolding update_metrics handle_message after_handler reported_id handle_error
      error_code_to_string
  after_validation data_ (ok m) = do
    update_metrics true []
    result ← handle_message s c m
    after_handler m result
  after_validation data_ (error code text) = do
    update_metrics false (error_code_to_string code)
    handle_error s c (reported_id data_) code text

  unfoldable pub process_packet : Bytes → Run (Unit {0})
  unfolding parse_and_validate after_validation
  process_packet data_ = parse_and_validate data_ >>= after_validation data_

  -- An error that is reported to the collector, and whether that threw.
  unfoldable pub report : Bytes → Session → Session × Bool
  unfolding count_error
  report name n =
      let r = when c.has_collector (count_error s c name) n.world in
      (record n { world = r.0 }, threw r)

  -- `handlePacket` behind the processing of a packet, which may have thrown.
  unfoldable pub after_packet : Session → World × Option (Unit {0}) → Session × Bool
  unfolding report
  after_packet n (w, some u) =
      (record n { packets_processed = add64 n.packets_processed 1; world = w }, false)
  after_packet n (w, none) =
      report (codes "packet_processing_exception")
        (record n { packets_rejected = add64 n.packets_rejected 1; world = w })

  unfoldable pub receive : Received → Session → Session × Bool
  unfolding process_packet after_packet report
  receive (datagram []) n = (n, false)
  receive (datagram (b ∷ bs)) n =
      let data_ = b ∷ bs in
      after_packet
        (record n {
          packets_received = add64 n.packets_received 1;
          bytes_received = add64 n.bytes_received (length data_);
        })
        (process_packet data_ n.world)
  receive operation_aborted n = (n, false)
  receive receive_error n = report (codes "socket_error") n

  -- An exception that leaves `handlePacket` leaves no receive operation pending.
  unfoldable pub handle_packet : Received → Session → Session
  unfolding receive do_receive
  handle_packet r n =
      let ended = record n { receiving = false } in
      let (m, escaped) = receive r ended in
      if n.active then (if escaped then m else do_receive m) else ended
