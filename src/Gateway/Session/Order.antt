-- ===== src/Gateway/Session/Order.antt =====
-- The order of the calls in the rest of a packet's processing.
use udp_to_rabbitmq_gateway.Base.{
  ℕ, Bool, true, false, ◌&&◌, Option, none, some, List, [], ◌∷◌, ◌++◌, Bytes, codes, length, ltb,
  if◌then◌else◌, ◌≡◌, refl, ◌⊎◌, inl, inr, ap, add64,
}
use udp_to_rabbitmq_gateway.Gateway.Types.{
  QueueType, inbound, debug, discard, DeviceMessage, MessageAcknowledgment, DeviceCommand,
  ErrorCode, internal_error, error_code_to_string, Result, ok, error,
}
use udp_to_rabbitmq_gateway.Gateway.Run.{Call, Services, World, pure, ◌>>=◌, ask}
use udp_to_rabbitmq_gateway.Gateway.Handler.{
  Config, when, create_queue_name, publish, count, count_error, count_published, after_publish,
  handle_message, handle_error, get_pending_commands, is_discarded, increment,
}
use udp_to_rabbitmq_gateway.Gateway.Session.{
  send_acknowledgment, deliver, send_commands, update_metrics, after_handler, after_validation,
  process_packet, is_success, reported_id,
}
use udp_to_rabbitmq_gateway.Gateway.Session.Triple.{
  Ends, Triple, pure-Triple, ask-Triple, bind-Triple, update-Triple, when-Triple, before-Triple,
  try_catch-Triple, for_each-Triple,
}
use udp_to_rabbitmq_gateway.Gateway.Session.Guards.{
  earlier, Allowed, IsGuarded, G, Recorded, parse_and_validate-Triple,
}

module _ (s : Services) (c : Config) where
  -- A call that is allowed anywhere.
  free-Triple :
      {A : Type 0} (d : Call) (answer : List Call → Option A)
      → ((h : List Call) → Allowed s c d h)
      → Triple (G s c) (G s c) (ask d answer) (λ a. G s c)
  unfolding G IsGuarded
  free-Triple d answer f = ask-Triple d answer (λ h p. (f h, p)) (λ h a p e. (f h, p))

  count-Triple : (name : Bytes) (n : ℕ) → Triple (G s c) (G s c) (count s c name n) (λ u. G s c)
  unfolding count Allowed
  count-Triple name n =
      free-Triple (Call.increment_counter name n) (λ h. s.increment_counter h name n) (λ h. tt)

  count_error-Triple : (name : Bytes) → Triple (G s c) (G s c) (count_error s c name) (λ u. G s c)
  unfolding count_error Allowed
  count_error-Triple name =
      free-Triple (Call.record_error name) (λ h. s.record_error h name) (λ h. tt)

  send_acknowledgment-Triple :
      (m : DeviceMessage) (e : ErrorCode)
      → Triple (G s c) (G s c) (send_acknowledgment s c m e) (λ u. G s c)
  unfolding send_acknowledgment Allowed
  send_acknowledgment-Triple m e =
      let ack : MessageAcknowledgment = record {
        device_id = m.device_id;
        message_id = m.message_id;
        success = is_success e;
        error_reason = if is_success e then [] else error_code_to_string e;
      } in
      bind-Triple
        (free-Triple (Call.create_acknowledgment ack) (λ h. s.create_acknowledgment h ack)
          (λ h. tt))
        (λ packet.
          bind-Triple (free-Triple (Call.send_to packet) (λ h. some tt) (λ h. tt))
            (λ u. when-Triple c.has_collector (count-Triple (codes "acknowledgments_sent") 1)))

  deliver-Triple : (ds : List DeviceCommand) → Triple (G s c) (G s c) (deliver s c ds) (λ u. G s c)
  unfolding deliver Allowed
  deliver-Triple [] = pure-Triple {a = tt} (λ h p. p)
  deliver-Triple (d ∷ ds) =
      let commands = d ∷ ds in
      bind-Triple
        (free-Triple (Call.create_command_packet commands) (λ h. s.create_command_packet h commands)
          (λ h. tt))
        (λ packet. bind-Triple (free-Triple (Call.send_to packet) (λ h. some tt) (λ h. tt)) (λ u.
          bind-Triple
            (for_each-Triple
              (λ k.
                ask (Call.mark_command_delivered k.command_id)
                  (λ h. s.mark_command_delivered h k.command_id))
              commands
              (λ k.
                free-Triple (Call.mark_command_delivered k.command_id)
                  (λ h. s.mark_command_delivered h k.command_id) (λ h. tt)))
            (λ u.
              when-Triple c.has_collector
                (count-Triple (codes "commands_sent") (length commands)))))

  send_commands-Triple : (id : Bytes) → Triple (G s c) (G s c) (send_commands s c id) (λ u. G s c)
  unfolding send_commands get_pending_commands Allowed
  send_commands-Triple id =
      bind-Triple
        (try_catch-Triple
          (free-Triple (Call.get_pending_commands id) (λ h. s.get_pending_commands h id) (λ h. tt))
          (pure-Triple {a = []} (λ h p. p)))
        deliver-Triple

  -- A message that was recorded may be published to two queues of its device.
  publish-Triple :
      (m : DeviceMessage) (t : QueueType)
      → (t ≡ inbound) ⊎ (t ≡ debug)
      → Triple
          (G s c)
          (Recorded s c (ok m))
          (publish s c (create_queue_name c m.device_id t) m.payload)
          (λ b. Recorded s c (ok m))
  unfolding publish Recorded G IsGuarded Allowed
  publish-Triple m t h =
      let queue = create_queue_name c m.device_id t in
      let q : (queue ≡ create_queue_name c m.device_id inbound)
          ⊎ (queue ≡ create_queue_name c m.device_id debug) =
        elim h [
          | inl e ↦ inl (ap (create_queue_name c m.device_id) e)
          | inr e ↦ inr (ap (create_queue_name c m.device_id) e)
        ] in
      ask-Triple (Call.publish_message queue m.payload) (λ h. s.publish_message h queue m.payload)
        (λ h p. (inl (m, p.1, refl, q), p.0))
        (λ h a p e. ((inl (m, p.1, refl, q), p.0), earlier _ h p.1))

  count_published-Triple :
      (m : DeviceMessage) → Triple (G s c) (G s c) (count_published s c m) (λ u. G s c)
  unfolding count_published
  count_published-Triple m = bind-Triple (count-Triple (codes "messages_published") 1) (λ u.
      update-Triple (λ g. record g {
        total_packets_processed = add64 g.total_packets_processed 1;
        packets_per_region = increment m.region g.packets_per_region;
      }))

  after_publish-Triple :
      (m : DeviceMessage) (queue : Bytes) (b : Bool)
      → Triple (G s c) (Recorded s c (ok m)) (after_publish s c m queue b) (λ r. G s c)
  unfolding after_publish Recorded
  after_publish-Triple m queue false = record { run = λ w p. p.0 }
  after_publish-Triple m queue true =
      let r = publish s c (create_queue_name c m.device_id debug) m.payload in
      bind-Triple {Q = λ u. Recorded s c (ok m)}
        (when-Triple {r = r >>= λ b. pure tt} c.enable_debugging
          (bind-Triple (publish-Triple m debug (inr refl)) (λ b. pure-Triple {a = tt} (λ h p. p))))
        (λ u.
          bind-Triple {Q = λ u. G s c}
            (before-Triple {r = when c.has_collector (count_published s c m)} (λ h p. p.0)
              (when-Triple c.has_collector (count_published-Triple m)))
            (λ u. pure-Triple {a = ok true} (λ h p. p)))

  handle_message-Triple :
      (m : DeviceMessage) → Triple (G s c) (Recorded s c (ok m)) (handle_message s c m) (λ r. G s c)
  unfolding handle_message
  handle_message-Triple m =
      try_catch-Triple
        (bind-Triple (publish-Triple m inbound (inl refl))
          (after_publish-Triple m (create_queue_name c m.device_id inbound)))
        (pure-Triple {a = error internal_error (codes "Error handling message: ")} (λ h p. p))

  handle_error-Triple :
      (id : Bytes) (e : ErrorCode) (text : Bytes)
      → Triple (G s c) (G s c) (handle_error s c id e text) (λ u. G s c)
  unfolding handle_error publish Allowed
  handle_error-Triple id e text =
      let name = error_code_to_string e in
      let queue = create_queue_name c id discard in
      let payload = codes "Error: " ++ name ++ codes " - " ++ text in
      try_catch-Triple
        (bind-Triple
          (when-Triple (is_discarded e) (
            bind-Triple
              (free-Triple (Call.publish_message queue payload)
                (λ h. s.publish_message h queue payload) (λ h. inr (id, refl)))
              (λ b. pure-Triple {a = tt} (λ h p. p))))
          (λ u. when-Triple c.has_collector (
            bind-Triple (count_error-Triple name) (λ u. update-Triple (λ g. record g {
              total_packets_rejected = add64 g.total_packets_rejected 1;
              errors_per_type = increment name g.errors_per_type;
            })))))
        (pure-Triple {a = tt} (λ h p. p))

  after_handler-Triple :
      (m : DeviceMessage) (r : Result Bool)
      → Triple (G s c) (G s c) (after_handler s c m r) (λ u. G s c)
  unfolding after_handler
  after_handler-Triple m (ok b) =
      bind-Triple
        (when-Triple (m.requires_acknowledgment && c.enable_acknowledgments)
          (send_acknowledgment-Triple m ErrorCode.success))
        (λ u. send_commands-Triple m.device_id)
  after_handler-Triple m (error e t) =
      when-Triple (m.requires_acknowledgment && c.enable_acknowledgments)
        (send_acknowledgment-Triple m e)

  count-Recorded :
      (m : DeviceMessage) (name : Bytes) (n : ℕ)
      → Triple (G s c) (Recorded s c (ok m)) (count s c name n) (λ u. Recorded s c (ok m))
  unfolding count Recorded G IsGuarded Allowed
  count-Recorded m name n =
      ask-Triple (Call.increment_counter name n) (λ h. s.increment_counter h name n)
        (λ h p. (tt, p.0)) (λ h a p e. ((tt, p.0), earlier _ h p.1))

  after_validation-Triple :
      (data_ : Bytes) (r : Result DeviceMessage)
      → Triple (G s c) (Recorded s c r) (after_validation s c data_ r) (λ u. G s c)
  unfolding after_validation update_metrics Recorded
  after_validation-Triple data_ (ok m) =
      bind-Triple (when-Triple c.has_collector (count-Recorded m (codes "packets_processed") 1))
        (λ u. bind-Triple (handle_message-Triple m) (after_handler-Triple m))
  after_validation-Triple data_ (error e t) =
      bind-Triple
        (when-Triple c.has_collector (
          bind-Triple (count-Triple (codes "packets_rejected") 1) (λ u.
            when-Triple (ltb 0 (length (error_code_to_string e)))
              (count_error-Triple (error_code_to_string e)))))
        (λ u. handle_error-Triple (reported_id data_) e t)

  process_packet-Triple :
      (data_ : Bytes) → Triple (G s c) (G s c) (process_packet s c data_) (λ u. G s c)
  unfolding process_packet
  process_packet-Triple data_ =
      bind-Triple (parse_and_validate-Triple s c data_) (after_validation-Triple data_)

  Ends-IsGuarded :
      {A : Type 0} (w : World × Option A) → Ends (G s c) (λ a. G s c) w → IsGuarded s c w.0.calls
  unfolding G
  Ends-IsGuarded (w, none) e = e
  Ends-IsGuarded (w, some a) e = e

  -- Whatever the other components answer or throw, a packet keeps the calls guarded: a message is
  -- recorded only after five calls in a row: the parser gave the message, its device was found
  -- authenticated and not suspended, the message new and the rate within its limit; and a payload
  -- is published only if it is the payload that the parser gave for a message that was recorded
  -- so before, to the inbound or debug queue of its device, or to a discard queue.
  pub process_packet-IsGuarded :
      (data_ : Bytes) (w : World)
      → IsGuarded s c w.calls
      → IsGuarded s c (process_packet s c data_ w).0.calls
  unfolding G
  process_packet-IsGuarded data_ w g =
      Ends-IsGuarded (process_packet s c data_ w) ((process_packet-Triple data_).run w g)
