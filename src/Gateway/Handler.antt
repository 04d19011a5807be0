-- ===== src/Gateway/Handler.antt =====
-- components/udp-gateway/src/gateway.cpp: the gateway as the handler of its sessions.
use udp_to_rabbitmq_gateway.Base.{
  ℕ, Bool, true, false, none, some, List, [], ◌∷◌, ◌++◌, Bytes, bytes_eq, codes, add64,
}
use udp_to_rabbitmq_gateway.Base.Maps.{Map, lookup, insert}
use udp_to_rabbitmq_gateway.Gateway.Types.{
  QueueType, inbound, debug, discard, outbound, DeviceMessage, DeviceCommand, ErrorCode,
  invalid_message, authentication_failure, internal_error, dependency_failure, error_code_to_string,
  Result, ok, error,
}
use udp_to_rabbitmq_gateway.Gateway.Run.{
  Call, Services, Run, pure, ◌>>=◌, ◌>>◌, ask, update, try_catch,
}

-- `Gateway::Config` where the handlers read it; `has_collector` is `metricsCollector_ != nullptr`.
pub record Config : Type 0 where
  pub queue_prefix : Bytes
  pub region_code : Bytes
  pub enable_debugging : Bool
  pub enable_acknowledgments : Bool
  pub has_collector : Bool

unfoldable pub suffix : QueueType → Bytes
suffix inbound = codes "inbound"
suffix debug = codes "debug"
suffix discard = codes "discard"
suffix outbound = codes "outbound"

unfoldable pub prefix : Bytes → Bytes
prefix [] = []
prefix (c ∷ cs) = (c ∷ cs) ++ codes "."

unfoldable pub create_queue_name : Config → Bytes → QueueType → Bytes
unfolding suffix prefix
create_queue_name c imei t =
    prefix c.queue_prefix ++ c.region_code ++ codes "." ++ imei ++ codes "_" ++ suffix t

-- `m[k]++`
unfoldable pub increment : Bytes → Map Bytes ℕ → Map Bytes ℕ
increment k m = elim (lookup k m) [ none ↦ insert k 1 m | some n ↦ insert k (add64 n 1) m ]

abbrev pub when : Bool → Run (Unit {0}) → Run (Unit {0})
when true r = r
when false r = pure tt

unfoldable pub is_discarded : ErrorCode → Bool
is_discarded invalid_message = true
is_discarded authentication_failure = true
is_discarded e = false

module _ (s : Services) (c : Config) where
  unfoldable pub publish : Bytes → Bytes → Run Bool
  unfolding ask
  publish queue payload =
      ask (Call.publish_message queue payload) (λ h. s.publish_message h queue payload)

  unfoldable pub count : Bytes → ℕ → Run (Unit {0})
  unfolding ask
  count name n = ask (Call.increment_counter name n) (λ h. s.increment_counter h name n)

  unfoldable pub count_error : Bytes → Run (Unit {0})
  unfolding ask
  count_error name = ask (Call.record_error name) (λ h. s.record_error h name)

  unfoldable pub count_published : DeviceMessage → Run (Unit {0})
  unfolding count update increment
  count_published m = do
    count (codes "messages_published") 1
    update (λ g. record g {
      total_packets_processed = add64 g.total_packets_processed 1;
      packets_per_region = increment m.region g.packets_per_region;
    })

  unfoldable pub after_publish : DeviceMessage → Bytes → Bool → Run (Result Bool)
  unfolding publish count_published create_queue_name
  after_publish m queue false =
      pure (error dependency_failure (codes "Failed to publish message to queue: " ++ queue))
  after_publish m queue true = do
    when c.enable_debugging
        (publish (create_queue_name c m.device_id debug) m.payload >>= λ b. pure tt)
    when c.has_collector (count_published m)
    pure (ok true)

  -- What an exception says is left out of the text.
  unfoldable pub handle_message : DeviceMessage → Run (Result Bool)
  unfolding publish after_publish create_queue_name try_catch
  handle_message m =
      let queue = create_queue_name c m.device_id inbound in
      try_catch (publish queue m.payload >>= after_publish m queue)
        (pure (error internal_error (codes "Error handling message: ")))

  unfoldable pub handle_error : Bytes → ErrorCode → Bytes → Run (Unit {0})
  unfolding publish is_discarded create_queue_name error_code_to_string count_error update increment
      try_catch
  handle_error device_id code text =
      let name = error_code_to_string code in
      try_catch
        (do
          when (is_discarded code) (
              publish (create_queue_name c device_id discard)
                (codes "Error: " ++ name ++ codes " - " ++ text)
              >>= λ b. pure tt)
          when c.has_collector (do
            count_error name
            update (λ g. record g {
              total_packets_rejected = add64 g.total_packets_rejected 1;
              errors_per_type = increment name g.errors_per_type;
            })))
        (pure tt)

  unfoldable pub get_pending_commands : Bytes → Run (List DeviceCommand)
  unfolding ask try_catch
  get_pending_commands device_id =
      try_catch
        (ask (Call.get_pending_commands device_id) (λ h. s.get_pending_commands h device_id))
        (pure [])
