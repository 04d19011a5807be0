-- ===== src/Gateway/Types.antt =====
-- components/udp-gateway/include/udp_gateway/types.hpp: the messages, the error codes and the
-- results. A time is a number, and the device commands keep the fields that the gateway reads.
use udp_to_rabbitmq_gateway.Base.{ℕ, Bool, Bytes, codes}
use udp_to_rabbitmq_gateway.Base.Maps.{Map}
use udp_to_rabbitmq_gateway.Gateway.Limiter.{Priority}

pub data DeviceState : Type 0 where
  unknown connected disconnected suspended : DeviceState

pub data QueueType : Type 0 where
  inbound debug discard outbound : QueueType

pub record GatewayMetrics : Type 0 where
  pub total_packets_processed : ℕ
  pub total_packets_rejected : ℕ
  pub packets_per_region : Map Bytes ℕ
  pub errors_per_type : Map Bytes ℕ

pub record DeviceMessage : Type 0 where
  pub device_id : Bytes
  pub region : Bytes
  pub payload : Bytes
  pub sequence_number : ℕ
  pub message_id : Bytes
  pub priority : Priority
  pub timestamp : ℕ
  pub requires_acknowledgment : Bool

pub record MessageAcknowledgment : Type 0 where
  pub device_id : Bytes
  pub message_id : Bytes
  pub success : Bool
  pub error_reason : Bytes

pub record DeviceCommand : Type 0 where
  pub device_id : Bytes
  pub payload : Bytes
  pub command_id : Bytes

pub data ErrorCode : Type 0 where
  success invalid_message authentication_failure rate_limited duplicate_message device_suspended
        internal_error dependency_failure invalid_configuration :
      ErrorCode

unfoldable pub error_code_to_string : ErrorCode → Bytes
error_code_to_string ErrorCode.success = codes "SUCCESS"
error_code_to_string invalid_message = codes "INVALID_MESSAGE"
error_code_to_string authentication_failure = codes "AUTHENTICATION_FAILURE"
error_code_to_string rate_limited = codes "RATE_LIMITED"
error_code_to_string duplicate_message = codes "DUPLICATE_MESSAGE"
error_code_to_string device_suspended = codes "DEVICE_SUSPENDED"
error_code_to_string internal_error = codes "INTERNAL_ERROR"
error_code_to_string dependency_failure = codes "DEPENDENCY_FAILURE"
error_code_to_string invalid_configuration = codes "INVALID_CONFIGURATION"

-- `Result<T>::ok` and `Result<T>::error`
pub data Result (A : Type 0) : Type 0 where
  ok : A → Result A
  error : ErrorCode → Bytes → Result A
