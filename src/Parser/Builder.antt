-- ===== src/Parser/Builder.antt =====
-- components/protocol_parser/src/builder.cpp: the builder of commands, and what a command tells of
-- its type. An exception is `none`.
pub mod Received
use udp_to_rabbitmq_gateway.Base.{
  ℕ, ◌+◌, ◌-◌, ◌*◌, ◌/◌, ◌%◌, ◌^◌, Bool, true, false, ◌||◌, Option, none, some, List, [], ◌∷◌,
  Bytes, codes, length, leb, ltb, nat_beq, if◌then◌else◌, ◌>>=◌, ◌==◌, bytes_eq,
}
use udp_to_rabbitmq_gateway.Base.Maps.{Map, lookup, insert}
use udp_to_rabbitmq_gateway.Parser.Codec.{Value, Message, to_binary}
use udp_to_rabbitmq_gateway.Parser.Codec.Value.{
  monostate, boolean, int8, uint8, int16, uint16, int64, uint64, binary,
}
use udp_to_rabbitmq_gateway.Parser.Codec.Decode.{imei_errors, has_field}

pub data CommandType : Type 0 where
  reboot subscribe unsubscribe update_config get_status set_interval factory_reset : CommandType

pub data ParameterValue : Type 0 where
  flag : Bool → ParameterValue
  int32 uint32 float double : ℕ → ParameterValue
  string : Bytes → ParameterValue

pub record CommandBuilder : Type 0 where
  pub command_type : CommandType
  pub imei : Bytes
  pub sequence : ℕ
  pub parameters : Map Bytes ParameterValue

unfoldable pub create : CommandType → CommandBuilder
create type = record { command_type = type; imei = []; sequence = 0; parameters = [] }

unfoldable pub set_imei : Bytes → CommandBuilder → Option CommandBuilder
set_imei imei b = if nat_beq (length imei) 15 then some (record b { imei = imei }) else none

unfoldable pub set_sequence : ℕ → CommandBuilder → CommandBuilder
set_sequence sequence b = record b { sequence = sequence }

unfoldable pub add_parameter : Bytes → ParameterValue → CommandBuilder → CommandBuilder
unfolding insert
add_parameter name value b = record b { parameters = insert name value b.parameters }

-- The numbers of `CommandType`, and the `MessageType` for each.
unfoldable pub command_number : CommandType → ℕ
command_number reboot = 1
command_number subscribe = 2
command_number unsubscribe = 3
command_number update_config = 4
command_number get_status = 5
command_number set_interval = 6
command_number factory_reset = 7

unfoldable pub message_type_of : CommandType → ℕ
message_type_of reboot = 5
message_type_of subscribe = 6
message_type_of unsubscribe = 7
message_type_of update_config = 8
message_type_of _ = 5

unfoldable pub to_value : ParameterValue → Value
to_value (flag b) = boolean b
to_value (int32 v) = Value.int32 v
to_value (uint32 v) = Value.uint32 v
to_value (float v) = Value.float v
to_value (double v) = Value.double v
to_value (string text) = Value.string text

unfoldable pub set_parameters : Map Bytes ParameterValue → Map Bytes Value → Map Bytes Value
unfolding insert to_value
set_parameters [] fields = fields
set_parameters ((name, value) ∷ more) fields =
    set_parameters more (insert name (to_value value) fields)

-- `now` is the time of the clock.
unfoldable pub build : ℕ → CommandBuilder → Option Message
unfolding message_type_of command_number set_parameters imei_errors
build now b =
    if nat_beq (length b.imei) 0
    then none
    else some (record {
      imei = b.imei;
      sequence = b.sequence;
      message_type = message_type_of b.command_type;
      major = 1;
      minor = 0;
      timestamp = now;
      fields =
          set_parameters b.parameters
            ((codes "command_type", Value.uint32 (command_number b.command_type)) ∷ []);
      errors = imei_errors b.imei;
    })

unfoldable pub build_binary : ℕ → CommandBuilder → Option Bytes
unfolding build to_binary
build_binary now b = do m ← build now b; some (to_binary m)

-- A number of n bits as one of 32 bits, its sign kept.
unfoldable pub widen : ℕ → ℕ → ℕ
widen n v = if ltb v (2 ^ (n - 1)) then v else v + 2 ^ 32 - 2 ^ n

-- The whole part of a floating-point number of 1 + e + f bits; `none` where it does not fit.
unfoldable pub whole_part : ℕ → ℕ → ℕ → Option ℕ
whole_part e f v =
    let bias = 2 ^ (e - 1) - 1 in
    let power = v / 2 ^ f % 2 ^ e in
    if ltb power bias
    then some 0
    else if nat_beq (v / 2 ^ (e + f)) 1 || leb (bias + 32) power
    then none
    else some ((2 ^ f + v % 2 ^ f) * 2 ^ (power - bias) / 2 ^ f)

-- The inner option of a conversion is `none` where it throws, the outer one where it is undefined.
unfoldable pub caught : Option ℕ → Option (Option ℕ)
caught none = none
caught (some n) = some (some n)

-- `convertValue<uint32_t>`
unfoldable pub convert_value : Value → Option (Option ℕ)
unfolding widen whole_part caught
convert_value monostate = some none
convert_value (boolean b) = some (some (if b then 1 else 0))
convert_value (int8 v) = some (some (widen 8 v))
convert_value (uint8 v) = some (some v)
convert_value (int16 v) = some (some (widen 16 v))
convert_value (uint16 v) = some (some v)
convert_value (Value.int32 v) = some (some v)
convert_value (Value.uint32 v) = some (some v)
convert_value (int64 v) = some (some (v % 2 ^ 32))
convert_value (uint64 v) = some (some (v % 2 ^ 32))
convert_value (Value.float v) = caught (whole_part 8 23 v)
convert_value (Value.double v) = caught (whole_part 11 52 v)
convert_value (Value.string text) = some none
convert_value (binary data_) = some none

-- The type of a command by the type of its message.
unfoldable pub type_of_message : ℕ → ℕ
type_of_message type =
    if nat_beq type 6 then 2 else if nat_beq type 7 then 3 else if nat_beq type 8 then 4 else 1

unfoldable pub or_message_type : Message → Option ℕ → ℕ
unfolding type_of_message
or_message_type m none = type_of_message m.message_type
or_message_type m (some n) = n % 256

-- `Command::getType`, as the number of the type.
unfoldable pub get_type : Message → Option ℕ
unfolding lookup convert_value or_message_type
get_type m = elim (lookup (codes "command_type") m.fields) [
  | none ↦ some (or_message_type m none)
  | some value ↦ convert_value value >>= λ n. some (or_message_type m n)
]
