-- ===== src/Parser/Builder/Received.antt =====
-- What is received of a command that was built.
use udp_to_rabbitmq_gateway.Base.{
  ℕ, ◌^◌, ◌<◌, ◌≡◌, refl, true, Option, some, [], ◌∷◌, Bytes, length, nat_beq, if-true, if-false,
  ◌>>=◌, codes, arith,
}
use udp_to_rabbitmq_gateway.Base.Maps.{lookup}
use udp_to_rabbitmq_gateway.Parser.Packet.{only_digits}
use udp_to_rabbitmq_gateway.Parser.Codec.{
  Value, Message, little_endian, write_bytes, write_value, write_fields, to_binary,
}
use udp_to_rabbitmq_gateway.Parser.Codec.Decode.{
  from_binary, imei_errors, put_value, read_value, read_typed, read_field, read_fields,
}
use udp_to_rabbitmq_gateway.Parser.Codec.RoundTrip.{FitsHeader, decoded, from_binary-decoded}
use udp_to_rabbitmq_gateway.Parser.Builder.{
  CommandType, reboot, subscribe, unsubscribe, update_config, get_status, set_interval,
  factory_reset, create, set_imei, set_sequence, command_number, message_type_of, set_parameters,
  build, type_of_message, or_message_type, get_type,
}

-- The type that a receiver finds.
abbrev pub received : CommandType → CommandType
received reboot = reboot
received subscribe = subscribe
received unsubscribe = unsubscribe
received update_config = update_config
received get_status = reboot
received set_interval = reboot
received factory_reset = reboot

-- A command without parameters, built at one time, written, read at another, and asked for its type.
abbrev pub transmitted : ℕ → ℕ → CommandType → Bytes → ℕ → Option ℕ
transmitted made now type imei sequence = do
  b ← set_imei imei (create type)
  m ← build made (set_sequence sequence b)
  r ← from_binary now (to_binary m)
  d ← r
  get_type d

-- The message of such a command.
abbrev command : ℕ → CommandType → Bytes → ℕ → Message
command made type imei sequence = record {
  imei = imei;
  sequence = sequence;
  message_type = message_type_of type;
  major = 1;
  minor = 0;
  timestamp = made;
  fields = (codes "command_type", Value.uint32 (command_number type)) ∷ [];
  errors = imei_errors imei;
}

message_type_of_small : (type : CommandType) → message_type_of type < 256
unfolding message_type_of
message_type_of_small reboot = omega arith
message_type_of_small subscribe = omega arith
message_type_of_small unsubscribe = omega arith
message_type_of_small update_config = omega arith
message_type_of_small get_status = omega arith
message_type_of_small set_interval = omega arith
message_type_of_small factory_reset = omega arith

get_type-decoded :
    (made now : ℕ) (type : CommandType) (imei : Bytes) (sequence : ℕ)
    → get_type (decoded now (command made type imei sequence))
      ≡ some (command_number (received type))
unfolding get_type or_message_type type_of_message message_type_of command_number lookup read_fields
    read_field read_typed read_value put_value write_fields write_bytes write_value little_endian
get_type-decoded made now reboot imei sequence = refl
get_type-decoded made now subscribe imei sequence = refl
get_type-decoded made now unsubscribe imei sequence = refl
get_type-decoded made now update_config imei sequence = refl
get_type-decoded made now get_status imei sequence = refl
get_type-decoded made now set_interval imei sequence = refl
get_type-decoded made now factory_reset imei sequence = refl

set_imei-create :
    (type : CommandType) (imei : Bytes)
    → length imei ≡ 15
    → set_imei imei (create type) ≡ some (record (create type) { imei = imei })
unfolding set_imei
set_imei-create type imei fifteen = if-true (nat_beq (length imei) 15) _ _ (ground (arith, fifteen))

build-command :
    (made : ℕ) (type : CommandType) (imei : Bytes) (sequence : ℕ)
    → length imei ≡ 15
    → build made (set_sequence sequence (record (create type) { imei = imei }))
      ≡ some (command made type imei sequence)
unfolding build create set_sequence set_parameters imei_errors
build-command made type imei sequence fifteen =
    if-false (nat_beq (length imei) 0) _ _ (ground (arith, fifteen))

command-FitsHeader :
    (made : ℕ) (type : CommandType) (imei : Bytes) (sequence : ℕ)
    → length imei ≡ 15
    → only_digits imei ≡ true
    → sequence < 2 ^ 32
    → FitsHeader (command made type imei sequence)
command-FitsHeader made type imei sequence fifteen numeric small = record {
  fifteen = fifteen;
  numeric = numeric;
  sequence_small = small;
  type_small = message_type_of_small type;
  count_small = omega arith;
}

-- A command without parameters for a device with an identifier of 15 digits, built, written by
-- `toBinary`, and read by `fromBinary`, tells its own type where it is one of the first four; a
-- status request, a change of the interval and a factory reset arrive as a reboot.
pub transmitted-received :
    (made now : ℕ) (type : CommandType) (imei : Bytes) (sequence : ℕ)
    → length imei ≡ 15
    → only_digits imei ≡ true
    → sequence < 2 ^ 32
    → transmitted made now type imei sequence ≡ some (command_number (received type))
transmitted-received made now type imei sequence fifteen numeric small =
    rw
      (
        set_imei-create type imei fifteen,
        build-command made type imei sequence fifteen,
        from_binary-decoded now (command made type imei sequence)
            (command-FitsHeader made type imei sequence fifteen numeric small),
      )
      (get_type-decoded made now type imei sequence)
