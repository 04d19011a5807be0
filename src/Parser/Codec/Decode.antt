-- ===== src/Parser/Codec/Decode.antt =====
-- components/protocol_parser/src/message.cpp: `fromBinary`. Behind the header the offset is the bytes
-- that still follow; `none` stands for a read outside of the packet.
use udp_to_rabbitmq_gateway.Base.{
  ℕ, zero, suc, ◌+◌, ◌*◌, ◌^◌, Bool, false, not, ◌&&◌, ◌||◌, Option, none, some, List, [], ◌∷◌,
  ◌++◌, Bytes, codes, length, take, drop, leb, ltb, nat_beq, ◌==◌, bytes_eq, if◌then◌else◌, ◌>>=◌,
}
use udp_to_rabbitmq_gateway.Dedup.MessageId.{to_string}
use udp_to_rabbitmq_gateway.Parser.Packet.{only_digits, read, read32}
use udp_to_rabbitmq_gateway.Parser.Codec.{Value, Message}
use udp_to_rabbitmq_gateway.Parser.Codec.Value.{boolean, int8, uint8, float, string}

unfoldable pub has_field : Bytes → List (Bytes × Value) → Bool
has_field name [] = false
has_field name ((other, value) ∷ fields) = name == other || has_field name fields

unfoldable pub add_field : Bytes → Value → List (Bytes × Value) → List (Bytes × Value)
unfolding has_field
add_field name value fields = if has_field name fields then fields else fields ++ (name, value) ∷ []

-- One case of the switch, with the bytes that are left.
unfoldable pub read_flag : Bytes → Option Value × Bytes
read_flag [] = (none, [])
read_flag (b ∷ rest) = (some (boolean (not (nat_beq b 0))), rest)

unfoldable pub read_byte : (ℕ → Value) → Bytes → Option Value × Bytes
read_byte make [] = (none, [])
read_byte make (b ∷ rest) = (some (make b), rest)

unfoldable pub read_float : Bytes → Option Value × Bytes
read_float (a ∷ b ∷ c ∷ d ∷ rest) = (some (float (a + b * 2 ^ 8 + c * 2 ^ 16 + d * 2 ^ 24)), rest)
read_float rest = (none, rest)

unfoldable pub read_string : Bytes → Option Value × Bytes
read_string [] = (none, [])
read_string (n ∷ rest) =
    if leb n (length rest) then (some (string (take n rest)), drop n rest) else (none, rest)

-- The switch over the type of the field.
unfoldable pub read_value : ℕ → Bytes → Option Value × Bytes
unfolding read_flag read_byte read_float read_string
read_value type rest =
    if nat_beq type 1
    then read_flag rest
    else if nat_beq type 2
    then read_byte int8 rest
    else if nat_beq type 3
    then read_byte uint8 rest
    else if nat_beq type 10
    then read_float rest
    else if nat_beq type 12
    then read_string rest
    else (none, rest)

unfoldable pub put_value : Bytes → Option Value → List (Bytes × Value) → List (Bytes × Value)
unfolding add_field
put_value name none fields = fields
put_value name (some value) fields = add_field name value fields

unfoldable pub read_typed :
    Bytes → Bytes → List (Bytes × Value) → Option (List (Bytes × Value) × Bytes)
unfolding read_value put_value
read_typed name [] fields = none
read_typed name (type ∷ rest) fields =
    let (value, later) = read_value type rest in some (put_value name value fields, later)

-- One turn of the loop: the fields and the bytes left, or `none` where the loop ends.
unfoldable pub read_field : Bytes → List (Bytes × Value) → Option (List (Bytes × Value) × Bytes)
unfolding read_typed
read_field [] fields = none
read_field (n ∷ []) fields = none
read_field (n ∷ next ∷ rest) fields =
    if leb (length (next ∷ rest)) n
    then none
    else read_typed (take n (next ∷ rest)) (drop n (next ∷ rest)) fields

unfoldable pub read_fields : ℕ → Bytes → List (Bytes × Value) → List (Bytes × Value)
unfolding read_field
read_fields zero data_ fields = fields
read_fields (suc n) data_ fields = elim (read_field data_ fields) [
  | none ↦ fields
  | some (later, rest) ↦ read_fields n rest later
]

-- `std::to_string` of n bytes from i on.
unfoldable pub read_imei : Bytes → ℕ → ℕ → Option Bytes
unfolding read to_string
read_imei data_ i zero = some []
read_imei data_ i (suc n) = do
  b ← read data_ i
  rest ← read_imei data_ (suc i) n
  some (to_string b ++ rest)

unfoldable pub imei_errors : Bytes → List Bytes
unfolding only_digits
imei_errors imei = if nat_beq (length imei) 15 && only_digits imei then [] else codes "imei" ∷ []

-- `now` is the time of the clock, which the message gets.
unfoldable pub read_message : ℕ → Bytes → Option Message
unfolding read read_imei read32 read_fields imei_errors
read_message now data_ = do
  type ← read data_ 2
  major ← read data_ 3
  minor ← read data_ 4
  imei ← read_imei data_ 5 15
  sequence ← read32 data_ 20
  count ← read data_ 24
  some (record {
    imei = imei;
    sequence = sequence;
    message_type = type;
    major = major;
    minor = minor;
    timestamp = now;
    fields = read_fields count (drop 25 data_) [];
    errors = imei_errors imei;
  })

-- The inner `none` is a `ParseError`.
unfoldable pub from_binary : ℕ → Bytes → Option (Option Message)
unfolding read read_message
from_binary now data_ = if ltb (length data_) 25 then some none else do
  a ← read data_ 0
  b ← read data_ 1
  (if nat_beq a 0xAA && nat_beq b 0xBB
      then (do m ← read_message now data_; some (some m))
      else some none)
