-- ===== src/Parser/Codec.antt =====
-- components/protocol_parser/src/message.cpp: `toBinary` and `fromBinary`. A signed number and a
-- floating-point number are the number that their bits make. The field map is the list of its entries
-- in the order in which the loop of `toBinary` visits them.
pub mod Decode
pub mod Total
pub mod RoundTrip
use udp_to_rabbitmq_gateway.Base.{
  ℕ, zero, suc, ◌+◌, ◌-◌, ◌*◌, ◌/◌, ◌%◌, ◌^◌, Bool, true, false, Option, none, some, List, [], ◌∷◌,
  ◌++◌, Bytes, codes, length, take, drop, leb, ltb, nat_beq, if◌then◌else◌, ◌>>=◌,
}
use udp_to_rabbitmq_gateway.Parser.Checksum.{xor_from}

-- `Message::Value`
pub data Value : Type 0 where
  monostate : Value
  boolean : Bool → Value
  int8 uint8 int16 uint16 int32 uint32 int64 uint64 float double : ℕ → Value
  string binary : Bytes → Value

pub record Message : Type 0 where
  pub imei : Bytes
  pub sequence : ℕ
  pub message_type : ℕ
  pub major : ℕ
  pub minor : ℕ
  pub timestamp : ℕ
  pub fields : List (Bytes × Value)
  pub errors : List Bytes

-- `v & 0xFF`, `(v >> 8) & 0xFF` and so on, n bytes.
unfoldable pub little_endian : ℕ → ℕ → Bytes
little_endian zero v = []
little_endian (suc n) v = v % 256 ∷ little_endian n (v / 256)

-- The length, in a byte, and the bytes.
unfoldable pub write_bytes : Bytes → Bytes
write_bytes text = length text % 256 ∷ text

-- The lambda that is given to `std::visit`.
unfoldable pub write_value : Value → Bytes
unfolding little_endian write_bytes
write_value monostate = 0 ∷ []
write_value (boolean b) = 1 ∷ (if b then 1 else 0) ∷ []
write_value (int8 v) = 2 ∷ v % 256 ∷ []
write_value (uint8 v) = 3 ∷ v ∷ []
write_value (int16 v) = 4 ∷ little_endian 2 v
write_value (uint16 v) = 5 ∷ little_endian 2 v
write_value (int32 v) = 6 ∷ little_endian 4 v
write_value (uint32 v) = 7 ∷ little_endian 4 v
write_value (int64 v) = []
write_value (uint64 v) = []
write_value (float v) = 10 ∷ little_endian 4 v
write_value (double v) = 11 ∷ little_endian 8 v
write_value (string text) = 12 ∷ write_bytes text
write_value (binary data_) = 13 ∷ write_bytes data_

unfoldable pub write_fields : List (Bytes × Value) → Bytes
unfolding write_bytes write_value
write_fields [] = []
write_fields ((name, value) ∷ fields) =
    write_bytes name ++ (write_value value ++ write_fields fields)

-- n bytes for the IMEI: a digit each, and 0 where it is shorter.
unfoldable pub write_imei : ℕ → Bytes → Bytes
write_imei zero imei = []
write_imei (suc n) [] = 0 ∷ write_imei n []
write_imei (suc n) (c ∷ cs) = (c + 256 - b'0') % 256 ∷ write_imei n cs

-- All but the checksum.
unfoldable pub write_body : Message → Bytes
unfolding write_imei little_endian write_fields
write_body m =
    (0xAA ∷ 0xBB ∷ m.message_type % 256 ∷ m.major ∷ m.minor ∷ [])
    ++ (write_imei 15 m.imei
        ++ (little_endian 4 m.sequence ++ (length m.fields % 256 ∷ write_fields m.fields)))

unfoldable pub to_binary : Message → Bytes
unfolding write_body xor_from
to_binary m = write_body m ++ xor_from 0 (write_body m) ∷ []
