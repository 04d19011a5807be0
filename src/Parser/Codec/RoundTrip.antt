-- ===== src/Parser/Codec/RoundTrip.antt =====
-- `fromBinary` after `toBinary`.
pub mod Fields
pub mod Header
use udp_to_rabbitmq_gateway.Base.{
  ℕ, ◌+◌, ◌*◌, ◌/◌, ◌%◌, ◌^◌, ◌<◌, ◌≡◌, refl, sym, ap, subst, ◌∙◌, Bool, true, false, ◌&&◌, Option,
  some, [], ◌∷◌, ◌++◌, Bytes, length, drop, ltb, nat_beq, arith, if-true, if-false, length-append,
  append_assoc, ◌>>=◌,
}
use udp_to_rabbitmq_gateway.Parser.Checksum.{xor_from, verify_checksum}
use udp_to_rabbitmq_gateway.Parser.Checksum.Detect.{sealed_passes}
use udp_to_rabbitmq_gateway.Parser.Packet.{only_digits, read, read32}
use udp_to_rabbitmq_gateway.Parser.Codec.{
  Message, little_endian, write_imei, write_fields, write_body, to_binary,
}
use udp_to_rabbitmq_gateway.Parser.Codec.Decode.{
  read_imei, imei_errors, read_fields, read_message, from_binary,
}
use udp_to_rabbitmq_gateway.Parser.Codec.RoundTrip.Fields.{AreReadable, read_fields-write_fields}
use udp_to_rabbitmq_gateway.Parser.Codec.RoundTrip.Header.{
  read_behind, drop_behind, read_imei-behind, length-write_imei, read_imei-write_imei,
  read_message_lem,
}

-- The header of the message fits the binary form.
pub record FitsHeader (m : Message) : Type 0 where
  pub fifteen : length m.imei ≡ 15
  pub numeric : only_digits m.imei ≡ true
  pub sequence_small : m.sequence < 2 ^ 32
  pub type_small : m.message_type < 256
  pub count_small : length m.fields < 256

-- A message that is valid and that fits the binary form, with fields that `fromBinary` reads.
pub record FitsBinary (m : Message) : Type 0 where
  pub header : FitsHeader m
  pub readable : AreReadable [] m.fields
  pub valid : m.errors ≡ []

-- The message with the fields that `fromBinary` finds, and the time of the reading.
abbrev pub decoded : ℕ → Message → Message
decoded now m = record m {
  timestamp = now;
  fields =
      read_fields (length m.fields) (write_fields m.fields ++ xor_from 0 (write_body m) ∷ []) [];
  errors = [];
}

module _ (now : ℕ) (m : Message) (fits : FitsHeader m) where
  -- What follows the IMEI, with the checksum.
  abbrev behind : Bytes
  behind =
      little_endian 4 m.sequence
      ++ (length m.fields % 256 ∷ (write_fields m.fields ++ xor_from 0 (write_body m) ∷ []))

  abbrev packet : Bytes
  packet = 0xAA ∷ 0xBB ∷ m.message_type % 256 ∷ m.major ∷ m.minor ∷ (write_imei 15 m.imei ++ behind)

  packet_lem : to_binary m ≡ packet
  unfolding to_binary write_body little_endian
  packet_lem =
      ap (λ t. 0xAA ∷ 0xBB ∷ m.message_type % 256 ∷ m.major ∷ m.minor ∷ t)
        (append_assoc (write_imei 15 m.imei)
          (little_endian 4 m.sequence ++ (length m.fields % 256 ∷ write_fields m.fields))
          (xor_from 0 (write_body m) ∷ []))

  length-behind :
      length behind ≡ 5 + length (write_fields m.fields ++ xor_from 0 (write_body m) ∷ [])
  unfolding little_endian
  length-behind = omega arith

  at : (j i : ℕ) → j ≡ 15 + i → read (write_imei 15 m.imei ++ behind) j ≡ read behind i
  at j i e =
      read_behind (write_imei 15 m.imei) behind j i (omega (arith, e, length-write_imei 15 m.imei))

  packet_imei : read_imei packet 5 15 ≡ some m.imei
  packet_imei =
      let digits = write_imei 15 m.imei ++ behind in
      let minor = m.minor ∷ digits in
      let major = m.major ∷ minor in
      let type = m.message_type % 256 ∷ major in
      read_imei-behind 0xAA (0xBB ∷ type) 4 15
      ∙ read_imei-behind 0xBB type 3 15
      ∙ read_imei-behind (m.message_type % 256) major 2 15
      ∙ read_imei-behind m.major minor 1 15
      ∙ read_imei-behind m.minor digits 0 15
      ∙ subst (λ n. read_imei (write_imei n m.imei ++ behind) 0 n ≡ some m.imei) fits.fifteen
          (read_imei-write_imei m.imei behind fits.numeric)

  packet_sequence : read32 packet 20 ≡ some m.sequence
  unfolding read32 read little_endian
  packet_sequence =
      let small = fits.sequence_small in
      rw (at 15 0 refl, at 16 1 refl, at 17 2 refl, at 18 3 refl) (ap some (omega (arith, small)))

  packet_count : read packet 24 ≡ some (length m.fields)
  unfolding read little_endian
  packet_count = at 19 4 refl ∙ ap some (omega (arith, fits.count_small))

  packet_fields : read_fields (length m.fields) (drop 25 packet) [] ≡ (decoded now m).fields
  unfolding little_endian
  packet_fields =
      let n : 20 ≡ length (write_imei 15 m.imei) + 5 = omega (arith, length-write_imei 15 m.imei) in
      ap (λ d. read_fields (length m.fields) d [])
        (drop_behind (write_imei 15 m.imei) behind 20 5 n)

  packet-length : ltb (length packet) 25 ≡ false
  packet-length = ground (
    arith,
    length-append (write_imei 15 m.imei) behind,
    length-write_imei 15 m.imei,
    length-behind,
  )

  packet_message : read_message now packet ≡ some (decoded now m)
  unfolding read imei_errors
  packet_message =
      let small = fits.type_small in
      let type : m.message_type % 256 ≡ m.message_type = omega (arith, small) in
      let errors : imei_errors m.imei ≡ [] = rw (fits.fifteen, fits.numeric) refl in
      read_message_lem now packet m.imei (m.message_type % 256) m.major m.minor m.sequence
        (length m.fields) refl refl refl packet_imei packet_sequence packet_count
      ∙ rw (type, packet_fields, errors) refl

  packet_back : from_binary now packet ≡ some (some (decoded now m))
  unfolding from_binary read
  packet_back =
      if-false (ltb (length packet) 25) _ _ packet-length
      ∙ ap (λ r. do n ← r; some (some n)) packet_message

-- The header comes back, with the fields that are found.
pub from_binary-decoded :
    (now : ℕ) (m : Message)
    → FitsHeader m
    → from_binary now (to_binary m) ≡ some (some (decoded now m))
from_binary-decoded now m fits =
    ap (from_binary now) (packet_lem now m fits) ∙ packet_back now m fits

-- A valid message in the range of the binary form, whose fields have different names and are
-- booleans, 8-bit numbers, floats and strings, comes back from `fromBinary` as it was given to
-- `toBinary`, with its identifier, type, version, sequence number and every field, and no error;
-- only its time is not transmitted, and is that of the reading.
pub from_binary-to_binary :
    (now : ℕ) (m : Message)
    → FitsBinary m
    → from_binary now (to_binary m) ≡ some (some (record m { timestamp = now }))
from_binary-to_binary now m fits =
    let fields = read_fields-write_fields m.fields [] (xor_from 0 (write_body m)) fits.readable in
    from_binary-decoded now m fits.header ∙ (λ i.
      some (some (record m { timestamp = now; fields = fields i; errors = sym fits.valid i })))

-- What `toBinary` writes for any message passes the parser's test of the checksum.
pub to_binary-verify_checksum : (m : Message) → verify_checksum (to_binary m) ≡ true
unfolding to_binary
to_binary-verify_checksum m = sealed_passes (write_body m) (xor_from 0 (write_body m)) refl
