-- ===== src/Parser/Packet.antt =====
-- components/protocol_parser/src/parser.cpp. `none` stands for a read outside of the packet or of its
-- payload. A value that the source scales by a division of floating-point numbers keeps its
-- integer and the divisor. Of a validation error only the field is kept.
pub mod Reads
pub mod Digits
use udp_to_rabbitmq_gateway.Base.{
  ℕ, zero, suc, ◌+◌, ◌-◌, ◌*◌, ◌/◌, ◌%◌, ◌^◌, Bool, true, false, not, ◌&&◌, ◌||◌, Option, none,
  some, List, [], ◌∷◌, ◌++◌, Bytes, codes, length, take, drop, leb, ltb, nat_beq, if◌then◌else◌,
  ◌>>=◌,
}
use udp_to_rabbitmq_gateway.Parser.Checksum.{verify_checksum}
use udp_to_rabbitmq_gateway.Base.Int.{ℤ, pos, sub_ℕ}

pub record PacketHeader : Type 0 where
  pub major : ℕ
  pub minor : ℕ
  pub message_type : ℕ
  pub imei : Bytes
  pub sequence : ℕ

pub data FieldValue : Type 0 where
  number : ℤ → FieldValue
  scaled : ℤ → ℕ → FieldValue
  flag : Bool → FieldValue
  bytes : Bytes → FieldValue

-- The fields that were set, and what the validation found, each in order.
pub record Message : Type 0 where
  pub header : PacketHeader
  pub fields : List (Bytes × FieldValue)
  pub errors : List Bytes

unfoldable pub read : Bytes → ℕ → Option ℕ
read [] i = none
read (b ∷ data_) zero = some b
read (b ∷ data_) (suc i) = read data_ i

-- n bytes from i on, as a range of iterators: each of them has to be there.
unfoldable pub read_bytes : Bytes → ℕ → ℕ → Option Bytes
unfolding read
read_bytes data_ i zero = some []
read_bytes data_ i (suc n) = do b ← read data_ i; rest ← read_bytes data_ (suc i) n; some (b ∷ rest)

-- Two and four bytes, the lowest first.
unfoldable pub read16 : Bytes → ℕ → Option ℕ
unfolding read
read16 data_ i = do a ← read data_ i; b ← read data_ (i + 1); some (a + b * 2 ^ 8)

unfoldable pub read32 : Bytes → ℕ → Option ℕ
unfolding read
read32 data_ i = do
  a ← read data_ i
  b ← read data_ (i + 1)
  c ← read data_ (i + 2)
  d ← read data_ (i + 3)
  some (a + b * 2 ^ 8 + c * 2 ^ 16 + d * 2 ^ 24)

-- A number of n bits, read as signed.
unfoldable pub signed : ℕ → ℕ → ℤ
signed n v = if ltb v (2 ^ (n - 1)) then pos v else sub_ℕ v (2 ^ n)

-- The digits of the loop from i on, n of them.
unfoldable pub read_imei : Bytes → ℕ → ℕ → Option Bytes
unfolding read
read_imei data_ i zero = some []
read_imei data_ i (suc n) = do
  b ← read data_ (5 + i / 2)
  rest ← read_imei data_ (suc i) n
  let digit = if nat_beq (i % 2) 0 then b % 16 else b / 16 % 16
  some (if leb digit 9 then (b'0' + digit) ∷ rest else rest)

-- `parseHeader` where the magic bytes are there.
unfoldable pub read_header : Bytes → Option PacketHeader
unfolding read read_imei read32
read_header data_ = do
  major ← read data_ 2
  minor ← read data_ 3
  type ← read data_ 4
  imei ← read_imei data_ 0 15
  sequence ← read32 data_ 13
  some (record {
    major = major;
    minor = minor;
    message_type = type;
    imei = imei;
    sequence = sequence;
  })

-- The first `none` is a bad read, the second an answer of false.
unfoldable pub parse_header : Bytes → Option (Option PacketHeader)
unfolding read read_header
parse_header data_ = if ltb (length data_) 19 then some none else do
  a ← read data_ 0
  b ← read data_ 1
  (if nat_beq a 0xAA && nat_beq b 0xBB
      then (do h ← read_header data_; some (some h))
      else some none)

unfoldable pub set_fields : List (Bytes × FieldValue) → Message → Message
set_fields fields m = record m { fields = m.fields ++ fields }

unfoldable pub add_error : Bytes → Message → Message
add_error field m = record m { errors = m.errors ++ field ∷ [] }

-- The end of `parseEventNotification`, from the offset on.
unfoldable pub event_time : Bytes → ℕ → Message → Option Message
unfolding read32 set_fields
event_time data_ offset m =
    if leb (offset + 4) (length data_)
    then (do
      t ← read32 data_ offset
      some (set_fields ((codes "event_timestamp", number (pos t)) ∷ []) m))
    else some m

unfoldable pub parse_event_notification : Bytes → Message → Option Message
unfolding read read_bytes event_time set_fields add_error
parse_event_notification data_ m =
    if ltb (length data_) 2 then some (add_error (codes "event_payload") m) else do
      type ← read data_ 0
      n ← read data_ 1
      let typed = set_fields ((codes "event_type", number (pos type)) ∷ []) m
      (if leb (2 + n) (length data_)
          then (do
            event ← read_bytes data_ 2 n
            event_time data_ (2 + n) (set_fields ((codes "event_data", bytes event) ∷ []) typed))
          else event_time data_ 2 typed)

unfoldable pub parse_command_ack : Bytes → Message → Option Message
unfolding read read_bytes read32 set_fields add_error
parse_command_ack data_ m =
    if ltb (length data_) 6 then some (add_error (codes "ack_payload") m) else do
      original ← read32 data_ 0
      result ← read data_ 4
      n ← read data_ 5
      let acked =
          set_fields
            ((codes "original_sequence", number (pos original))
              ∷ (codes "result_code", number (pos result))
              ∷ [])
            m
      (if leb (6 + n) (length data_) && ltb 0 n
          then (do
            text ← read_bytes data_ 6 n
            some (set_fields ((codes "error_message", bytes text) ∷ []) acked))
          else some acked)

-- The time of the fix is read only where the payload reaches so far.
unfoldable pub parse_gps_update : Bytes → Message → Option Message
unfolding read read16 read32 signed set_fields add_error
parse_gps_update data_ m =
    if ltb (length data_) 32 then some (add_error (codes "gps_payload") m) else do
      latitude ← read32 data_ 0
      longitude ← read32 data_ 4
      altitude ← read16 data_ 8
      speed ← read16 data_ 10
      heading ← read16 data_ 12
      satellites ← read data_ 14
      hdop ← read16 data_ 15
      fix ← read data_ 17
      let filled =
          set_fields
            ((codes "latitude", scaled (signed 32 latitude) 1000000)
              ∷ (codes "longitude", scaled (signed 32 longitude) 1000000)
              ∷ (codes "altitude", number (signed 16 altitude))
              ∷ (codes "speed", scaled (pos speed) 10)
              ∷ (codes "heading", scaled (pos heading) 10)
              ∷ (codes "satellites", number (pos satellites))
              ∷ (codes "hdop", scaled (pos hdop) 100)
              ∷ (codes "fix_type", number (pos fix))
              ∷ [])
            m
      (if leb 22 (length data_)
          then (do
            t ← read32 data_ 18
            some (set_fields ((codes "gps_timestamp", number (pos t)) ∷ []) filled))
          else some filled)

-- `statusFlags & 2 ^ n`
unfoldable pub bit : ℕ → ℕ → Bool
bit n v = nat_beq (v / 2 ^ n % 2) 1

unfoldable pub parse_status_update : Bytes → Message → Option Message
unfolding read read16 signed bit set_fields add_error
parse_status_update data_ m =
    if ltb (length data_) 8 then some (add_error (codes "status_payload") m) else do
      battery ← read data_ 0
      signal ← read data_ 1
      temperature ← read16 data_ 2
      voltage ← read16 data_ 4
      flags ← read data_ 6
      some (
          set_fields
            ((codes "battery_level", number (pos battery))
              ∷ (codes "signal_strength", number (signed 8 signal))
              ∷ (codes "temperature", scaled (signed 16 temperature) 10)
              ∷ (codes "voltage", number (pos voltage))
              ∷ (codes "status_flags", number (pos flags))
              ∷ (codes "is_charging", flag (bit 0 flags))
              ∷ (codes "is_moving", flag (bit 1 flags))
              ∷ (codes "gps_enabled", flag (bit 2 flags))
              ∷ (codes "panic_button", flag (bit 3 flags))
              ∷ [])
            m)

unfoldable pub parse_payload : Bytes → ℕ → Message → Option Message
unfolding parse_gps_update parse_status_update parse_event_notification parse_command_ack set_fields
parse_payload data_ type m =
    if nat_beq type 1
    then parse_gps_update data_ m
    else if nat_beq type 2
    then parse_status_update data_ m
    else if nat_beq type 3
    then parse_event_notification data_ m
    else if nat_beq type 4
    then parse_command_ack data_ m
    else some (set_fields ((codes "raw_payload", bytes data_) ∷ []) m)

-- `std::all_of` with `isdigit`
unfoldable pub only_digits : Bytes → Bool
only_digits [] = true
only_digits (c ∷ cs) = leb b'0' c && leb c b'9' && only_digits cs

unfoldable pub validate_header : PacketHeader → List Bytes
unfolding only_digits
validate_header h =
    (if ltb 2 h.major || nat_beq h.major 2 && ltb 0 h.minor then codes "version" ∷ [] else [])
    ++ (if nat_beq h.message_type 0 || ltb 10 h.message_type then codes "messageType" ∷ [] else [])
    ++ (if nat_beq (length h.imei) 15 then [] else codes "imei" ∷ [])
    ++ (if only_digits h.imei then [] else codes "imei" ∷ [])

-- The constructor of `Message`.
unfoldable pub new_message : PacketHeader → Message
unfolding only_digits
new_message h = record {
  header = h;
  fields = [];
  errors = if nat_beq (length h.imei) 15 && only_digits h.imei then [] else codes "imei" ∷ [];
}

unfoldable pub check_sum : Bytes → Message → Message
unfolding verify_checksum add_error
check_sum data_ m = if verify_checksum data_ then m else add_error (codes "checksum") m

-- `parseImpl` behind the header.
unfoldable pub parse_body : Bytes → Option PacketHeader → Option (Option Message)
unfolding read_bytes validate_header parse_payload new_message check_sum
parse_body data_ none = some none
parse_body data_ (some h) =
    let size = length data_ - 19 - 1 in
    let created = new_message h in
    let m = record created { errors = created.errors ++ validate_header h } in
    if ltb 0 size
    then (do
      payload ← read_bytes data_ 19 size
      r ← parse_payload payload h.message_type m
      some (some (check_sum data_ r)))
    else some (some (check_sum data_ m))

-- The inner `none` is a `ParseError`.
unfoldable pub parse : Bytes → Option (Option Message)
unfolding parse_header parse_body
parse data_ =
    if ltb (length data_) 25 then some none else (do h ← parse_header data_; parse_body data_ h)
