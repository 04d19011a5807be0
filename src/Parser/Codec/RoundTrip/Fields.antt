-- ===== src/Parser/Codec/RoundTrip/Fields.antt =====
-- The fields that `toBinary` writes and `fromBinary` reads.
use udp_to_rabbitmq_gateway.Base.{
  ℕ, suc, ◌+◌, ◌*◌, ◌/◌, ◌%◌, ◌^◌, ◌<◌, ◌≡◌, refl, sym, ap, ◌∙◌, Bool, true, false, none, some,
  List, [], ◌∷◌, ◌++◌, Bytes, length, take, drop, leb, arith, length-append, take-append,
  drop-append, append_assoc, append_nil, if◌then◌else◌, if-false, if-true,
}
use udp_to_rabbitmq_gateway.Parser.Codec.{
  Value, little_endian, write_bytes, write_value, write_fields,
}
use udp_to_rabbitmq_gateway.Parser.Codec.Value.{boolean, int8, uint8, float, string}
use udp_to_rabbitmq_gateway.Parser.Codec.Decode.{
  has_field, add_field, read_flag, read_byte, read_float, read_string, read_value, put_value,
  read_typed, read_field, read_fields,
}

-- A value of a type that `fromBinary` reads, in its range.
pub data IsReadable : Value → Type 0 where
  flag : (b : Bool) → IsReadable (boolean b)
  signed_byte : (v : ℕ) → v < 256 → IsReadable (int8 v)
  byte : (v : ℕ) → v < 256 → IsReadable (uint8 v)
  real : (v : ℕ) → v < 2 ^ 32 → IsReadable (float v)
  text : (s : Bytes) → length s < 256 → IsReadable (string s)

-- Fields with readable values and with different names, also from those that were read before.
pub data AreReadable : List (Bytes × Value) → List (Bytes × Value) → Type 0 where
  none_left : {done : List (Bytes × Value)} → AreReadable done []
  next :
      {done : List (Bytes × Value)} {name : Bytes} {value : Value} {fields : List (Bytes × Value)}
      → length name < 256
      → has_field name done ≡ false
      → IsReadable value
      → AreReadable (done ++ (name, value) ∷ []) fields
      → AreReadable done ((name, value) ∷ fields)

text_back :
    (s rest : Bytes)
    → length s < 256
    → read_string (write_bytes s ++ rest) ≡ (some (string s), rest)
unfolding read_string write_bytes
text_back s rest h =
    let n : length s % 256 ≡ length s = omega arith in
    rw (n, take-append s rest, drop-append s rest)
      (if-true (leb (length s) (length (s ++ rest))) _ _ (ground (arith, length-append s rest)))

read_typed-write_value :
    (name rest : Bytes) (value : Value) (fields : List (Bytes × Value))
    → IsReadable value
    → read_typed name (write_value value ++ rest) fields
      ≡ some (put_value name (some value) fields, rest)
unfolding read_typed write_value read_value read_flag read_byte read_float little_endian
read_typed-write_value name rest _ fields (flag true) = refl
read_typed-write_value name rest _ fields (flag false) = refl
read_typed-write_value name rest _ fields (signed_byte v h) =
    let e : v % 256 ≡ v = omega arith in
    ap (λ b. some (put_value name (some (int8 b)) fields, rest)) e
read_typed-write_value name rest _ fields (byte v h) = refl
read_typed-write_value name rest _ fields (real v h) =
    let e : v % 256
          + v / 256 % 256 * 2 ^ 8
          + v / 256 / 256 % 256 * 2 ^ 16
          + v / 256 / 256 / 256 % 256 * 2 ^ 24
        ≡ v =
      omega arith in
    ap (λ b. some (put_value name (some (float b)) fields, rest)) e
read_typed-write_value name rest _ fields (text s h) =
    ap (λ r. some (put_value name r.0 fields, r.1)) (text_back s rest h)

read_field_lem :
    (n : ℕ) (rest : Bytes) (fields : List (Bytes × Value))
    → 0 < length rest
    → read_field (n ∷ rest) fields
      ≡ (if leb (length rest) n then none else read_typed (take n rest) (drop n rest) fields)
unfolding read_field
read_field_lem n [] fields h = absurd (omega arith)
read_field_lem n (b ∷ rest) fields h = refl

read_field-name :
    (name rest : Bytes) (fields : List (Bytes × Value))
    → length name < 256
    → 0 < length rest
    → read_field (write_bytes name ++ rest) fields ≡ read_typed name rest fields
unfolding write_bytes
read_field-name name rest fields h k =
    let n : length name % 256 ≡ length name = omega arith in
    let more : length (name ++ rest) ≡ length name + length rest = length-append name rest in
    read_field_lem (length name % 256) (name ++ rest) fields (omega arith)
    ∙ rw (n, take-append name rest, drop-append name rest)
        (if-false (leb (length (name ++ rest)) (length name)) _ _ (ground arith))

add_field-fresh :
    (name : Bytes) (value : Value) (fields : List (Bytes × Value))
    → has_field name fields ≡ false
    → add_field name value fields ≡ fields ++ (name, value) ∷ []
unfolding add_field
add_field-fresh name value fields h = rw h refl

read_fields-more :
    (n : ℕ) (data_ rest : Bytes) (fields later : List (Bytes × Value))
    → read_field data_ fields ≡ some (later, rest)
    → read_fields (suc n) data_ fields ≡ read_fields n rest later
unfolding read_fields
read_fields-more n data_ rest fields later e = rw (e, read_fields) refl

pub read_fields-write_fields :
    (fields done : List (Bytes × Value)) (sum : ℕ)
    → AreReadable done fields
    → read_fields (length fields) (write_fields fields ++ sum ∷ []) done ≡ done ++ fields
unfolding read_fields write_fields put_value
read_fields-write_fields [] done sum none_left = sym (append_nil done)
read_fields-write_fields ((name, value) ∷ fields) done sum (next small fresh readable others) =
    let rest = write_fields fields ++ sum ∷ [] in
    let tail = write_value value ++ rest in
    let shape : write_fields ((name, value) ∷ fields) ++ sum ∷ [] ≡ write_bytes name ++ tail =
      append_assoc (write_bytes name) (write_value value ++ write_fields fields) (sum ∷ [])
      ∙ ap (λ t. write_bytes name ++ t)
          (append_assoc (write_value value) (write_fields fields) (sum ∷ [])) in
    let some_left : 0 < length tail = omega (
      arith,
      length-append (write_value value) rest,
      length-append (write_fields fields) (sum ∷ []),
    ) in
    let step =
      ap (λ d. read_field d done) shape
      ∙ read_field-name name tail done small some_left
      ∙ read_typed-write_value name rest value done readable
      ∙ ap (λ f. some (f, rest)) (add_field-fresh name value done fresh) in
    read_fields-more (length fields) (write_fields ((name, value) ∷ fields) ++ sum ∷ []) rest done
      (done ++ (name, value) ∷ []) step
    ∙ read_fields-write_fields fields (done ++ (name, value) ∷ []) sum others
    ∙ append_assoc done ((name, value) ∷ []) fields
