-- ===== src/Parser/Codec/RoundTrip/Header.antt =====
-- The header that `toBinary` writes and `fromBinary` reads.
use udp_to_rabbitmq_gateway.Base.{
  ℕ, zero, suc, ◌+◌, ◌-◌, ◌%◌, ◌≡◌, refl, ap, ◌∙◌, true, some, [], ◌∷◌, ◌++◌, Bytes, length, drop,
  leb, ltb, arith, ◌>>=◌,
}
use udp_to_rabbitmq_gateway.Dedup.MessageId.{digits, to_string}
use udp_to_rabbitmq_gateway.Parser.Packet.{only_digits, read, read32}
use udp_to_rabbitmq_gateway.Parser.Codec.{write_imei}
use udp_to_rabbitmq_gateway.Parser.Codec.Decode.{read_imei, imei_errors, read_fields, read_message}

pub read_behind : (xs ys : Bytes) (j i : ℕ) → j ≡ length xs + i → read (xs ++ ys) j ≡ read ys i
unfolding read
read_behind [] ys j i e = ap (read ys) (omega (arith, e))
read_behind (x ∷ xs) ys zero i e = absurd (omega (arith, e))
read_behind (x ∷ xs) ys (suc j) i e = read_behind xs ys j i (omega (arith, e))

pub drop_behind : (xs ys : Bytes) (j i : ℕ) → j ≡ length xs + i → drop j (xs ++ ys) ≡ drop i ys
drop_behind [] ys j i e = ap (λ k. drop k ys) (omega (arith, e))
drop_behind (x ∷ xs) ys zero i e = absurd (omega (arith, e))
drop_behind (x ∷ xs) ys (suc j) i e = drop_behind xs ys j i (omega (arith, e))

pub read_imei-behind :
    (b : ℕ) (xs : Bytes) (i n : ℕ) → read_imei (b ∷ xs) (suc i) n ≡ read_imei xs i n
unfolding read_imei read
read_imei-behind b xs i zero = refl
read_imei-behind b xs i (suc n) =
    ap (λ r. do c ← read xs i; rest ← r; some (to_string c ++ rest))
      (read_imei-behind b xs (suc i) n)

pub length-write_imei : (n : ℕ) (cs : Bytes) → length (write_imei n cs) ≡ n
unfolding write_imei
length-write_imei zero cs = refl
length-write_imei (suc n) [] = ap suc (length-write_imei n [])
length-write_imei (suc n) (c ∷ cs) = ap suc (length-write_imei n cs)

digit_back :
    (c : ℕ) → leb b'0' c ≡ true → leb c b'9' ≡ true → to_string ((c + 256 - b'0') % 256) ≡ c ∷ []
unfolding to_string digits
digit_back c h k =
    let d = (c + 256 - b'0') % 256 in
    let small : ltb d 10 ≡ true = ground arith in
    let same : b'0' + d ≡ c = ground arith in rw small (ap (λ z. z ∷ []) same)

pub read_imei-write_imei :
    (cs rest : Bytes)
    → only_digits cs ≡ true
    → read_imei (write_imei (length cs) cs ++ rest) 0 (length cs) ≡ some cs
unfolding read_imei write_imei only_digits read
read_imei-write_imei [] rest h = refl
read_imei-write_imei (c ∷ cs) rest h =
    let d = (c + 256 - b'0') % 256 in
    let later : only_digits cs ≡ true = ground (arith, h) in
    let others : read_imei (d ∷ write_imei (length cs) cs ++ rest) 1 (length cs) ≡ some cs =
      read_imei-behind d (write_imei (length cs) cs ++ rest) 0 (length cs)
      ∙ read_imei-write_imei cs rest later in
    ap (λ r. do tail ← r; some (to_string d ++ tail)) others
    ∙ ap (λ s. some (s ++ cs)) (digit_back c (ground (arith, h)) (ground (arith, h)))

pub read_message_lem :
    (now : ℕ) (data_ imei : Bytes) (type major minor sequence count : ℕ)
    → read data_ 2 ≡ some type
    → read data_ 3 ≡ some major
    → read data_ 4 ≡ some minor
    → read_imei data_ 5 15 ≡ some imei
    → read32 data_ 20 ≡ some sequence
    → read data_ 24 ≡ some count
    → read_message now data_
      ≡ some (record {
        imei = imei;
        sequence = sequence;
        message_type = type;
        major = major;
        minor = minor;
        timestamp = now;
        fields = read_fields count (drop 25 data_) [];
        errors = imei_errors imei;
      })
unfolding read_message
read_message_lem now data_ imei type major minor sequence count a b c d e f =
    rw (a, b, c, d, e, f) refl
