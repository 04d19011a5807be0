-- ===== src/Rabbit/Numbers.antt =====
-- `std::stoi` and `std::stoll` of the standard library, as
-- components/rabbitmq_integration/src/message.cpp uses them: `none` where they throw.
use udp_to_rabbitmq_gateway.Base.{
  ℕ, zero, suc, ◌+◌, ◌-◌, ◌*◌, ◌/◌, ◌%◌, ◌≤◌, ◌<◌, ◌≡◌, refl, sym, ap, ◌∙◌, Bool, true, false, ◌&&◌,
  ◌||◌, Option, none, some, [], ◌∷◌, ◌++◌, Bytes, leb, ltb, nat_beq, if◌then◌else◌, if-true,
  Bool-cases, inl, inr, arith, ◌>>=◌, append_assoc, append_nil,
}
use udp_to_rabbitmq_gateway.Base.Int.{ℤ, pos, negsuc, sub_ℕ}
use udp_to_rabbitmq_gateway.Dedup.MessageId.{digits, to_string}

unfoldable pub is_digit : ℕ → Bool
is_digit c = leb b'0' c && leb c b'9'

unfoldable pub is_space : ℕ → Bool
is_space c = nat_beq c 32 || leb 9 c && leb c 13

-- The value of the digits up to the first character that is none.
unfoldable pub digits_value : ℕ → Bytes → ℕ
unfolding is_digit
digits_value acc [] = acc
digits_value acc (c ∷ cs) =
    let rest = digits_value (acc * 10 + (c - b'0')) cs in if is_digit c then rest else acc

unfoldable pub natural : Bytes → Option ℕ
unfolding is_digit digits_value
natural [] = none
natural (c ∷ cs) = if is_digit c then some (digits_value 0 (c ∷ cs)) else none

unfoldable pub skip_spaces : Bytes → Bytes
unfolding is_space
skip_spaces [] = []
skip_spaces (c ∷ cs) = let rest = skip_spaces cs in if is_space c then rest else c ∷ cs

unfoldable pub below : ℕ → ℕ → Option ℤ
below limit n = if ltb n limit then some (pos n) else none

unfoldable pub above : ℕ → ℕ → Option ℤ
above limit n = if leb n limit then some (sub_ℕ 0 n) else none

unfoldable pub with_sign : ℕ → Bytes → Option ℤ
unfolding natural below above
with_sign limit [] = none
with_sign limit (c ∷ cs) =
    if nat_beq c b'-'
    then natural cs >>= above limit
    else (if nat_beq c b'+' then natural cs else natural (c ∷ cs)) >>= below limit

-- A number from -limit up to limit - 1.
unfoldable pub stoi : ℕ → Bytes → Option ℤ
unfolding skip_spaces with_sign
stoi limit text = with_sign limit (skip_spaces text)

digits_value_nil : (n : ℕ) → digits_value n [] ≡ n
unfolding digits_value
digits_value_nil n = refl

digit_step :
    (acc d : ℕ) (rest : Bytes)
    → d < 10
    → digits_value acc ((b'0' + d) ∷ rest) ≡ digits_value (acc * 10 + d) rest
unfolding digits_value is_digit
digit_step acc d rest h =
    let e : b'0' + d - b'0' ≡ d = omega arith in
    if-true (leb b'0' (b'0' + d) && leb (b'0' + d) b'9') _ _ (ground arith)
    ∙ ap (λ k. digits_value (acc * 10 + k) rest) e

digits_value-digits :
    (f n : ℕ) (rest : Bytes) → n < f → digits_value 0 (digits f n ++ rest) ≡ digits_value n rest
unfolding digits
digits_value-digits zero n rest h = absurd (omega arith)
digits_value-digits (suc f) n rest h = elim (Bool-cases (ltb n 10)) [
  | inl small ↦
      let e : 0 * 10 + n ≡ n = omega arith in
      rw small (digit_step 0 n rest (ground arith) ∙ ap (λ k. digits_value k rest) e)
  | inr big ↦
      let last = (b'0' + n % 10) ∷ [] in
      let e : n / 10 * 10 + n % 10 ≡ n = omega arith in
      rw big (
        ap (digits_value 0) (append_assoc (digits f (n / 10)) last rest)
        ∙ digits_value-digits f (n / 10) ((b'0' + n % 10) ∷ rest) (ground arith)
        ∙ digit_step (n / 10) (n % 10) rest (omega arith)
        ∙ ap (λ k. digits_value k rest) e)
]

-- A text that begins with a digit.
data IsNumeric : Bytes → Type 0 where
  begins : (d : ℕ) (cs : Bytes) → d < 10 → IsNumeric ((b'0' + d) ∷ cs)

IsNumeric-append : {s : Bytes} (t : Bytes) → IsNumeric s → IsNumeric (s ++ t)
IsNumeric-append t (begins d cs h) = begins d (cs ++ t) h

digits-IsNumeric : (f n : ℕ) → n < f → IsNumeric (digits f n)
unfolding digits
digits-IsNumeric zero n h = absurd (omega arith)
digits-IsNumeric (suc f) n h = elim (Bool-cases (ltb n 10)) [
  | inl small ↦ rw small (begins n [] (ground arith))
  | inr big ↦ rw big (IsNumeric-append _ (digits-IsNumeric f (n / 10) (ground arith)))
]

stoi-IsNumeric :
    (limit : ℕ) (s : Bytes) → IsNumeric s → stoi limit s ≡ below limit (digits_value 0 s)
unfolding stoi with_sign skip_spaces natural is_digit is_space
stoi-IsNumeric limit _ (begins d cs h) =
    let c = b'0' + d in
    let shown : (nat_beq c 32 || leb 9 c && leb c 13) ≡ false = ground arith in
    let digit : (leb b'0' c && leb c b'9') ≡ true = ground arith in
    let minus : nat_beq c b'-' ≡ false = ground arith in
    let plus : nat_beq c b'+' ≡ false = ground arith in rw (shown, minus, plus, digit) refl

natural-IsNumeric : (s : Bytes) → IsNumeric s → natural s ≡ some (digits_value 0 s)
unfolding natural is_digit
natural-IsNumeric _ (begins d cs h) =
    let c = b'0' + d in if-true (leb b'0' c && leb c b'9') _ _ (ground arith)

digits_value-to_string : (n : ℕ) → digits_value 0 (to_string n) ≡ n
unfolding to_string
digits_value-to_string n =
    ap (digits_value 0) (sym (append_nil (digits (suc n) n)))
    ∙ digits_value-digits (suc n) n [] (omega arith)
    ∙ digits_value_nil n

to_string-IsNumeric : (n : ℕ) → IsNumeric (to_string n)
unfolding to_string
to_string-IsNumeric n = digits-IsNumeric (suc n) n (omega arith)

-- What `std::to_string` writes is read back.
pub stoi-to_string : (limit n : ℕ) → n < limit → stoi limit (to_string n) ≡ some (pos n)
unfolding to_string below
stoi-to_string limit n h =
    stoi-IsNumeric limit (to_string n) (to_string-IsNumeric n)
    ∙ rw (digits_value-to_string n) (if-true (ltb n limit) _ _ (ground arith))

-- The same with a minus, for -(n + 1).
pub stoi-minus :
    (limit n : ℕ) → suc n ≤ limit → stoi limit (b'-' ∷ to_string (suc n)) ≡ some (negsuc n)
unfolding stoi with_sign skip_spaces is_space above
stoi-minus limit n h =
    ap (λ o. o >>= above limit)
      (natural-IsNumeric (to_string (suc n)) (to_string-IsNumeric (suc n)))
    ∙ ap (above limit) (digits_value-to_string (suc n))
    ∙ if-true (leb (suc n) limit) _ _ (ground (arith, h))
    ∙ ap some (ground arith)
