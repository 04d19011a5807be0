-- ===== src/Dedup/MessageId.antt =====
-- components/redis_deduplication/include/redis_deduplication/types.hpp, `MessageId`, with the two
-- keys made from one: `LocalCache::generateKey` and `MessageId::toRedisKey`.
use udp_to_rabbitmq_gateway.Base.{
  ℕ, zero, suc, ◌+◌, ◌-◌, ◌*◌, ◌/◌, ◌%◌, ◌<◌, ◌≡◌, refl, sym, ap, ◌∙◌, Bool, ◌&&◌, [], ◌∷◌, ◌++◌,
  arith, ltb, if◌then◌else◌, Bytes, ◌==◌, nat_eq, bytes_eq, bytes_beq_iff, Bool-cases, inl, inr,
  ◌⊎◌,
}

pub record MessageId : Type 0 where
  pub imei : Bytes
  pub sequence_number : ℕ

-- `std::to_string` of an unsigned number. A number below the fuel has all its digits.
unfoldable pub digits : ℕ → ℕ → Bytes
digits zero n = []
digits (suc f) n =
    let rest = digits f (n / 10) in
    if ltb n 10 then (b'0' + n) ∷ [] else rest ++ (b'0' + n % 10) ∷ []

unfoldable pub to_string : ℕ → Bytes
unfolding digits
to_string n = digits (suc n) n

-- `operator==`
unfoldable pub same_id : MessageId → MessageId → Bool
same_id a b = a.imei == b.imei && a.sequence_number == b.sequence_number

unfoldable pub generate_key : MessageId → Bytes
unfolding to_string
generate_key m = m.imei ++ b':' ∷ to_string m.sequence_number

unfoldable pub to_redis_key : MessageId → Bytes → Bytes
unfolding to_string
to_redis_key m prefix = prefix ++ b':' ∷ (m.imei ++ b':' ∷ to_string m.sequence_number)

-- The number that a decimal text stands for, after the digits of `acc`.
value_from : ℕ → Bytes → ℕ
value_from acc [] = acc
value_from acc (c ∷ cs) = value_from (acc * 10 + (c - b'0')) cs

value_from-append :
    (acc : ℕ) (s t : Bytes) → value_from acc (s ++ t) ≡ value_from (value_from acc s) t
unfolding value_from
value_from-append acc [] t = refl
value_from-append acc (c ∷ s) t = value_from-append (acc * 10 + (c - b'0')) s t

value_from-digits : (f n : ℕ) → n < f → value_from 0 (digits f n) ≡ n
unfolding value_from digits
value_from-digits zero n h = absurd (omega arith)
value_from-digits (suc f) n h = elim (Bool-cases (ltb n 10)) [
  | inl small ↦ rw small (omega arith)
  | inr big ↦
      rw (big, value_from-append 0 (digits f (n / 10)) ((b'0' + n % 10) ∷ []))
        (rw (value_from-digits f (n / 10) (ground arith)) (omega arith))
]

to_string-injective : (m n : ℕ) → to_string m ≡ to_string n → m ≡ n
unfolding to_string
to_string-injective m n e =
    sym (value_from-digits (suc m) m (omega arith))
    ∙ ap (value_from 0) e
    ∙ value_from-digits (suc n) n (omega arith)

abbrev NoColon : Bytes → Type 0
NoColon [] = Unit {0}
NoColon (c ∷ s) = (b':' < c ⊎ c < b':') × NoColon s

NoColon-append : (s t : Bytes) → NoColon s → NoColon t → NoColon (s ++ t)
NoColon-append [] t h k = k
NoColon-append (c ∷ s) t h k = (h.0, NoColon-append s t h.1 k)

digits-NoColon : (f n : ℕ) → NoColon (digits f n)
unfolding digits
digits-NoColon zero n = tt
digits-NoColon (suc f) n = elim (Bool-cases (ltb n 10)) [
  | inl small ↦ rw small (inr (ground arith), tt)
  | inr big ↦
      rw big
        (NoColon-append (digits f (n / 10)) _ (digits-NoColon f (n / 10)) (inr (omega arith), tt))
]

colon_in : (s t : Bytes) → NoColon (s ++ b':' ∷ t) → ⊥
colon_in [] t h = omega arith
colon_in (c ∷ s) t h = colon_in s t h.1

-- A text is cut at its last colon in one way.
split_unique :
    (a b s t : Bytes) → NoColon s → NoColon t → a ++ b':' ∷ s ≡ b ++ b':' ∷ t → (a ≡ b) × (s ≡ t)
split_unique [] [] s t h k e = (refl, cc)
split_unique [] (c ∷ b) s t h k e =
    absurd (colon_in b t (let e' : s ≡ b ++ b':' ∷ t = cc in rw (← e') h))
split_unique (c ∷ a) [] s t h k e =
    absurd (colon_in a s (let e' : a ++ b':' ∷ s ≡ t = cc in rw e' k))
split_unique (c ∷ a) (d ∷ b) s t h k e = let (p, q) = split_unique a b s t h k (cc) in (cc, q)

append_cancel : (p s t : Bytes) → p ++ s ≡ p ++ t → s ≡ t
append_cancel [] s t e = e
append_cancel (c ∷ p) s t e = append_cancel p s t (cc)

-- Two messages with one cache key are the same message, whatever bytes the device identifiers
-- hold: the text after the last colon is the sequence number.
generate_key-injective : (a b : MessageId) → generate_key a ≡ generate_key b → a ≡ b
unfolding generate_key to_string
generate_key-injective a b e =
    let (p, q) =
      split_unique a.imei b.imei (to_string a.sequence_number) (to_string b.sequence_number)
        (digits-NoColon (suc a.sequence_number) a.sequence_number)
        (digits-NoColon (suc b.sequence_number) b.sequence_number) e in
    let r = to_string-injective a.sequence_number b.sequence_number q in
    λ i. record { imei = p i; sequence_number = r i }

-- Under one prefix two different messages never share a Redis key.
to_redis_key-injective :
    (a b : MessageId) (prefix : Bytes) → to_redis_key a prefix ≡ to_redis_key b prefix → a ≡ b
unfolding to_redis_key generate_key
to_redis_key-injective a b prefix e = generate_key-injective a b (cc (append_cancel prefix _ _ e))

-- The cache key decides `operator==`.
pub same_id-generate_key : (a b : MessageId) → same_id a b ≡ (generate_key a == generate_key b)
unfolding same_id
same_id-generate_key a b = elim (Bool-cases (generate_key a == generate_key b)) [
  | inl e ↦
      let p = generate_key-injective a b ((bytes_beq_iff _ _).0 e) in
      rw (e, p) (ground (arith, (bytes_beq_iff b.imei b.imei).1 refl))
  | inr e ↦ ground (
    arith,
    bytes_beq_iff a.imei b.imei,
    bytes_beq_iff (generate_key a) (generate_key b),
    λ (p : a ≡ b). ap generate_key p,
  )
]
