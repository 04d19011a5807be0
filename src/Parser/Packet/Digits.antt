-- ===== src/Parser/Packet/Digits.antt =====
-- What the parser takes from the header of a packet.
use udp_to_rabbitmq_gateway.Base.{
  ℕ, zero, suc, ◌+◌, ◌/◌, ◌%◌, ◌≡◌, refl, Bool, true, false, ◌&&◌, Option, none, some, ◌∷◌, Bytes,
  length, leb, ltb, nat_beq, if◌then◌else◌, ◌>>=◌, arith,
}
use udp_to_rabbitmq_gateway.Parser.Packet.{
  PacketHeader, read, read32, read_imei, read_header, parse_header, only_digits,
}

abbrev pub HoldsOf : {A : Type 0} → (A → Type 0) → Option A → Type 0
HoldsOf P none = Unit {0}
HoldsOf P (some a) = P a

trivial : {A : Type 0} (o : Option A) → HoldsOf (λ a. Unit {0}) o
trivial none = tt
trivial (some a) = tt

bind-HoldsOf :
    {A B : Type 0} (P : A → Type 0) (Q : B → Type 0) (o : Option A) (k : A → Option B)
    → HoldsOf P o
    → ((a : A) → P a → HoldsOf Q (k a))
    → HoldsOf Q (o >>= k)
bind-HoldsOf P Q none k p f = tt
bind-HoldsOf P Q (some a) k p f = f a p

kept_digit :
    (digit : ℕ) (rest : Bytes)
    → only_digits rest ≡ true
    → only_digits (if leb digit 9 then (b'0' + digit) ∷ rest else rest) ≡ true
unfolding only_digits
kept_digit digit rest h = ground arith

-- Of every digit that is kept the IMEI has its character, so that it holds digits only.
read_imei-digits :
    (data_ : Bytes) (i n : ℕ) → HoldsOf (λ r. only_digits r ≡ true) (read_imei data_ i n)
unfolding read_imei only_digits
read_imei-digits data_ i zero = refl
read_imei-digits data_ i (suc n) =
    bind-HoldsOf (λ b. Unit {0}) _ (read data_ (5 + i / 2)) _ (trivial (read data_ (5 + i / 2)))
      (λ b u.
        bind-HoldsOf (λ r. only_digits r ≡ true) _ (read_imei data_ (suc i) n) _
          (read_imei-digits data_ (suc i) n)
          (λ r d. kept_digit (if nat_beq (i % 2) 0 then b % 16 else b / 16 % 16) r d))

either_HoldsOf :
    {A : Type 0} (P : A → Type 0) (b : Bool) (x y : Option A)
    → HoldsOf P x
    → HoldsOf P y
    → HoldsOf P (if b then x else y)
either_HoldsOf P true x y p q = p
either_HoldsOf P false x y p q = q

-- The device identifier of every header that the parser takes consists of decimal digits, whatever
-- the packet holds: the validation error for other characters is never added.
parse_header-digits :
    (data_ : Bytes) → HoldsOf (HoldsOf (λ h. only_digits h.imei ≡ true)) (parse_header data_)
unfolding parse_header read_header
parse_header-digits data_ =
    let Any = λ (b : ℕ). Unit {0} in
    let Q = λ (h : PacketHeader). only_digits h.imei ≡ true in
    let byte = λ (i : ℕ). trivial (read data_ i) in
    either_HoldsOf (HoldsOf Q) (ltb (length data_) 19) _ _ tt (
      bind-HoldsOf Any (HoldsOf Q) (read data_ 0) _ (byte 0) (λ a u.
        bind-HoldsOf Any (HoldsOf Q) (read data_ 1) _ (byte 1) (λ b u.
          either_HoldsOf (HoldsOf Q) (nat_beq a 0xAA && nat_beq b 0xBB) _ _
            (bind-HoldsOf Q (HoldsOf Q) (read_header data_) _
              (bind-HoldsOf Any Q (read data_ 2) _ (byte 2) (λ c u.
                bind-HoldsOf Any Q (read data_ 3) _ (byte 3) (λ d u.
                  bind-HoldsOf Any Q (read data_ 4) _ (byte 4) (λ e u.
                    bind-HoldsOf (λ r. only_digits r ≡ true) Q (read_imei data_ 0 15) _
                      (read_imei-digits data_ 0 15)
                      (λ r digits.
                        bind-HoldsOf Any Q (read32 data_ 13) _ (trivial (read32 data_ 13))
                          (λ f u. digits))))))
              (λ h digits. digits))
            tt)))
