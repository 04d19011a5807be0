-- ===== src/Parser/Checksum/Detect.antt =====
-- What the checksum finds out.
use Prim.Native.Nat.{bit_xor}
use udp_to_rabbitmq_gateway.Base.{
  ℕ, suc, ◌-◌, ◌≡◌, refl, sym, ap, ◌∙◌, ◌≢◌, true, false, Bool-cases, inl, inr, [], ◌∷◌, ◌++◌,
  Bytes, length, take, get_or, nat_beq, ltb, if-false, nat_beq_iff, arith, length-append,
  take-append,
}
use udp_to_rabbitmq_gateway.Parser.Checksum.{xor_from, verify_checksum}
use udp_to_rabbitmq_gateway.Parser.Checksum.Xor.{xor_undo_right, xor_undo_left, xor_self}

xor_from-append :
    (sum : ℕ) (xs ys : Bytes) → xor_from sum (xs ++ ys) ≡ xor_from (xor_from sum xs) ys
unfolding xor_from
xor_from-append sum [] ys = refl
xor_from-append sum (x ∷ xs) ys = xor_from-append (bit_xor sum x) xs ys

xor_from-injective : (xs : Bytes) (a b : ℕ) → xor_from a xs ≡ xor_from b xs → a ≡ b
unfolding xor_from
xor_from-injective [] a b e = e
xor_from-injective (x ∷ xs) a b e =
    sym (xor_undo_right a x)
    ∙ ap (λ h. bit_xor h x) (xor_from-injective xs (bit_xor a x) (bit_xor b x) e)
    ∙ xor_undo_right b x

-- With the last byte taken in, what verifies comes to nothing.
sum_zero :
    (sum x : ℕ) (xs : Bytes)
    → nat_beq (xor_from sum (take (length xs) (x ∷ xs))) (get_or (x ∷ xs) (length xs) 0) ≡ true
    → xor_from sum (x ∷ xs) ≡ 0
unfolding xor_from
sum_zero sum x [] h = ap (λ z. bit_xor z x) ((nat_beq_iff sum x).0 h) ∙ xor_self x
sum_zero sum x (y ∷ ys) h = sum_zero (bit_xor sum x) y ys h

empty : verify_checksum [] ≡ true → ⊥
unfolding verify_checksum
empty h = cc

-- All but the last byte, and the last.
passes :
    (x : ℕ) (xs : Bytes)
    → verify_checksum (x ∷ xs)
      ≡ nat_beq (xor_from 0 (take (length xs) (x ∷ xs))) (get_or (x ∷ xs) (length xs) 0)
unfolding verify_checksum
passes x xs =
    let n : suc (length xs) - 1 ≡ length xs = omega arith in
    rw n (if-false (ltb (suc (length xs)) 1) _ _ (ground arith))

verify_checksum-zero : (xs : Bytes) → verify_checksum xs ≡ true → xor_from 0 xs ≡ 0
verify_checksum-zero [] h = absurd (empty h)
verify_checksum-zero (x ∷ xs) h = sum_zero 0 x xs (sym (passes x xs) ∙ h)

only_one :
    (before after : Bytes) (b c : ℕ)
    → verify_checksum (before ++ b ∷ after) ≡ true
    → verify_checksum (before ++ c ∷ after) ≡ true
    → b ≡ c
unfolding xor_from
only_one before after b c p q =
    let s = xor_from 0 before in
    let sums =
      sym (xor_from-append 0 before (b ∷ after))
      ∙ verify_checksum-zero (before ++ b ∷ after) p
      ∙ sym (verify_checksum-zero (before ++ c ∷ after) q)
      ∙ xor_from-append 0 before (c ∷ after) in
    sym (xor_undo_left s b)
    ∙ ap (bit_xor s) (xor_from-injective after (bit_xor s b) (bit_xor s c) sums)
    ∙ xor_undo_left s c

-- A packet that passes and of which a single byte is then changed, wherever it stands, does not pass.
pub verify_checksum-detects :
    (before after : Bytes) (b c : ℕ)
    → verify_checksum (before ++ b ∷ after) ≡ true
    → b ≢ c
    → verify_checksum (before ++ c ∷ after) ≡ false
verify_checksum-detects before after b c p different =
    elim (Bool-cases (verify_checksum (before ++ c ∷ after))) [
      | inl passed ↦ absurd (different (only_one before after b c p passed))
      | inr failed ↦ failed
    ]

get_or-append : (xs : Bytes) (y d : ℕ) → get_or (xs ++ y ∷ []) (length xs) d ≡ y
get_or-append [] y d = refl
get_or-append (x ∷ xs) y d = get_or-append xs y d

sealed_sum :
    (sum : ℕ) (xs : Bytes) (y : ℕ)
    → xor_from sum (take (length xs) (xs ++ y ∷ [])) ≡ xor_from sum xs
sealed_sum sum xs y = ap (xor_from sum) (take-append xs (y ∷ []))

-- Bytes with the sum of them behind pass.
pub sealed_passes :
    (xs : Bytes) (sum : ℕ) → sum ≡ xor_from 0 xs → verify_checksum (xs ++ sum ∷ []) ≡ true
unfolding verify_checksum xor_from
sealed_passes [] sum e = (nat_beq_iff 0 sum).1 (sym e)
sealed_passes (x ∷ xs) sum e =
    let n : length (xs ++ sum ∷ []) ≡ suc (length xs) =
      omega (arith, length-append xs (sum ∷ [])) in
    passes x (xs ++ sum ∷ [])
    ∙ rw (n, sealed_sum (bit_xor 0 x) xs sum, get_or-append xs sum 0)
        ((nat_beq_iff (xor_from 0 (x ∷ xs)) sum).1 (sym e))
