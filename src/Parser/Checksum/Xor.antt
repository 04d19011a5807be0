-- ===== src/Parser/Checksum/Xor.antt =====
-- What the checksum needs of `^` on unsigned numbers: it undoes itself.
use Prim.Native.Nat.{bit_xor, bit_xor-bitwise, digits, differ}
use udp_to_rabbitmq_gateway.Base.{
  ℕ, zero, suc, ◌+◌, ◌*◌, ◌/◌, ◌%◌, ◌≤◌, ◌<◌, ◌≡◌, refl, ap, sym, ◌∙◌, arith,
}

-- The recursion behind `^`, on a count of digits.
abbrev xor_digits : ℕ → ℕ → ℕ → ℕ
xor_digits n a b = digits (λ d. d) differ n a b

xor_digits_enough : (n m a b : ℕ) → a ≤ n → a ≤ m → xor_digits n a b ≡ xor_digits m a b
xor_digits_enough zero zero zero b p q = refl
xor_digits_enough zero (suc m) zero b p q = refl
xor_digits_enough (suc n) zero zero b p q = refl
xor_digits_enough (suc n) (suc m) zero b p q = refl
xor_digits_enough zero m (suc a) b p q = absurd (omega arith)
xor_digits_enough (suc n) zero (suc a) b p q = absurd (omega arith)
xor_digits_enough (suc n) (suc m) (suc a) b p q =
    omega (arith, xor_digits_enough n m (suc a / 2) (b / 2) (omega arith) (omega arith))

differ_lem : (x y : ℕ) → x < 2 → y < 2 → differ x y ≡ (x + y) % 2
differ_lem zero zero p q = refl
differ_lem zero (suc zero) p q = refl
differ_lem (suc zero) zero p q = refl
differ_lem (suc zero) (suc zero) p q = refl
differ_lem x (suc (suc y)) p q = absurd (omega arith)
differ_lem (suc (suc x)) y p q = absurd (omega arith)

xor_zero : (b : ℕ) → bit_xor 0 b ≡ b
xor_zero b = bit_xor-bitwise 0 b

-- The lowest digit apart from the others.
xor_step : (a b : ℕ) → bit_xor a b ≡ bit_xor (a / 2) (b / 2) * 2 + (a % 2 + b % 2) % 2
xor_step zero b = omega (arith, xor_zero b, xor_zero (b / 2))
xor_step (suc a) b = omega (
  arith,
  bit_xor-bitwise (suc a) b,
  bit_xor-bitwise (suc a / 2) (b / 2),
  xor_digits_enough a (suc a / 2) (suc a / 2) (b / 2) (omega arith) (omega arith),
  differ_lem (suc a % 2) (b % 2) (omega arith) (omega arith),
)

halves : (a b : ℕ) → (bit_xor a b / 2 ≡ bit_xor (a / 2) (b / 2)) × (bit_xor a b % 2 ≡ (a + b) % 2)
halves a b = (omega (arith, xor_step a b), omega (arith, xor_step a b))

undo_right : (n a b : ℕ) → a ≤ n → b ≤ n → bit_xor (bit_xor a b) b ≡ a
undo_right zero zero zero p q = refl
undo_right zero (suc a) b p q = absurd (omega arith)
undo_right zero a (suc b) p q = absurd (omega arith)
undo_right (suc n) a b p q =
    let (high, low) = halves a b in
    let later = undo_right n (a / 2) (b / 2) (omega arith) (omega arith) in
    omega (arith, xor_step (bit_xor a b) b, ap (λ h. bit_xor h (b / 2)) high, low, later)

undo_left : (n a b : ℕ) → a ≤ n → b ≤ n → bit_xor a (bit_xor a b) ≡ b
undo_left zero zero zero p q = refl
undo_left zero (suc a) b p q = absurd (omega arith)
undo_left zero a (suc b) p q = absurd (omega arith)
undo_left (suc n) a b p q =
    let (high, low) = halves a b in
    let later = undo_left n (a / 2) (b / 2) (omega arith) (omega arith) in
    omega (arith, xor_step a (bit_xor a b), ap (λ h. bit_xor (a / 2) h) high, low, later)

pub xor_undo_right : (a b : ℕ) → bit_xor (bit_xor a b) b ≡ a
xor_undo_right a b = undo_right (a + b) a b (omega arith) (omega arith)

pub xor_undo_left : (a b : ℕ) → bit_xor a (bit_xor a b) ≡ b
xor_undo_left a b = undo_left (a + b) a b (omega arith) (omega arith)

pub xor_self : (a : ℕ) → bit_xor a a ≡ 0
xor_self a = ap (λ h. bit_xor h a) (sym (xor_zero a)) ∙ xor_undo_right 0 a
