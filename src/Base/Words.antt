-- ===== src/Base/Words.antt =====
-- Counters of 64 and of 32 bits, which wrap around.
use Prim.Native.Nat.{ℕ, ◌+◌, ◌%◌, ◌^◌, ◌<◌}
use mathlib.Core.Path.{◌≡◌}
use native.Mathlib.Omega.{arith}

-- `c++` and `c += k`
unfoldable pub add64 : ℕ → ℕ → ℕ
add64 c k = (c + k) % 2 ^ 64

pub add64_small : (c k : ℕ) → c + k < 2 ^ 64 → add64 c k ≡ c + k
unfolding add64
add64_small c k h = omega arith

pub add64-add64 : (c j k : ℕ) → add64 (add64 c j) k ≡ add64 c (j + k)
unfolding add64
add64-add64 c j k = omega arith

-- `c++` and `c += k` of a 32-bit integer, which is kept as its bits: a signed one is negative from
-- 2 ^ 31 on.
unfoldable pub add32 : ℕ → ℕ → ℕ
add32 c k = (c + k) % 2 ^ 32
