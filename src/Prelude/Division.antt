-- ===== src/Prelude/Division.antt =====
-- Products and quotients of native numbers.
use Prim.Native.Nat.{ℕ, ◌+◌, ◌*◌, ◌/◌, ◌≤◌, ◌<◌}
use native.Mathlib.Nat.{
  mul-le-mul_left, mul_comm, le-div_iff_mul-le, div-mul-le_self, div-le_of_le-mul,
}
use native.Mathlib.Omega.{arith}

pub mul-add-le : (p a b c : ℕ) → a + b ≤ c → p * a + p * b ≤ p * c
mul-add-le p a b c h = omega (arith, mul-le-mul_left p h)

-- Rounding down a sum loses no more than rounding down its parts.
pub div-add-le : (a b c d : ℕ) → 0 < d → a + b ≤ c → a / d + b / d ≤ c / d
div-add-le a b c d pos h =
    (le-div_iff_mul-le pos).1 (omega (arith, div-mul-le_self a d, div-mul-le_self b d))

-- A share of at most the whole is at most one.
pub share-le : (p a b : ℕ) → a ≤ b → a * p / b ≤ p
share-le p a b h =
    div-le_of_le-mul b (omega (arith, mul-le-mul_left p h, mul_comm p a, mul_comm p b))
