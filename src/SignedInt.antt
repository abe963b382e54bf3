-- ===== src/SignedInt.antt =====
-- packages/signed_integers: the difference of two amounts, as a magnitude and a sign.
use prism_contracts.Prelude.{
  ℕ, ◌-◌, ◌≡◌, Bool, true, false, none, some, arith, leb, Result, ok, ◌>>=◌, or_panic,
  if◌then◌else◌,
}
use prism_contracts.Cosmwasm.{Std, IsStd, determined}

-- `is_negative` is the field `1`: false means that the value is positive.
pub record SignedInt : Type 0 where
  pub magnitude : ℕ
  pub is_negative : Bool

-- The second subtraction is unwrapped.
unfoldable pub from_subtraction : Std → {E : Type 0} → ℕ → ℕ → Result E SignedInt
from_subtraction ops minuend subtrahend = elim (ops.checked_sub minuend subtrahend) [
  | none ↦ or_panic (ops.checked_sub subtrahend minuend) >>= λ d.
      ok (record { magnitude = d; is_negative = true })
  | some d ↦ ok (record { magnitude = d; is_negative = false })
]

abbrev pub signed_difference : ℕ → ℕ → SignedInt
signed_difference a b =
    if leb b a
    then record { magnitude = a - b; is_negative = false }
    else record { magnitude = b - a; is_negative = true }

-- The subtraction never fails: it is the distance, negative exactly when the first is smaller.
pub from_subtraction-total :
    (ops : Std) (h : IsStd ops) {E : Type 0} (a b : ℕ)
    → from_subtraction ops {E = E} a b ≡ ok (signed_difference a b)
unfolding from_subtraction
from_subtraction-total ops h a b = rw (determined h) (ground arith)
