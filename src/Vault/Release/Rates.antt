-- ===== src/Vault/Release/Rates.antt =====
-- The rates at which batches are released: together they promise no more than was received.
use native.Mathlib.Nat.{
  mul-le-mul_left, mul-le-mul_right, lt_of_mul-lt-mul_left, le_of_mul-le-mul_right, div-mul-le_self,
  lt-div-mul-add,
}
use prism_contracts.Prelude.{
  ℕ, ◌+◌, ◌-◌, ◌*◌, ◌/◌, ◌≤◌, ◌<◌, ◌≡◌, refl, true, false, List, [], ◌∷◌, arith, leb, ok,
  Bool-cases, inl, inr, zero, suc, sym,
}
use prism_contracts.Prelude.Lists.{length}
use native.Mathlib.Decide.{dec_le}
use prism_contracts.Cosmwasm.{reference, decimal_one}
use prism_contracts.SignedInt.{signed_difference, from_subtraction}
use prism_contracts.Vault.State.{UnbondHistory}
use prism_contracts.Vault.Release.{release_batch}
use prism_contracts.Vault.Release.Loops.{expected, total_expected, Releases}

-- The weight of a batch, and its share of an amount, rounded down.
abbrev pub weight : ℕ → UnbondHistory → ℕ
weight total h = expected h * decimal_one / total

abbrev pub share_of : ℕ → ℕ → UnbondHistory → ℕ
share_of s total h = s * weight total h / decimal_one

weights : ℕ → List UnbondHistory → ℕ
weights total [] = 0
weights total (h ∷ hs) = weight total h + weights total hs

shares : ℕ → ℕ → List UnbondHistory → ℕ
shares s total [] = 0
shares s total (h ∷ hs) = share_of s total h + shares s total hs

-- What all who wait for a batch can be paid at its rate.
abbrev pub payouts : List UnbondHistory → ℕ
payouts [] = 0
payouts (h ∷ hs) = h.amount * h.withdraw_rate / decimal_one + payouts hs

weights-upper :
    (t : ℕ) (hs : List UnbondHistory) → weights t hs * t ≤ total_expected hs * decimal_one
unfolding weights
weights-upper t [] = omega arith
weights-upper t (h ∷ hs) =
    omega (arith, weights-upper t hs, div-mul-le_self (expected h * decimal_one) t)

shares-upper : (s t : ℕ) (hs : List UnbondHistory) → shares s t hs * decimal_one ≤ s * weights t hs
unfolding weights shares
shares-upper s t [] = omega arith
shares-upper s t (h ∷ hs) =
    omega (arith, shares-upper s t hs, div-mul-le_self (s * weight t h) decimal_one)

-- The shares of a surplus are no more than the surplus.
shares-le :
    (s : ℕ) (hs : List UnbondHistory) → 0 < total_expected hs → shares s (total_expected hs) hs ≤ s
shares-le s hs pos =
    let w : weights (total_expected hs) hs ≤ decimal_one =
      le_of_mul-le-mul_right (omega (arith, weights-upper (total_expected hs) hs)) pos in
    omega (arith, shares-upper s (total_expected hs) hs, mul-le-mul_left s w)

weights-lower :
    (t : ℕ) (hs : List UnbondHistory)
    → 0 < t
    → total_expected hs * decimal_one + length hs ≤ (weights t hs + length hs) * t
unfolding weights
weights-lower t [] pos = omega arith
weights-lower t (h ∷ hs) pos =
    omega (arith, weights-lower t hs pos, lt-div-mul-add {a = expected h * decimal_one} pos)

shares-lower :
    (s t : ℕ) (hs : List UnbondHistory)
    → s * weights t hs + length hs ≤ (shares s t hs + length hs) * decimal_one
unfolding weights shares
shares-lower s t [] = omega arith
shares-lower s t (h ∷ hs) = omega (arith, shares-lower s t hs)

-- The shares of a loss, each rounded up, cover the loss, if it is not so large that the rounding of
-- the weights shows.
shares-ge :
    (s : ℕ) (hs : List UnbondHistory)
    → 0 < total_expected hs
    → 0 < length hs
    → s * length hs ≤ decimal_one
    → s ≤ shares s (total_expected hs) hs + length hs
shares-ge s hs pos some_batch small = elim (dec_le s (shares s t hs + n)) [
  | yes le ↦ le
  | no more ↦ absurd (
      omega (
        arith,
        shares-lower s t hs,
        mul-le-mul_left s heavy,
        mul-le-mul_right decimal_one (lt_of_not_le s (shares s t hs + n) more),
      ))
]
  where
    t : ℕ
    t = total_expected hs

    n : ℕ
    n = length hs

    lt_of_not_le : (a b : ℕ) → ¬ (a ≤ b) → b + 1 ≤ a
    lt_of_not_le a b h = omega arith

    heavy : decimal_one + 1 ≤ weights t hs + n
    heavy = omega (
      arith,
      lt_of_mul-lt-mul_left t {m = decimal_one} {n = weights t hs + n}
          (omega (arith, weights-lower t hs pos)),
    )

rate-le : (x a : ℕ) → a * (x * decimal_one / a) / decimal_one ≤ x
rate-le x a = omega (arith, div-mul-le_self (x * decimal_one) a)

-- A batch that gains brings what was expected and its share.
gain-le :
    (s total : ℕ) (h h' : UnbondHistory)
    → release_batch reference (record { magnitude = s; is_negative = true }) total h ≡ ok h'
    → h'.amount * h'.withdraw_rate / decimal_one ≤ expected h + share_of s total h
unfolding release_batch
gain-le s total h h' e = ground (arith, rate-le (expected h + (share_of s total h - 1)) h.amount)

-- A batch that loses brings what was expected less its share rounded up, if it has that much.
loss-le :
    (s total : ℕ) (h h' : UnbondHistory)
    → release_batch reference (record { magnitude = s; is_negative = false }) total h ≡ ok h'
    → 0 < s
    → share_of s total h + 1 ≤ expected h
    → h'.amount * h'.withdraw_rate / decimal_one + (share_of s total h + 1) ≤ expected h
unfolding release_batch from_subtraction
loss-le s total h h' e pos cover =
    ground (arith, rate-le (expected h - (share_of s total h + 1)) h.amount)

even-le :
    (total : ℕ) (h h' : UnbondHistory)
    → release_batch reference (record { magnitude = 0; is_negative = false }) total h ≡ ok h'
    → h'.amount * h'.withdraw_rate / decimal_one ≤ expected h
unfolding release_batch from_subtraction
even-le total h h' e = ground (arith, rate-le (expected h) h.amount)

-- Every batch has at least its share of the loss.
abbrev pub Covers : ℕ → ℕ → List UnbondHistory → Type 0
Covers s total [] = Unit {0}
Covers s total (h ∷ hs) = (share_of s total h + 1 ≤ expected h) × Covers s total hs

gains-le :
    (s total : ℕ) (hs hs' : List UnbondHistory)
    → Releases (record { magnitude = s; is_negative = true }) total hs hs'
    → payouts hs' ≤ total_expected hs + shares s total hs
unfolding shares
gains-le s total [] [] r = omega arith
gains-le s total [] (h' ∷ hs') r = absurd r
gains-le s total (h ∷ hs) [] r = absurd r
gains-le s total (h ∷ hs) (h' ∷ hs') r =
    omega (arith, gain-le s total h h' r.0, gains-le s total hs hs' r.1)

losses-le :
    (s total : ℕ) (hs hs' : List UnbondHistory)
    → 0 < s
    → Covers s total hs
    → Releases (record { magnitude = s; is_negative = false }) total hs hs'
    → payouts hs' + (shares s total hs + length hs) ≤ total_expected hs
unfolding shares
losses-le s total [] [] pos c r = omega arith
losses-le s total [] (h' ∷ hs') pos c r = absurd r
losses-le s total (h ∷ hs) [] pos c r = absurd r
losses-le s total (h ∷ hs) (h' ∷ hs') pos c r =
    omega (arith, loss-le s total h h' r.0 pos c.0, losses-le s total hs hs' pos c.1 r.1)

evens-le :
    (total : ℕ) (hs hs' : List UnbondHistory)
    → Releases (record { magnitude = 0; is_negative = false }) total hs hs'
    → payouts hs' ≤ total_expected hs
evens-le total [] [] r = omega arith
evens-le total [] (h' ∷ hs') r = absurd r
evens-le total (h ∷ hs) [] r = absurd r
evens-le total (h ∷ hs) (h' ∷ hs') r =
    omega (arith, even-le total h h' r.0, evens-le total hs hs' r.1)

-- All that the released batches promise was received, for a surplus, for no difference, and for a
-- loss that every batch can bear.
pub payouts-le :
    (actual : ℕ) (hs hs' : List UnbondHistory)
    → let total = total_expected hs in
      let loss = total - actual in
      0 < total
      → 0 < length hs
      → (0 < loss → Covers loss total hs × (loss * length hs ≤ decimal_one))
      → Releases (signed_difference total actual) total hs hs'
      → payouts hs' ≤ actual
payouts-le actual hs hs' pos n bear r = elim (Bool-cases (leb actual total)) [
  | inr more ↦ omega (
    arith,
    leb-false actual total more,
    gains-le (actual - total) total hs hs' (rw more at r),
    shares-le (actual - total) hs pos,
  )
  | inl less ↦ loses (total - actual) refl (rw less at r)
]
  where
    total : ℕ
    total = total_expected hs

    leb-false : (a b : ℕ) → leb a b ≡ false → b < a
    leb-false a b e = ground arith

    loses :
        (s : ℕ)
        → s ≡ total - actual
        → Releases (record { magnitude = total - actual; is_negative = false }) total hs hs'
        → payouts hs' ≤ actual
    loses zero e r' = omega (arith, evens-le total hs hs' (rw (sym e) at r'))
    loses (suc s) e r' =
        let pos' : 0 < total - actual = omega arith in
        omega (
          arith,
          losses-le (total - actual) total hs hs' pos' (bear pos').0 r',
          shares-ge (total - actual) hs pos n (bear pos').1,
        )
