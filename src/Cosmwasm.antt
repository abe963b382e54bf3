-- ===== src/Cosmwasm.antt =====
-- What the contracts use of `cosmwasm_std`, which is not in the repository: `Uint128`, `Decimal` and
-- `Api`. The operations are a parameter, and `IsStd` states their documented behaviour.
use prism_contracts.Prelude.{
  ℕ, ◌+◌, ◌-◌, ◌*◌, ◌/◌, ◌^◌, ◌≡◌, refl, Option, none, some, ltb, leb, ◌==◌, if◌then◌else◌,
}

-- A `Uint128` is the number it wraps.
abbrev pub u128_size : ℕ
u128_size = 2 ^ 128

-- A `Decimal` is its number of units of 10^-18.
abbrev pub Decimal : Type 0
Decimal = ℕ

abbrev pub decimal_one : ℕ
decimal_one = 10 ^ 18

-- The operations; `none` is a panic, and for `checked_sub` an `OverflowError`.
pub record Std : Type 0 where
  pub add : ℕ → ℕ → Option ℕ
  pub sub : ℕ → ℕ → Option ℕ
  pub checked_sub : ℕ → ℕ → Option ℕ
  pub mul : ℕ → ℕ → Option ℕ
  pub multiply_ratio : ℕ → ℕ → ℕ → Option ℕ
  pub mul_decimal : ℕ → Decimal → Option ℕ
  pub from_ratio : ℕ → ℕ → Option Decimal
  pub add_decimal : Decimal → Decimal → Option Decimal

abbrev pub in_u128 : ℕ → Option ℕ
in_u128 n = if ltb n u128_size then some n else none

abbrev pub ratio : ℕ → ℕ → ℕ → Option ℕ
ratio a n d = if d == 0 then none else in_u128 (a * n / d)

abbrev pub difference : ℕ → ℕ → Option ℕ
difference a b = if leb b a then some (a - b) else none

pub record IsStd (s : Std) : Type 0 where
  pub add_eq : (a b : ℕ) → s.add a b ≡ in_u128 (a + b)
  pub sub_eq : (a b : ℕ) → s.sub a b ≡ difference a b
  pub checked_sub_eq : (a b : ℕ) → s.checked_sub a b ≡ difference a b
  pub mul_eq : (a b : ℕ) → s.mul a b ≡ in_u128 (a * b)
  pub multiply_ratio_eq : (a n d : ℕ) → s.multiply_ratio a n d ≡ ratio a n d
  pub mul_decimal_eq : (a : ℕ) (d : Decimal) → s.mul_decimal a d ≡ ratio a d decimal_one
  pub from_ratio_eq : (a b : ℕ) → s.from_ratio a b ≡ ratio a decimal_one b
  pub add_decimal_eq : (a b : Decimal) → s.add_decimal a b ≡ in_u128 (a + b)

-- Operations that behave so.
abbrev pub reference : Std
reference = record {
  add = λ a b. in_u128 (a + b);
  sub = difference;
  checked_sub = difference;
  mul = λ a b. in_u128 (a * b);
  multiply_ratio = ratio;
  mul_decimal = λ a d. ratio a d decimal_one;
  from_ratio = λ a b. ratio a decimal_one b;
  add_decimal = λ a b. in_u128 (a + b);
}

pub reference-IsStd : IsStd reference
reference-IsStd = record {
  add_eq = λ a b. refl;
  sub_eq = λ a b. refl;
  checked_sub_eq = λ a b. refl;
  mul_eq = λ a b. refl;
  multiply_ratio_eq = λ a n d. refl;
  mul_decimal_eq = λ a d. refl;
  from_ratio_eq = λ a b. refl;
  add_decimal_eq = λ a b. refl;
}

-- The documented behaviour determines the operations, so a proof may compute with them.
pub determined : {s : Std} → IsStd s → s ≡ reference
determined h = λ i. record {
  add = λ a b. h.add_eq a b i;
  sub = λ a b. h.sub_eq a b i;
  checked_sub = λ a b. h.checked_sub_eq a b i;
  mul = λ a b. h.mul_eq a b i;
  multiply_ratio = λ a n d. h.multiply_ratio_eq a n d i;
  mul_decimal = λ a d. h.mul_decimal_eq a d i;
  from_ratio = λ a b. h.from_ratio_eq a b i;
  add_decimal = λ a b. h.add_decimal_eq a b i;
}
