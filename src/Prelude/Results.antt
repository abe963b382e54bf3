-- ===== src/Prelude/Results.antt =====
-- What a call of a contract ends in: a value, an error, or a panic, which aborts the transaction
-- (the workspace is built with `panic = 'abort'` and `overflow-checks = true`).
use Prim.Native.Nat.{ℕ, ◌+◌, ◌-◌, ◌^◌}
use mathlib.Core.Path.{◌≡◌, refl}
use mathlib.Core.Logic.{◌⊎◌, inl, inr}
use mathlib.Core.Bool.{Bool, true, false}
use mathlib.Core.Option.{Option, none, some}
use native.Mathlib.Omega.{arith}
use prism_contracts.Prelude.Tests.{ltb, leb, if◌then◌else◌}

pub data Result (E A : Type 0) : Type 0 where
  ok : A → Result E A
  err : E → Result E A
  panic : Result E A

infixl 5 ◌>>=◌ ◌>>◌
abbrev pub ◌>>=◌ : {E A B : Type 0} → Result E A → (A → Result E B) → Result E B
ok a >>= f = f a
err e >>= f = err e
panic >>= f = panic

abbrev pub ◌>>◌ : {E B : Type 0} → Result E (Unit {0}) → Result E B → Result E B
m >> k = m >>= λ _. k

-- `if c { return Err(e) }`
abbrev pub fail_if : {E : Type 0} → Bool → E → Result E (Unit {0})
fail_if true e = err e
fail_if false e = ok tt

-- `x.ok_or(e)?`
abbrev pub or_err : {E A : Type 0} → Option A → E → Result E A
or_err none e = err e
or_err (some a) e = ok a

-- `x.unwrap()`, or an operation that panics
abbrev pub or_panic : {E A : Type 0} → Option A → Result E A
or_panic none = panic
or_panic (some a) = ok a

-- `r.unwrap()`
abbrev pub unwrap : {E F A : Type 0} → Result E A → Result F A
unwrap (ok a) = ok a
unwrap (err e) = panic
unwrap panic = panic

-- `r.map_err(f)?`, also by `From`
abbrev pub map_err : {E F A : Type 0} → (E → F) → Result E A → Result F A
map_err f (ok a) = ok a
map_err f (err e) = err (f e)
map_err f panic = panic

abbrev pub unwrap_or : {A : Type 0} → Option A → A → A
unwrap_or none d = d
unwrap_or (some a) d = a

-- `u64` arithmetic, checked because of `overflow-checks = true`
abbrev pub u64_size : ℕ
u64_size = 2 ^ 64

abbrev pub add_u64 : {E : Type 0} → ℕ → ℕ → Result E ℕ
add_u64 a b = if ltb (a + b) u64_size then ok (a + b) else panic

abbrev pub sub_u64 : {E : Type 0} → ℕ → ℕ → Result E ℕ
sub_u64 a b = if leb b a then ok (a - b) else panic

-- To split on a call and keep the equation.
pub Result-cases :
    {E A : Type 0} (m : Result E A) → ((a : A) × (m ≡ ok a)) ⊎ ((e : E) × (m ≡ err e)) ⊎ (m ≡ panic)
Result-cases (ok a) = inl (a, refl)
Result-cases (err e) = inr (inl (e, refl))
Result-cases panic = inr (inr refl)

-- A call that goes through came through its first step, and the rest goes through with its value.
pub bind-ok :
    {E A B : Type 0} {P : Type 0} (m : Result E A) {f : A → Result E B} {b : B}
    → (m >>= f) ≡ ok b
    → ((a : A) → m ≡ ok a → f a ≡ ok b → P)
    → P
bind-ok (ok a) e k = k a refl e
bind-ok (err x) e k = absurd (ground arith)
bind-ok panic e k = absurd (ground arith)
