-- ===== src/Storage/Sums.antt =====
-- Sums over addresses, and bounds on all of them: what a total that a contract keeps must cover.
use prism_contracts.Prelude.{
  ℕ, ◌+◌, ◌≤◌, ◌≡◌, ◌≢◌, ◌⊎◌, refl, sym, ap, subst, inl, inr, List, [], ◌∷◌, arith, str_eq,
  str_eq_iff, Bool-cases,
}
use prism_contracts.Storage.{Addr}

abbrev pub sum_by : (Addr → ℕ) → List Addr → ℕ
sum_by f [] = 0
sum_by f (a ∷ xs) = f a + sum_by f xs

abbrev pub NotIn : Addr → List Addr → Type 0
NotIn a [] = Unit {0}
NotIn a (b ∷ bs) = (a ≢ b) × NotIn a bs

abbrev pub IsDistinct : List Addr → Type 0
IsDistinct [] = Unit {0}
IsDistinct (a ∷ xs) = NotIn a xs × IsDistinct xs

-- The sum over any stakers, each once, is at most `n`.
abbrev pub IsBounded : (Addr → ℕ) → ℕ → Type 0
IsBounded f n = (xs : List Addr) → IsDistinct xs → sum_by f xs ≤ n

module _ (f g : Addr → ℕ) (a : Addr) (same : (b : Addr) → b ≢ a → g b ≡ f b) where
  sum_elsewhere : (xs : List Addr) → NotIn a xs → sum_by g xs ≡ sum_by f xs
  sum_elsewhere [] h = refl
  sum_elsewhere (b ∷ bs) (ne, h) =
      let here = same b (λ e. ne (sym e)) in omega (arith, here, sum_elsewhere bs h)

  sum_changed :
      (xs : List Addr)
      → IsDistinct xs
      → (NotIn a xs × (sum_by g xs ≡ sum_by f xs)) ⊎ (sum_by g xs + f a ≡ sum_by f xs + g a)
  sum_changed [] h = inl (tt, refl)
  sum_changed (b ∷ bs) h = elim (Bool-cases (str_eq a b)) [
    | inl eq ↦
        let here = (str_eq_iff a b).0 eq in
        inr (
          omega (
            arith,
            sum_elsewhere bs (subst (λ c. NotIn c bs) (sym here) h.0),
            ap f here,
            ap g here,
          ))
    | inr ne ↦
        let apart : a ≢ b = λ e. absurd (ground (arith, (str_eq_iff a b).1 e)) in
        let there = same b (λ e. apart (sym e)) in
        elim (sum_changed bs h.1) [
          | inl (out, eq) ↦ inl ((apart, out), omega arith)
          | inr eq ↦ inr (omega arith)
        ]
  ]

  -- A bound that follows a change for one staker.
  pub IsBounded-change : (n m : ℕ) → m + f a ≡ n + g a → IsBounded f n → IsBounded g m
  IsBounded-change n m e h xs d = elim (sum_changed xs d) [
    | inl (out, eq) ↦ omega (arith, h (a ∷ xs) (out, d))
    | inr eq ↦ omega (arith, h xs d)
  ]

sum_same :
    (f g : Addr → ℕ) → ((a : Addr) → g a ≡ f a) → (xs : List Addr) → sum_by g xs ≡ sum_by f xs
sum_same f g same [] = refl
sum_same f g same (b ∷ bs) = omega (arith, same b, sum_same f g same bs)

pub IsBounded-same :
    (f g : Addr → ℕ) (n m : ℕ) → ((a : Addr) → g a ≡ f a) → n ≡ m → IsBounded f n → IsBounded g m
IsBounded-same f g n m same e h xs d = omega (arith, sum_same f g same xs, h xs d)

sum_none : (xs : List Addr) → sum_by (λ _. 0) xs ≤ 0
sum_none [] = omega arith
sum_none (x ∷ xs) = omega (arith, sum_none xs)

pub IsBounded-none : IsBounded (λ _. 0) 0
IsBounded-none xs distinct = sum_none xs
