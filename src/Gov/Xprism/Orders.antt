-- ===== src/Gov/Xprism/Orders.antt =====
-- The orders of a user, and which of them a claim takes.
use prism_contracts.Prelude.{
  ℕ, ◌+◌, ◌-◌, ◌≤◌, ◌<◌, ◌≡◌, ◌≢◌, refl, if◌then◌else◌, ap, ◌∙◌, some, List, [], ◌∷◌, arith, ok,
  ltb, Result-cases, Option-cases, Bool-cases, inl, inr, str_eq_iff, str_eq_refl,
}
use prism_contracts.Prelude.Lists.{length, take_all}
use prism_contracts.Cosmwasm.{Std, IsStd, reference, determined}
use prism_contracts.Storage.{Addr, set_at}
use prism_contracts.Storage.Ordered.{OrderedMap, IsOrdered}
use prism_contracts.Gov.{Amounts, Store}
use prism_contracts.Gov.Xprism.{due_orders, remove_orders, compute_withdrawable}

abbrev pub orders_sum : OrderedMap Amounts → Amounts
orders_sum [] = record { xprism = 0; prism = 0 }
orders_sum ((t, a) ∷ m) =
    let rest = orders_sum m in
    record { xprism = a.xprism + rest.xprism; prism = a.prism + rest.prism }

-- The orders that are due, and those that are not, wherever they stand.
abbrev pub due : ℕ → OrderedMap Amounts → OrderedMap Amounts
due time [] = []
due time ((t, a) ∷ m) = let rest = due time m in if ltb time t then rest else (t, a) ∷ rest

abbrev pub not_due : ℕ → OrderedMap Amounts → OrderedMap Amounts
not_due time [] = []
not_due time ((t, a) ∷ m) = let rest = not_due time m in if ltb time t then (t, a) ∷ rest else rest

-- After an order that is not due, none is.
all_later :
    (time n : ℕ) (m : OrderedMap Amounts)
    → IsOrdered n m
    → time < n
    → (due time m ≡ []) × (not_due time m ≡ m)
all_later time n [] o lt = (refl, refl)
all_later time n ((t, a) ∷ m) o lt =
    let rest = all_later time (t + 1) m o.1 (omega (arith, o.0)) in
    (ground (arith, rest.0, o.0), ground (arith, rest.1, o.0))

-- Removing the due orders, which come first, takes their sum and leaves the others.
due_orders-split :
    (time n : ℕ) (m : OrderedMap Amounts) (w sum : Amounts) (times : List ℕ)
    → IsOrdered n m
    → due_orders reference time m w ≡ ok (sum, times)
    → (remove_orders times m ≡ not_due time m)
      × (sum.xprism ≡ w.xprism + (orders_sum (due time m)).xprism)
      × (sum.prism ≡ w.prism + (orders_sum (due time m)).prism)
unfolding due_orders remove_orders
due_orders-split time n [] w sum times o e = (ground arith, ground arith, ground arith)
due_orders-split time n ((t, a) ∷ m) w sum times o e = elim (Bool-cases (ltb time t)) [
  | inl early ↦
      let rest = all_later time (t + 1) m o.1 (ground arith) in
      (ground (arith, rest.1), ground (arith, rest.0), ground (arith, rest.0))
  | inr late ↦
      let w' : Amounts = record { xprism = w.xprism + a.xprism; prism = w.prism + a.prism } in
      elim (Result-cases (due_orders reference time m w')) [
        | inr bad ↦ absurd (ground arith)
        | inl ((sum', times'), run) ↦
            let (others, x, p) = due_orders-split time (t + 1) m w' sum' times' o.1 run in
            (ground (arith, others), ground (arith, x), ground (arith, p))
      ]
]

same_amounts : (a b : Amounts) → a.xprism ≡ b.xprism → a.prism ≡ b.prism → a ≡ b
same_amounts a b x p = λ i. record { xprism = x i; prism = p i }

-- What a claim that succeeds does to the store.
abbrev pub Claim : Store → Store → ℕ → Addr → Amounts → Type 0
Claim s t time address w =
    (pending : Amounts) × (pending' : Amounts) × (s.total_pending ≡ some pending)
    × (t.total_pending ≡ some pending')
    × (pending'.xprism + w.xprism ≡ pending.xprism)
    × (pending'.prism + w.prism ≡ pending.prism)
    × (t.withdraw_orders address ≡ not_due time (s.withdraw_orders address))
    × (w ≡ orders_sum (due time (s.withdraw_orders address)))
    × ((j : Addr) → j ≢ address → t.withdraw_orders j ≡ s.withdraw_orders j)

set_at_other :
    (a j : Addr) (m : OrderedMap Amounts) (f : Addr → OrderedMap Amounts)
    → j ≢ a
    → set_at a m f j ≡ f j
set_at_other a j m f other = ground (arith, str_eq_iff a j)

Claim-at :
    (s t : Store) (time : ℕ) (address : Addr) (w : Amounts)
    → IsOrdered 0 (s.withdraw_orders address)
    → length (s.withdraw_orders address) ≤ 50
    → compute_withdrawable reference s time address ≡ ok (t, w)
    → Claim s t time address w
unfolding compute_withdrawable
Claim-at s t time address w o le e =
    let orders = s.withdraw_orders address in
    let all = take_all 50 orders le in
    let none_yet : Amounts = record { xprism = 0; prism = 0 } in
    elim (Result-cases (due_orders reference time orders none_yet)) [
      | inr bad ↦ absurd (ground (arith, all))
      | inl ((sum, times), run) ↦ elim (Option-cases s.total_pending) [
        | inl bad ↦ absurd (ground (arith, all))
        | inr (pending, e1) ↦
            let left = remove_orders times orders in
            let pending' : Amounts = record {
              xprism = pending.xprism - w.xprism;
              prism = pending.prism - w.prism;
            } in
            let paid : w ≡ sum = ground (arith, all) in
            let after : t.withdraw_orders address ≡ left =
              ground (arith, all, str_eq_refl address) in
            let stored : t.total_pending ≡ some pending' = ground (arith, all) in
            let enough_x : pending'.xprism + w.xprism ≡ pending.xprism = ground (arith, all) in
            let enough_p : pending'.prism + w.prism ≡ pending.prism = ground (arith, all) in
            let new : t.withdraw_orders ≡ set_at address left s.withdraw_orders =
              ground (arith, all) in
            let (others, x, p) = due_orders-split time 0 orders none_yet sum times o run in
            let due_sum = orders_sum (due time orders) in
            let all_due = same_amounts sum due_sum (omega (arith, x)) (omega (arith, p)) in
            (
              pending,
              pending',
              e1,
              stored,
              enough_x,
              enough_p,
              after ∙ others,
              paid ∙ all_due,
              λ j other. ap (λ f. f j) new ∙ set_at_other address j left s.withdraw_orders other,
            )
      ]
    ]

module _ (ops : Std) (law : IsStd ops) where
  -- A claim on at most 50 orders, kept in the order of their times, takes the due ones and no others:
  -- it pays the sum of the due orders, which leaves the pending total, exactly the orders that are
  -- not due are left, and the orders of all others are untouched.
  pub compute_withdrawable-Claim :
      (s t : Store) (time : ℕ) (address : Addr) (w : Amounts)
      → IsOrdered 0 (s.withdraw_orders address)
      → length (s.withdraw_orders address) ≤ 50
      → compute_withdrawable ops s time address ≡ ok (t, w)
      → Claim s t time address w
  compute_withdrawable-Claim s t time address w o le =
      rw (determined law) (Claim-at s t time address w o le)
