-- ===== src/LpStaking/Orders/Pull.antt =====
-- The orders that are pulled leave the list, and their sum goes to the staker.
use mathlib.Core.List.{append-nil, append_assoc}
use prism_contracts.Prelude.{
  ℕ, zero, suc, ◌+◌, ◌≡◌, ◌⊎◌, ◌∙◌, ap, Bool, inl, inr, none, some, List, [], ◌∷◌, ◌++◌, arith, ok,
  Result-cases, Option-cases,
}
use prism_contracts.Prelude.Lists.{take}
use prism_contracts.Cosmwasm.{Std, IsStd}
use prism_contracts.Storage.{Addr}
use prism_contracts.Storage.Ordered
use prism_contracts.Storage.Ordered.{
  OrderedMap, IsOrdered, load-remove, load_below, remove-IsOrdered,
}
use prism_contracts.LpStaking.{State, RewardInfo}
use prism_contracts.LpStaking.Orders.{
  Pulled, pull_order, pull_orders, remove_times, get_withdrawable_amount, remove_withdrawn,
  set_orders, pull_expired_withdraw_orders, max_orders_per_tx,
}

abbrev pub total_of : OrderedMap ℕ → ℕ
total_of [] = 0
total_of ((k, v) ∷ m) = v + total_of m

total_of-remove :
    (k v : ℕ) (m : OrderedMap ℕ)
    → Ordered.load k m ≡ some v
    → total_of (Ordered.remove k m) + v ≡ total_of m
total_of-remove k v [] e = absurd (ground arith)
total_of-remove k v ((j, w) ∷ m) e = ground (arith, total_of-remove k v m)

pub total_of-save :
    (k v : ℕ) (m : OrderedMap ℕ)
    → Ordered.load k m ≡ none
    → total_of (Ordered.save k v m) ≡ total_of m + v
total_of-save k v [] e = omega arith
total_of-save k v ((j, w) ∷ m) e = ground (arith, total_of-save k v m)

-- Every entry of the first is one of the second.
abbrev IsPart : OrderedMap ℕ → OrderedMap ℕ → Type 0
IsPart l m = (k v : ℕ) → Ordered.load k l ≡ some v → Ordered.load k m ≡ some v

take-IsPart : (n : ℕ) (m : OrderedMap ℕ) → IsPart (take n m) m
take-IsPart zero m k v e = absurd (ground arith)
take-IsPart (suc n) [] k v e = e
take-IsPart (suc n) ((j, w) ∷ m) k v e = ground (arith, take-IsPart n m k v)

take-IsOrdered : (n b : ℕ) (m : OrderedMap ℕ) → IsOrdered b m → IsOrdered b (take n m)
take-IsOrdered zero b m h = tt
take-IsOrdered (suc n) b [] h = tt
take-IsOrdered (suc n) b ((j, w) ∷ m) h = (h.0, take-IsOrdered n (j + 1) m h.1)

-- The result of pulling the orders `l` out of `m`.
abbrev PulledFrom : OrderedMap ℕ → ℕ → List ℕ → Pulled → Type 0
PulledFrom m amount times (amount', times', count') =
    (new : List ℕ) × (times' ≡ times ++ new)
    × (total_of (remove_times new m) + amount' ≡ total_of m + amount)
    × IsOrdered 0 (remove_times new m)

module _ (ops : Std) (law : IsStd ops) where
  pull_order-cases :
      (now period amount count k v : ℕ) (times : List ℕ) (r : Pulled)
      → pull_order ops now period (amount, times, count) (k, v) ≡ ok r
      → (r ≡ (amount + v, times ++ k ∷ [], count + 1)) ⊎ (r ≡ (amount, times, count + 1))
  unfolding pull_order
  pull_order-cases now period amount count k v times r e = ground (arith, law.add_eq amount v)

  pull_orders-PulledFrom :
      (now period amount count b : ℕ) (times : List ℕ) (l m : OrderedMap ℕ) (r : Pulled)
      → IsPart l m
      → IsOrdered b l
      → IsOrdered 0 m
      → pull_orders ops now period (amount, times, count) l ≡ ok r
      → PulledFrom m amount times r
  unfolding pull_orders remove_times
  pull_orders-PulledFrom now period amount count b times [] m r part lo mo e =
      ([], ground (arith, append-nil times), ground arith, mo)
  pull_orders-PulledFrom now period amount count b times ((k, v) ∷ l) m r part lo mo e =
      elim (Result-cases (pull_order ops now period (amount, times, count) (k, v))) [
        | inr bad ↦ absurd (ground arith)
        | inl (acc, e1) ↦ elim (pull_order-cases now period amount count k v times acc e1) [
          | inl over ↦
              let found = part k v (ground arith) in
              let rest : PulledFrom (Ordered.remove k m) (amount + v) (times ++ k ∷ []) r =
                pull_orders-PulledFrom now period (amount + v) (count + 1) (k + 1) (times ++ k ∷ [])
                  l (Ordered.remove k m) r
                  (λ j w f.
                    ground (arith, load-remove k j 0 m mo, load_below k (k + 1) l lo.1, part j w))
                  lo.1 (remove-IsOrdered k 0 m mo) (ground arith) in
              (
                k ∷ rest.0,
                rest.1 ∙ append_assoc times (k ∷ []) rest.0,
                omega (arith, rest.2, total_of-remove k v m found),
                rest.3,
              )
          | inr not_over ↦
              pull_orders-PulledFrom now period amount (count + 1) (k + 1) times l m r
                (λ j w f. ground (arith, load_below k (k + 1) l lo.1, part j w)) lo.1 mo
                (ground arith)
        ]
      ]

  -- What a pull does: the orders that are over leave the list and are added to what the staker may
  -- withdraw.
  pub pull_expired-moves :
      (s t : State) (staker token : Addr) (info after : RewardInfo) (now period : ℕ)
      (pending : Bool)
      → IsOrdered 0 (s.unbond_orders staker token)
      → pull_expired_withdraw_orders ops s staker token info now period ≡ ok (t, after, pending)
      → (orders : OrderedMap ℕ) × (t ≡ set_orders staker token orders s)
        × IsOrdered 0 orders
        × (after.withdrawable_amount + total_of orders
            ≡ info.withdrawable_amount + total_of (s.unbond_orders staker token))
        × (after.bond_amount ≡ info.bond_amount)
  unfolding pull_expired_withdraw_orders get_withdrawable_amount remove_withdrawn
  pull_expired-moves s t staker token info after now period pending h e =
      let m = s.unbond_orders staker token in
      let l = take (max_orders_per_tx + 1) m in
      elim (Result-cases (pull_orders ops now period (0, [], 0) l)) [
        | inr bad ↦ absurd (ground arith)
        | inl ((amount, times, count), e1) ↦
            let (new, same, sum, ordered) =
              pull_orders-PulledFrom now period 0 0 0 [] l m (amount, times, count)
                (take-IsPart (max_orders_per_tx + 1) m)
                (take-IsOrdered (max_orders_per_tx + 1) 0 m h) h e1 in
            let add = law.add_eq info.withdrawable_amount amount in
            elim (Option-cases (ops.add info.withdrawable_amount amount)) [
              | inl bad ↦ absurd (ground arith)
              | inr (withdrawable, e2) ↦
                  let whole : withdrawable ≡ info.withdrawable_amount + amount = ground arith in
                  let stored : t ≡ set_orders staker token (remove_times times m) s =
                    ground arith in
                  (
                    remove_times new m,
                    stored ∙ ap (λ x. set_orders staker token (remove_times x m) s) same,
                    ordered,
                    ground arith,
                    ground arith,
                  )
            ]
      ]
