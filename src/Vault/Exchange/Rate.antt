-- ===== src/Vault/Exchange/Rate.antt =====
-- Bounds on the exchange rate, on what a payment is worth, and on what slashing does.
use native.Mathlib.Nat.{div-mul-le_self, div-le_of_le-mul, mul-le-mul_right}
use prism_contracts.Prelude.{
  ℕ, ◌+◌, ◌*◌, ◌/◌, ◌≤◌, ◌<◌, ◌≡◌, refl, bind-ok, subst, sym, ap, ◌∙◌, some, List, [], ◌∷◌, String,
  str_eq, arith, ok, ◌⊎◌, inl, inr, Result-cases, Option-cases, Bool-cases, ltb, if◌then◌else◌,
}
use prism_contracts.Cosmwasm.{Std, IsStd, determined, Decimal, decimal_one, reference}
use prism_contracts.Prelude.Lists.{length}
use prism_contracts.Messages.{Env, load_item}
use prism_contracts.Querier.{Querier, Delegation}
use prism_contracts.Vault.State.{State, Store, Parameters, CurrentBatch}
use prism_contracts.Vault.State.Frame.{SameAdmin, same_admin}
use prism_contracts.Vault.Exchange.{
  decimal_division, update_exchange_rate, bonded_sum, apply_slashing, slashing, check_slashing,
  query_total_issued,
}

-- What is delegated in a coin.
abbrev pub bonded_in : String → List Delegation → ℕ
bonded_in denom [] = 0
bonded_in denom (d ∷ ds) =
    let rest = bonded_in denom ds in if str_eq d.denom denom then d.amount + rest else rest

rate_shape :
    (st st' : State) (issued requested : ℕ)
    → update_exchange_rate reference st issued requested ≡ ok st'
    → 0 < st.total_bond_amount
    → (issued + requested ≡ 0)
      ⊎ (st'.exchange_rate ≡ st.total_bond_amount * decimal_one / (issued + requested))
unfolding update_exchange_rate
rate_shape st st' issued requested e pos = ground arith

quotient_shape :
    (a r : ℕ) (b : Decimal)
    → decimal_division reference a b ≡ ok r
    → let scaled = 1_000_000_000 * b / decimal_one in
      r ≡ 1_000_000_000 * (a * decimal_one / scaled) / decimal_one
unfolding decimal_division
quotient_shape a r b e = ground arith

module _ (ops : Std) (law : IsStd ops) where
  -- Unless nothing is bonded, all claims together are worth at most what is bonded at the new rate.
  pub update_exchange_rate-backed :
      (st st' : State) (issued requested : ℕ)
      → update_exchange_rate ops st issued requested ≡ ok st'
      → 0 < st.total_bond_amount
      → (issued + requested) * st'.exchange_rate / decimal_one ≤ st.total_bond_amount
  update_exchange_rate-backed st st' issued requested = rw (determined law) λ e pos.
      elim (rate_shape st st' issued requested e pos) [
        | inl zero_claims ↦ rw zero_claims (omega arith)
        | inr shape ↦ div-le_of_le-mul decimal_one (
            rw shape (
              omega
                (arith, div-mul-le_self (st.total_bond_amount * decimal_one) (issued + requested))))
      ]

  -- A quotient times the divisor, rounded down to nine decimals, is at most the dividend.
  pub decimal_division-bounds :
      (a r : ℕ) (b : Decimal)
      → decimal_division ops a b ≡ ok r
      → r * (b / 1_000_000_000) ≤ a * 1_000_000_000
  decimal_division-bounds a r b = rw (determined law) λ e.
      let scaled = 1_000_000_000 * b / decimal_one in
      let same : scaled ≡ b / 1_000_000_000 = omega arith in
      let quotient = a * decimal_one / scaled in
      let below : r * 1_000_000_000 ≤ quotient = omega (arith, quotient_shape a r b e) in
      rw (sym same)
        (omega (arith, mul-le-mul_right scaled below, div-mul-le_self (a * decimal_one) scaled))

-- The delegations decide: a call changes nothing if there are none or no less is delegated than is
-- stored. Otherwise the stored amount becomes what is delegated, and the rate follows from it, the
-- issued cLuna and the open requests.
abbrev pub Slashed : Std → Querier → Store → Env → State → Parameters → Store → State → Type 0
Slashed ops q s env st params s' st' =
    (ds : List Delegation) × (q.all_delegations env.address ≡ ok ds)
    × (((s' ≡ s)
          × (st' ≡ st)
          × ((ds ≡ []) ⊎ (st.total_bond_amount ≤ bonded_in params.underlying_coin_denom ds)))
        ⊎ ((0 < length ds)
            × (bonded_in params.underlying_coin_denom ds < st.total_bond_amount)
            × (issued : ℕ) × (batch : CurrentBatch) × (query_total_issued q s ≡ ok issued)
            × (s.current_batch ≡ some batch)
            × (update_exchange_rate ops
                  (record st { total_bond_amount = bonded_in params.underlying_coin_denom ds })
                  issued batch.requested_with_fee
                ≡ ok st')
            × (s' ≡ record s { state = some st' })))

apply_slashing-ok :
    (q : Querier) (s s' : Store) (st st' : State) (actual : ℕ)
    → apply_slashing reference q s st actual ≡ ok (s', st')
    → (issued : ℕ) × (batch : CurrentBatch) × (query_total_issued q s ≡ ok issued)
      × (s.current_batch ≡ some batch)
      × (update_exchange_rate reference
            (record st { total_bond_amount = actual })
            issued
            batch.requested_with_fee
          ≡ ok st')
      × (s' ≡ record s { state = some st' })
unfolding apply_slashing
apply_slashing-ok q s s' st st' actual e = bind-ok (query_total_issued q s) e λ issued e1 k1.
    bind-ok (load_item s.current_batch) k1 λ batch e2 k2.
      bind-ok
        (update_exchange_rate reference (record st { total_bond_amount = actual }) issued
          batch.requested_with_fee)
        k2 λ new e3 k3. (issued, batch, e1, ground arith, e3 ∙ ap ok (ground arith), ground arith)

bonded_sum-value :
    (denom : String) (ds : List Delegation) (acc n : ℕ)
    → bonded_sum reference denom ds acc ≡ ok n
    → n ≡ acc + bonded_in denom ds
unfolding bonded_sum
bonded_sum-value denom [] acc n e = ground arith
bonded_sum-value denom (d ∷ ds) acc n e =
    ground (arith, bonded_sum-value denom ds (acc + d.amount) n, bonded_sum-value denom ds acc n)

slashing_at :
    (q : Querier) (s s' : Store) (env : Env) (st st' : State) (params : Parameters)
    → slashing reference q s env st params ≡ ok (s', st')
    → Slashed reference q s env st params s' st'
unfolding slashing
slashing_at q s s' env st st' params e = elim (Result-cases (q.all_delegations env.address)) [
  | inr bad ↦ absurd (ground arith)
  | inl ([], found) ↦ ([], found, inl (ground arith, ground arith, inl refl))
  | inl (d ∷ ds, found) ↦
      elim (Result-cases (bonded_sum reference params.underlying_coin_denom (d ∷ ds) 0)) [
        | inr bad ↦ absurd (ground arith)
        | inl (n, sum) ↦
            let value : n ≡ bonded_in params.underlying_coin_denom (d ∷ ds) =
              bonded_sum-value params.underlying_coin_denom (d ∷ ds) 0 n sum ∙ omega arith in
            elim (Bool-cases (ltb n st.total_bond_amount)) [
              | inr same ↦ (
                d ∷ ds,
                found,
                inl (ground arith, ground arith, inr (rw (sym value) (ground arith))),
              )
              | inl less ↦
                  let (issued, batch, e1, e2, e3, stored) =
                    apply_slashing-ok q s s' st st' n (ground arith) in
                  (
                    d ∷ ds,
                    found,
                    inr (
                      omega arith,
                      rw (sym value) (ground arith),
                      issued,
                      batch,
                      e1,
                      e2,
                      subst
                          (λ (m : ℕ).
                            update_exchange_rate reference (record st { total_bond_amount = m })
                              issued batch.requested_with_fee
                            ≡ ok st')
                          value e3,
                      stored,
                    ),
                  )
            ]
      ]
]

module _ (ops : Std) (law : IsStd ops) where
  -- A slashing check that succeeds changes nothing if there are no delegations or no less is
  -- delegated than is stored. Otherwise it stores what is delegated as the bonded amount, with the
  -- exchange rate that follows from it, the issued cLuna and the open requests.
  pub slashing-Slashed :
      (q : Querier) (s s' : Store) (env : Env) (st st' : State) (params : Parameters)
      → slashing ops q s env st params ≡ ok (s', st')
      → Slashed ops q s env st params s' st'
  slashing-Slashed q s s' env st st' params =
      rw (determined law) (slashing_at q s s' env st st' params)

-- Only the rate changes.
pub rate_only :
    (ops : Std) (st st' : State) (issued requested : ℕ)
    → update_exchange_rate ops st issued requested ≡ ok st'
    → st' ≡ record st { exchange_rate = st'.exchange_rate }
unfolding update_exchange_rate
rate_only ops st st' issued requested e = ground arith

pub slashing-SameAdmin :
    (ops : Std) (law : IsStd ops) (q : Querier) (s s' : Store) (env : Env) (st st' : State)
    (params : Parameters)
    → slashing ops q s env st params ≡ ok (s', st')
    → SameAdmin s s'
slashing-SameAdmin ops law q s s' env st st' params e =
    elim (slashing-Slashed ops law q s s' env st st' params e).2 [
      | inl (same, _, _) ↦ same_admin s s' same
      | inr (_, _, _, _, _, _, _, stored) ↦ (
        ap (λ (x : Store). x.config) stored,
        ap (λ (x : Store). x.parameters) stored,
        ap (λ (x : Store). x.validators) stored,
      )
    ]

pub check_slashing-SameAdmin :
    (ops : Std) (law : IsStd ops) (q : Querier) (s s' : Store) (env : Env)
    → check_slashing ops q s env ≡ ok s'
    → SameAdmin s s'
unfolding check_slashing
check_slashing-SameAdmin ops law q s s' env e = elim (Option-cases s.parameters) [
  | inl bad ↦ absurd (ground arith)
  | inr (params, e1) ↦ elim (Option-cases s.state) [
    | inl bad ↦ absurd (ground arith)
    | inr (st, e2) ↦ elim (Result-cases (slashing ops q s env st params)) [
      | inr bad ↦ absurd (ground arith)
      | inl ((t, st'), e3) ↦
          let same = slashing-SameAdmin ops law q s t env st st' params e3 in
          (ground (arith, same.0), ground (arith, same.1), ground (arith, same.2))
    ]
  ]
]
