-- ===== src/Gov/Xprism/Frame.antt =====
-- The handlers of xprism.rs leave the polls alone.
use prism_contracts.Prelude.{
  ℕ, ◌≡◌, subst, sym, ◌==◌, ◌&&◌, Bool-cases, Option, List, String, arith, ok, inl, inr,
  Result-cases, Option-cases,
}
use prism_contracts.Prelude.Lists.{take}
use prism_contracts.Cosmwasm.{Std}
use prism_contracts.Storage.{Addr}
use prism_contracts.Messages.{Env, CosmosMsg, Validator}
use prism_contracts.Querier.{Querier}
use prism_contracts.Gov.{Store, Amounts}
use prism_contracts.Gov.Frame.{SamePolls}
use prism_contracts.Gov.Xprism.{
  mint_xprism, redeem_xprism, claim_redeemed_prism, compute_withdrawable, token_addresses,
  due_orders, max_order_withdraw_per_tx,
}

module _ (ops : Std) (humanize : Validator) (plus_seconds : Env → ℕ → Option ℕ) (q : Querier) where
  pub mint_xprism-SamePolls :
      (s t : Store) (env : Env) (receiver : String) (amount : ℕ) (msgs : List CosmosMsg)
      → mint_xprism ops humanize plus_seconds q s env receiver amount ≡ ok (t, msgs)
      → SamePolls s t
  unfolding mint_xprism
  mint_xprism-SamePolls s t env receiver amount msgs e = ground arith

  pub redeem_xprism-SamePolls :
      (s t : Store) (env : Env) (sender : String) (amount : ℕ) (msgs : List CosmosMsg)
      → redeem_xprism ops humanize plus_seconds q s env sender amount ≡ ok (t, msgs)
      → SamePolls s t
  unfolding redeem_xprism
  redeem_xprism-SamePolls s t env sender amount msgs e = ground arith

  compute_withdrawable-SamePolls :
      (s t : Store) (time : ℕ) (address : Addr) (w : Amounts)
      → compute_withdrawable ops s time address ≡ ok (t, w)
      → SamePolls s t
  unfolding compute_withdrawable
  compute_withdrawable-SamePolls s t time address w e =
      let orders = take max_order_withdraw_per_tx (s.withdraw_orders address) in
      elim (Result-cases (due_orders ops time orders (record { xprism = 0; prism = 0 }))) [
        | inr bad ↦ absurd (ground arith)
        | inl ((due, times), e1) ↦ elim (Option-cases s.total_pending) [
          | inl bad ↦ absurd (ground arith)
          | inr (total, e2) ↦ elim (Option-cases (ops.checked_sub total.xprism due.xprism)) [
            | inl bad ↦ absurd (ground arith)
            | inr (x, e3) ↦ elim (Option-cases (ops.checked_sub total.prism due.prism)) [
              | inl bad ↦ absurd (ground arith)
              | inr (p, e4) ↦ ground arith
            ]
          ]
        ]
      ]

  pub claim_redeemed_prism-SamePolls :
      (s t : Store) (env : Env) (sender : Addr) (msgs : List CosmosMsg)
      → claim_redeemed_prism ops humanize plus_seconds q s env sender ≡ ok (t, msgs)
      → SamePolls s t
  unfolding claim_redeemed_prism
  claim_redeemed_prism-SamePolls s t env sender msgs e =
      elim (Result-cases (token_addresses ops humanize plus_seconds q s)) [
        | inr bad ↦ absurd (ground arith)
        | inl (tokens, e1) ↦ elim (Result-cases (compute_withdrawable ops s env.seconds sender)) [
          | inr bad ↦ absurd (ground arith)
          | inl ((u, w), e2) ↦ elim (Bool-cases ((w.prism == 0) && (w.xprism == 0))) [
            | inl bad ↦ absurd (ground arith)
            | inr some_due ↦
                let same = compute_withdrawable-SamePolls s u env.seconds sender w e2 in
                let new : t ≡ u = ground arith in subst (SamePolls s) (sym new) same
          ]
        ]
      ]
