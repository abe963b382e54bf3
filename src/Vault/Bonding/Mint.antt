-- ===== src/Vault/Bonding/Mint.antt =====
-- What a bond mints, alone and with a split.
use native.Mathlib.Nat.{mul-le-mul_right}
use prism_contracts.Prelude.{
  ℕ, min, ◌+◌, ◌-◌, ◌*◌, ◌/◌, ◌≤◌, ◌<◌, ◌≡◌, sym, ◌∙◌, ap, Option, some, List, [], ◌∷◌, String,
  arith, ok, ◌⊎◌, inl, inr, Result-cases,
}
use prism_contracts.Cosmwasm.{Std, IsStd, determined, decimal_one}
use prism_contracts.Storage.{Addr}
use prism_contracts.Messages.{Env, MessageInfo, MustPay, CosmosMsg, cw20, delegate, Cw20Msg}
use prism_contracts.Querier.{Querier}
use prism_contracts.Vault.State.{State, Store, Parameters, Config}
use prism_contracts.Vault.State.Frame.{SameAdmin, SameAdmin-trans}
use prism_contracts.Vault.Exchange.{slashing}
use prism_contracts.Vault.State.Requests.{initialized_only}
use prism_contracts.Vault.Exchange.Rate.{slashing-SameAdmin, decimal_division-bounds}
use prism_contracts.Vault.Bonding.Payment.{bond_payment-Bonded}
use prism_contracts.Vault.Bonding.{
  select_validator, mint_less_fee, bond_payment, execute_bond, execute_bond_split,
}

abbrev pub max_fee : Parameters → ℕ → ℕ
max_fee params mint = mint * params.peg_recovery_fee / decimal_one

module _ (ops : Std) (law : IsStd ops) where
  -- A bond that is accepted mints the full amount at or above the threshold of the exchange rate.
  -- Below it, it loses the lesser of the recovery fee and of what the backing lacks of the claims.
  pub mint_less_fee-bounds :
      (params : Parameters) (st : State) (supply requested payment mint minted : ℕ)
      → mint_less_fee ops params st supply requested payment mint ≡ ok minted
      → (minted ≤ mint)
        × (mint - minted ≤ max_fee params mint)
        × (mint - minted ≤ supply + mint + requested - (st.total_bond_amount + payment))
        × (((params.er_threshold ≤ st.exchange_rate) × (minted ≡ mint))
            ⊎ ((st.exchange_rate < params.er_threshold)
                × (st.total_bond_amount + payment ≤ supply + mint + requested)
                × (mint
                    ≡ minted
                      + min
                          (max_fee params mint)
                          (supply + mint + requested - (st.total_bond_amount + payment)))))
  unfolding mint_less_fee
  mint_less_fee-bounds params st supply requested payment mint minted =
      rw (determined law) (λ e. (ground arith, ground arith, ground arith, ground arith))

module _ (ops : Std) (law : IsStd ops) where
  -- A bond that goes through delegates the payment to the chosen validator, adds it to the bonded
  -- amount that the slashing check left, and mints for the sender, in the stored configuration's
  -- cLuna, no more than the payment divided by the exchange rate rounded down to nine decimals.
  pub execute_bond-mints :
      (must_pay : MustPay) (q : Querier) (s t : Store) (env : Env) (info : MessageInfo)
      (validator : Option String) (msgs : List CosmosMsg)
      → execute_bond ops must_pay q s env info validator ≡ ok (t, msgs)
      → (cfg : Config) × (params : Parameters) × (before : State) × (checked : State)
        × (after : State) × (slashed : Store) × (selected : Addr) × (payment : ℕ) × (minted : ℕ)
        × (s.parameters ≡ some params)
        × (s.state ≡ some before)
        × (select_validator q s env.address validator ≡ ok selected)
        × (slashing ops q s env before params ≡ ok (slashed, checked))
        × (must_pay info params.underlying_coin_denom ≡ ok payment)
        × (t ≡ record slashed { state = some after })
        × (t.config ≡ some cfg)
        × (after.total_bond_amount ≡ checked.total_bond_amount + payment)
        × (msgs
            ≡ delegate selected params.underlying_coin_denom payment
              ∷ cw20 cfg.cluna_contract (Cw20Msg.mint info.sender minted)
              ∷ [])
        × (minted * (checked.exchange_rate / 1_000_000_000) ≤ payment * 1_000_000_000)
  unfolding execute_bond
  execute_bond-mints must_pay q s t env info validator msgs e =
      elim (Result-cases (bond_payment ops must_pay q s env info validator)) [
        | inr bad ↦ absurd (ground arith)
        | inl ((s', minted, sent, payment), run) ↦
            let b =
              bond_payment-Bonded ops law must_pay q s s' env info validator minted sent payment
                run in
            let less =
              mint_less_fee-bounds ops law b.params b.checked b.supply b.batch.requested_with_fee
                payment b.quotient minted b.less_fee in
            (
              b.config,
              b.params,
              b.before,
              b.checked,
              b.after,
              b.slashed,
              b.selected,
              payment,
              minted,
              b.has_params,
              b.has_state,
              b.chosen,
              b.slash,
              b.has_payment,
              ground (arith, b.stored),
              ground (arith, b.has_config),
              b.grown,
              ground (arith, b.messages),
              omega (
                arith,
                mul-le-mul_right (b.checked.exchange_rate / 1_000_000_000) less.0,
                decimal_division-bounds ops law payment b.quotient b.checked.exchange_rate
                    b.divided,
              ),
            )
      ]

  pub bond_payment-SameAdmin :
      (must_pay : MustPay) (q : Querier) (s t : Store) (env : Env) (info : MessageInfo)
      (validator : Option String) (minted : ℕ) (msgs : List CosmosMsg) (payment : ℕ)
      → bond_payment ops must_pay q s env info validator ≡ ok (t, minted, msgs, payment)
      → SameAdmin s t
  bond_payment-SameAdmin must_pay q s t env info validator minted msgs payment e =
      let b = bond_payment-Bonded ops law must_pay q s t env info validator minted msgs payment e in
      SameAdmin-trans s b.slashed t
        (slashing-SameAdmin ops law q s b.slashed env b.before b.checked b.params b.slash)
        (
          ap (λ (x : Store). x.config) b.stored,
          ap (λ (x : Store). x.parameters) b.stored,
          ap (λ (x : Store). x.validators) b.stored,
        )

  -- Where a bond with a split goes through, the bond does too and leaves the same state. Instead of
  -- the sender's cLuna the split mints as much cLuna for the vault, and yLuna and pLuna for the
  -- sender.
  pub execute_bond_split-backs :
      (must_pay : MustPay) (q : Querier) (s t : Store) (env : Env) (info : MessageInfo)
      (validator : Option String) (msgs : List CosmosMsg) (cfg : Config)
      → s.config ≡ some cfg
      → execute_bond_split ops must_pay q s env info validator ≡ ok (t, msgs)
      → (sent : CosmosMsg) × (minted : ℕ) × (execute_bond ops must_pay q s env info validator
          ≡ ok (t, sent ∷ cw20 cfg.cluna_contract (Cw20Msg.mint info.sender minted) ∷ []))
        × (msgs
            ≡ sent
              ∷ cw20 cfg.cluna_contract (Cw20Msg.mint env.address minted)
              ∷ cw20 cfg.yluna_contract (Cw20Msg.mint info.sender minted)
              ∷ cw20 cfg.pluna_contract (Cw20Msg.mint info.sender minted)
              ∷ [])
  unfolding execute_bond execute_bond_split
  execute_bond_split-backs must_pay q s t env info validator msgs cfg c e =
      elim (Result-cases (bond_payment ops must_pay q s env info validator)) [
        | inr bad ↦ absurd (ground (arith, initialized_only cfg))
        | inl ((s', minted, sent, payment), run) ↦
            let b =
              bond_payment-Bonded ops law must_pay q s s' env info validator minted sent payment
                run in
            let m = b.messages in
            let admin =
              bond_payment-SameAdmin must_pay q s s' env info validator minted sent payment run in
            let same : some b.config ≡ some cfg = sym b.has_config ∙ admin.0 ∙ c in
            (
              delegate b.selected b.params.underlying_coin_denom payment,
              minted,
              ground (arith, m, same, initialized_only cfg),
              ground (arith, m, initialized_only cfg),
            )
      ]

  pub bond-SameAdmin :
      (must_pay : MustPay) (q : Querier) (s t : Store) (env : Env) (info : MessageInfo)
      (validator : Option String) (msgs : List CosmosMsg)
      → (execute_bond ops must_pay q s env info validator ≡ ok (t, msgs))
        ⊎ (execute_bond_split ops must_pay q s env info validator ≡ ok (t, msgs))
      → SameAdmin s t
  unfolding execute_bond execute_bond_split
  bond-SameAdmin must_pay q s t env info validator msgs e =
      elim (Result-cases (bond_payment ops must_pay q s env info validator)) [
        | inr bad ↦ absurd (grind arith)
        | inl ((s', minted, sent, payment), run) ↦
            SameAdmin-trans s s' t
              (bond_payment-SameAdmin must_pay q s s' env info validator minted sent payment run)
              (grind arith, grind arith, grind arith)
      ]
