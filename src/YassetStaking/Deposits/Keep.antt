-- ===== src/YassetStaking/Deposits/Keep.antt =====
-- A deposit leaves the bonds alone.
use prism_contracts.Prelude.{
  ℕ, String, ◌⊎◌, ◌≡◌, refl, sym, subst, List, [], ◌∷◌, arith, Result, ok, inl, inr, Result-cases,
  Option-cases, Bool-cases,
}
use prism_contracts.Cosmwasm.{Std, Decimal}
use prism_contracts.Storage.{Addr}
use prism_contracts.Messages.{StdError, Env, CosmosMsg, AssetInfo, native, token, Asset}
use prism_contracts.YassetStaking.{Config, State}
use prism_contracts.YassetStaking.Frame.{SameBonds, same_state, SameBonds-trans}
use prism_contracts.YassetStaking.Deposits.{
  contains, credit, divide, deposit_asset, deposit_all, deposit_rewards, stakers_portion,
}

Asset-cases :
    (i : AssetInfo) → ((denom : String) × (i ≡ native denom)) ⊎ ((a : Addr) × (i ≡ token a))
Asset-cases (native denom) = inl (denom, refl)
Asset-cases (token a) = inr (a, refl)

module _ (ops : Std) where
  credit-SameBonds :
      (s t : State) (asset : AssetInfo) (reward total : ℕ)
      → credit ops s asset reward total ≡ ok t
      → SameBonds s t
  unfolding credit
  credit-SameBonds s t asset reward total e = record {
    total = ground arith;
    bonds = ground arith;
    config = ground arith;
  }

  deposit_asset-SameBonds :
      (cfg : Config) (whitelist : List AssetInfo) (total : ℕ) (portion : Decimal) (env : Env)
      (sender : Addr) (s t : State) (asset : Asset) (msgs : List CosmosMsg)
      → deposit_asset ops cfg whitelist total portion env sender s asset ≡ ok (t, msgs)
      → SameBonds s t
  unfolding deposit_asset
  deposit_asset-SameBonds cfg whitelist total portion env sender s t asset msgs e =
      elim (Bool-cases (contains whitelist asset.info)) [
        | inr bad ↦ absurd (ground arith)
        | inl listed ↦ elim (Asset-cases asset.info) [
          | inl (denom, e1) ↦ same_state s t (ground arith)
          | inr (address, e1) ↦
              elim (Result-cases (divide ops portion cfg.protocol_fee asset.amount)) [
                | inr bad ↦ absurd (ground arith)
                | inl ((reward, rest), e2) ↦
                    elim (Result-cases (credit ops s asset.info reward total)) [
                      | inr bad ↦ absurd (ground arith)
                      | inl (u, e3) ↦
                          let same : t ≡ u = ground arith in
                          subst (SameBonds s) (sym same)
                            (credit-SameBonds s u asset.info reward total e3)
                    ]
              ]
        ]
      ]

  deposit_all-SameBonds :
      (cfg : Config) (whitelist : List AssetInfo) (total : ℕ) (portion : Decimal) (env : Env)
      (sender : Addr) (assets : List Asset) (s t : State) (msgs : List CosmosMsg)
      → deposit_all ops cfg whitelist total portion env sender s assets ≡ ok (t, msgs)
      → SameBonds s t
  unfolding deposit_all
  deposit_all-SameBonds cfg whitelist total portion env sender [] s t msgs e =
      same_state s t (ground arith)
  deposit_all-SameBonds cfg whitelist total portion env sender (asset ∷ assets) s t msgs e =
      elim (Result-cases (deposit_asset ops cfg whitelist total portion env sender s asset)) [
        | inr bad ↦ absurd (ground arith)
        | inl ((u, out), e1) ↦
            elim (Result-cases (deposit_all ops cfg whitelist total portion env sender u assets)) [
              | inr bad ↦ absurd (ground arith)
              | inl ((v, more), e2) ↦
                  let same : t ≡ v = ground arith in
                  SameBonds-trans s u t
                    (deposit_asset-SameBonds cfg whitelist total portion env sender s u asset out
                      e1)
                    (subst (SameBonds u) (sym same) (
                      deposit_all-SameBonds cfg whitelist total portion env sender assets u v more
                        e2))
            ]
      ]

  pub deposit_rewards-SameBonds :
      (vault_bond : Addr → Result StdError ℕ) (s t : State) (env : Env) (sender : Addr)
      (assets : List Asset) (msgs : List CosmosMsg)
      → deposit_rewards ops vault_bond s env sender assets ≡ ok (t, msgs)
      → SameBonds s t
  unfolding deposit_rewards
  deposit_rewards-SameBonds vault_bond s t env sender assets msgs e = elim (Option-cases s.config) [
    | inl bad ↦ absurd (ground arith)
    | inr (cfg, e1) ↦ elim (Option-cases s.total_bond_amount) [
      | inl bad ↦ absurd (ground arith)
      | inr (total, e2) ↦ elim (Option-cases s.whitelisted_assets) [
        | inl bad ↦ absurd (ground arith)
        | inr (whitelist, e3) ↦ elim (Result-cases (vault_bond cfg.vault)) [
          | inr bad ↦ absurd (ground arith)
          | inl (vault, e4) ↦ elim (Result-cases (stakers_portion ops total vault)) [
            | inr bad ↦ absurd (ground arith)
            | inl (portion, e5) ↦
                deposit_all-SameBonds cfg whitelist total portion env sender assets s t msgs
                  (ground arith)
          ]
        ]
      ]
    ]
  ]
