-- ===== src/YassetStaking/Rewards/Keep.antt =====
-- The claims and the whitelist leave the bonds alone.
use prism_contracts.Prelude.{
  ℕ, ◌≡◌, refl, sym, subst, List, [], ◌∷◌, arith, ok, inl, inr, Result-cases, Option-cases,
  Bool-cases, ◌==◌, str_eq, if◌then◌else◌,
}
use prism_contracts.Cosmwasm.{Std}
use prism_contracts.Storage.{Addr}
use prism_contracts.Messages.{Env, CosmosMsg, AssetInfo, token, Asset}
use prism_contracts.Querier.{Querier}
use prism_contracts.YassetStaking.{Config, RewardInfo, State, save_reward}
use prism_contracts.YassetStaking.Frame.{SameBonds, same_state, SameBonds-trans}
use prism_contracts.YassetStaking.Rewards.{
  compute_asset_rewards, compute_all_rewards, claim_assets, claim_rewards, convert_asset,
  convert_assets, convert_and_claim_rewards, mint_xprism_hook, whitelist_reward_asset,
  remove_whitelisted_reward_asset, verify_claim_asset, swap_messages,
}

module _ (ops : Std) where
  save_reward-SameBonds :
      (s : State) (staker : Addr) (asset : AssetInfo) (info : RewardInfo)
      → SameBonds s (save_reward staker asset info s)
  save_reward-SameBonds s staker asset info = record { total = refl; bonds = refl; config = refl }

  pub compute_all-SameBonds :
      (staker : Addr) (amount : ℕ) (assets : List AssetInfo) (s t : State)
      → compute_all_rewards ops s staker amount assets ≡ ok t
      → SameBonds s t
  unfolding compute_all_rewards
  compute_all-SameBonds staker amount [] s t e = same_state s t (ground arith)
  compute_all-SameBonds staker amount (asset ∷ assets) s t e =
      elim (Result-cases (compute_asset_rewards ops s staker amount asset)) [
        | inr bad ↦ absurd (ground arith)
        | inl (info, e1) ↦
            let u = save_reward staker asset info s in
            SameBonds-trans s u t (save_reward-SameBonds s staker asset info)
              (compute_all-SameBonds staker amount assets u t (ground arith))
      ]

  claim_assets-SameBonds :
      (sender : Addr) (amount : ℕ) (assets : List AssetInfo) (s t : State) (msgs : List CosmosMsg)
      → claim_assets ops s sender amount assets ≡ ok (t, msgs)
      → SameBonds s t
  unfolding claim_assets
  claim_assets-SameBonds sender amount [] s t msgs e = same_state s t (ground arith)
  claim_assets-SameBonds sender amount (asset ∷ assets) s t msgs e =
      elim (Result-cases (compute_asset_rewards ops s sender amount asset)) [
        | inr bad ↦ absurd (ground arith)
        | inl (info, e1) ↦
            let paid = record info { pending_reward = 0 } in
            let u = save_reward sender asset paid s in
            elim (Result-cases (claim_assets ops u sender amount assets)) [
              | inr bad ↦ absurd (ground arith)
              | inl ((v, more), e2) ↦
                  let same : t ≡ v = ground arith in
                  SameBonds-trans s u t (save_reward-SameBonds s sender asset paid) (
                    subst (SameBonds u) (sym same)
                      (claim_assets-SameBonds sender amount assets u v more e2))
            ]
      ]

  pub claim_rewards-SameBonds :
      (sender : Addr) (s t : State) (msgs : List CosmosMsg)
      → claim_rewards ops s sender ≡ ok (t, msgs)
      → SameBonds s t
  unfolding claim_rewards
  claim_rewards-SameBonds sender s t msgs e = elim (Option-cases s.whitelisted_assets) [
    | inl bad ↦ absurd (ground arith)
    | inr (assets, e1) ↦ elim (Option-cases (s.bond_amounts sender)) [
      | inl bad ↦ absurd (ground arith)
      | inr (bond, e2) ↦
          claim_assets-SameBonds sender bond.bond_amount assets s t msgs (ground arith)
    ]
  ]

  convert_assets-SameBonds :
      (cfg : Config) (sender : Addr) (amount : ℕ) (claim : AssetInfo) (address : Addr)
      (dest : AssetInfo) (assets : List AssetInfo) (s t : State) (msgs : List CosmosMsg)
      (swaps : List Asset)
      → convert_assets ops cfg s sender amount claim address dest assets ≡ ok (t, msgs, swaps)
      → SameBonds s t
  unfolding convert_assets
  convert_assets-SameBonds cfg sender amount claim address dest [] s t msgs swaps e =
      same_state s t (ground arith)
  convert_assets-SameBonds cfg sender amount claim address dest (asset ∷ assets) s t msgs swaps e =
      elim (Result-cases (compute_asset_rewards ops s sender amount asset)) [
        | inr bad ↦ absurd (ground arith)
        | inl (info, e1) ↦ elim (Bool-cases (info.pending_reward == 0)) [
          | inl skip ↦
              elim (Result-cases
                (convert_assets ops cfg s sender amount claim address dest assets)) [
                  | inr bad ↦ absurd (ground arith)
                  | inl ((v, more, others), e2) ↦
                      let same : t ≡ v = ground arith in
                      subst (SameBonds s) (sym same) (
                        convert_assets-SameBonds cfg sender amount claim address dest assets s v
                          more others e2)
                ]
          | inr kept ↦
              let reward : Asset = record { info = asset; amount = info.pending_reward } in
              let paid = record info { pending_reward = 0 } in
              let u = save_reward sender asset paid s in
              elim (Result-cases (convert_asset ops cfg sender claim address dest reward)) [
                | inr bad ↦ absurd (ground arith)
                | inl ((out, swapped), e3) ↦
                    elim (Result-cases
                      (convert_assets ops cfg u sender amount claim address dest assets)) [
                        | inr bad ↦ absurd (ground arith)
                        | inl ((v, more, others), e2) ↦
                            let same : t ≡ v = ground arith in
                            SameBonds-trans s u t (save_reward-SameBonds s sender asset paid) (
                              subst (SameBonds u) (sym same) (
                                convert_assets-SameBonds cfg sender amount claim address dest assets
                                  u v more others e2))
                      ]
              ]
        ]
      ]

  pub convert-SameBonds :
      (q : Querier) (s t : State) (env : Env) (sender : Addr) (claim : AssetInfo)
      (msgs : List CosmosMsg)
      → convert_and_claim_rewards ops q s env sender claim ≡ ok (t, msgs)
      → SameBonds s t
  unfolding convert_and_claim_rewards
  convert-SameBonds q s t env sender claim msgs e = elim (Option-cases s.config) [
    | inl bad ↦ absurd (ground arith)
    | inr (cfg, e1) ↦ elim (Option-cases s.whitelisted_assets) [
      | inl bad ↦ absurd (ground arith)
      | inr (assets, e2) ↦ elim (Option-cases (s.bond_amounts sender)) [
        | inl bad ↦ absurd (ground arith)
        | inr (bond, e3) ↦ elim (Result-cases (verify_claim_asset ops cfg claim)) [
          | inr bad ↦ absurd (ground arith)
          | inl (address, e4) ↦
              let by_mint = str_eq address cfg.xprism_token in
              let dest = if by_mint then token cfg.prism_token else token address in
              let receiver = if by_mint then env.address else sender in
              elim (Result-cases
                (convert_assets ops cfg s sender bond.bond_amount claim address dest assets)) [
                  | inr bad ↦ absurd (ground arith)
                  | inl ((u, out, swaps), e5) ↦
                      elim (Result-cases (swap_messages ops q cfg env sender receiver dest swaps)) [
                        | inr bad ↦ absurd (ground arith)
                        | inl (more, e6) ↦
                            let same : t ≡ u = ground arith in
                            subst (SameBonds s) (sym same) (
                              convert_assets-SameBonds cfg sender bond.bond_amount claim address
                                dest assets s u out swaps e5)
                      ]
                ]
        ]
      ]
    ]
  ]

  pub mint_hook-SameBonds :
      (q : Querier) (s t : State) (env : Env) (sender receiver : Addr) (prev : ℕ)
      (msgs : List CosmosMsg)
      → mint_xprism_hook ops q s env sender receiver prev ≡ ok (t, msgs)
      → SameBonds s t
  unfolding mint_xprism_hook
  mint_hook-SameBonds q s t env sender receiver prev msgs e = same_state s t (ground arith)

pub whitelist-SameBonds :
    (s t : State) (sender : Addr) (asset : AssetInfo) (msgs : List CosmosMsg)
    → whitelist_reward_asset s sender asset ≡ ok (t, msgs)
    → SameBonds s t
unfolding whitelist_reward_asset
whitelist-SameBonds s t sender asset msgs e = record {
  total = ground arith;
  bonds = ground arith;
  config = ground arith;
}

pub remove-SameBonds :
    (s t : State) (sender : Addr) (asset : AssetInfo) (msgs : List CosmosMsg)
    → remove_whitelisted_reward_asset s sender asset ≡ ok (t, msgs)
    → SameBonds s t
unfolding remove_whitelisted_reward_asset
remove-SameBonds s t sender asset msgs e = record {
  total = ground arith;
  bonds = ground arith;
  config = ground arith;
}
