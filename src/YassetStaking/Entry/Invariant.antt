-- ===== src/YassetStaking/Entry/Invariant.antt =====
-- What the total covers, over all messages.
use prism_contracts.Prelude.{
  none, ℕ, ◌≤◌, ◌≡◌, refl, sym, subst, Option, some, List, String, arith, Result, ok, inl, inr,
  Result-cases, Option-cases,
}
use prism_contracts.Cosmwasm.{Std, IsStd, Decimal}
use prism_contracts.Storage.{Addr}
use prism_contracts.Messages.{StdError, Env, CosmosMsg, Validator}
use prism_contracts.Querier.{Querier}
use prism_contracts.YassetStaking.{State, Config}
use prism_contracts.YassetStaking.Frame.{IsCovered, bonded}
use prism_contracts.Storage.Sums.{IsBounded-same, IsBounded-none}
use prism_contracts.YassetStaking.Rewards.Keep.{
  claim_rewards-SameBonds, convert-SameBonds, mint_hook-SameBonds, whitelist-SameBonds,
  remove-SameBonds,
}
use prism_contracts.YassetStaking.Deposits.Keep.{deposit_rewards-SameBonds}
use prism_contracts.YassetStaking.Swaps.Keep.{process-same, luna-same, minted-same}
use prism_contracts.YassetStaking.Staking.Keep.{
  SameBonds-IsCovered, bond-IsCovered, unbond-IsCovered,
}
use prism_contracts.YassetStaking.Entry.{
  instantiate, InstantiateMsg, ExecuteMsg, Cw20HookMsg, max_protocol_fee, validate_protocol_fee,
  changed_config, replace_config, check_asset, check_assets, receive_cw20, execute,
}

abbrev HasFee : Option Config → Type 0
HasFee none = 1 ≤ 0
HasFee (some cfg) = cfg.protocol_fee ≤ max_protocol_fee

module _ (addr_validate : Validator) where
  changed_config-fee :
      (owner collector : Option String) (fee : Option Decimal) (cfg new : Config)
      → changed_config addr_validate owner collector fee cfg ≡ ok new
      → cfg.protocol_fee ≤ max_protocol_fee
      → new.protocol_fee ≤ max_protocol_fee
  unfolding changed_config validate_protocol_fee
  changed_config-fee owner collector fee cfg new e h = ground arith

  replace_config-IsCovered :
      (s t : State) (sender : Addr) (owner collector : Option String) (fee : Option Decimal)
      (msgs : List CosmosMsg)
      → replace_config addr_validate s sender owner collector fee ≡ ok (t, msgs)
      → IsCovered s
      → IsCovered t
  unfolding replace_config
  replace_config-IsCovered s t sender owner collector fee msgs e
        (total, cfg, e1, e2, bound, small) =
      elim (Result-cases (changed_config addr_validate owner collector fee cfg)) [
        | inr bad ↦ absurd (ground arith)
        | inl (new, e3) ↦
            let stored : t ≡ record s { config = some new } = ground arith in
            subst IsCovered (sym stored)
              (total, new, e1, refl, bound, changed_config-fee owner collector fee cfg new e3 small)
      ]

  fresh :
      (msg : InstantiateMsg) (t : State) (msgs : List CosmosMsg) (o : Option Config)
      → instantiate addr_validate msg ≡ ok (t, msgs)
      → t.config ≡ o
      → (t.total_bond_amount ≡ some 0) × ((a : Addr) → bonded t a ≡ 0) × HasFee o
  unfolding instantiate validate_protocol_fee
  fresh msg t msgs none e f = (ground arith, λ a. ground arith, ground arith)
  fresh msg t msgs (some cfg) e f = (ground arith, λ a. ground arith, ground arith)

  -- A contract that was instantiated covers what is bonded, which is nothing.
  pub instantiate-IsCovered :
      (msg : InstantiateMsg) (t : State) (msgs : List CosmosMsg)
      → instantiate addr_validate msg ≡ ok (t, msgs)
      → IsCovered t
  instantiate-IsCovered msg t msgs e = elim (Option-cases t.config) [
    | inl bad ↦
        let (total, nothing, fee) = fresh msg t msgs none e bad in absurd (ground (arith, fee))
    | inr (cfg, e1) ↦
        let (total, nothing, fee) = fresh msg t msgs (some cfg) e e1 in
        (0, cfg, total, e1, IsBounded-same (λ _. 0) (bonded t) 0 0 nothing refl IsBounded-none, fee)
  ]

  module _ (ops : Std) (law : IsStd ops) (q : Querier)
      (from_binary : String → Result StdError Cw20HookMsg) (vault_bond : Addr → Result StdError ℕ)
      (all_balances : Addr → Result StdError (List (String × ℕ)))
      (exchange_rates : String → List String → Result StdError (List String)) where
    -- Every message keeps what the total covers: the bonds of any stakers, each counted once, are at
    -- most the total; and it keeps the protocol fee at most a half.
    pub execute-IsCovered :
        (s t : State) (env : Env) (sender : Addr) (msg : ExecuteMsg) (msgs : List CosmosMsg)
        → execute addr_validate ops q from_binary vault_bond all_balances exchange_rates s env
            sender msg
          ≡ ok (t, msgs)
        → IsCovered s
        → IsCovered t
    unfolding execute receive_cw20
    execute-IsCovered s t env sender (ExecuteMsg.receive m) msgs e h =
        elim (Result-cases (from_binary m.msg)) [
          | inr bad ↦ absurd (ground arith)
          | inl (hook, e1) ↦ elim (Option-cases s.config) [
            | inl bad ↦ absurd (ground arith)
            | inr (cfg, e2) ↦ bond-IsCovered ops law s t m.sender m.amount msgs (ground arith) h
          ]
        ]
    execute-IsCovered s t env sender (ExecuteMsg.unbond amount) msgs e h =
        unbond-IsCovered ops law s t sender amount msgs e h
    execute-IsCovered s t env sender ExecuteMsg.claim_rewards msgs e h =
        SameBonds-IsCovered s t (claim_rewards-SameBonds ops sender s t msgs e) h
    execute-IsCovered s t env sender (ExecuteMsg.convert_and_claim_rewards asset) msgs e h =
        elim (Result-cases (check_asset addr_validate asset)) [
          | inr bad ↦ absurd (ground arith)
          | inl (u, e1) ↦
              SameBonds-IsCovered s t
                (convert-SameBonds ops q s t env sender asset msgs (ground arith)) h
        ]
    execute-IsCovered s t env sender (ExecuteMsg.mint_xprism_claim_hook receiver prev) msgs e h =
        SameBonds-IsCovered s t (mint_hook-SameBonds ops q s t env sender receiver prev msgs e) h
    execute-IsCovered s t env sender ExecuteMsg.process_delegator_rewards msgs e h =
        SameBonds-IsCovered s t (process-same all_balances exchange_rates s t env msgs e) h
    execute-IsCovered s t env sender ExecuteMsg.luna_to_pyluna_hook msgs e h =
        SameBonds-IsCovered s t (luna-same q s t env msgs e) h
    execute-IsCovered s t env sender (ExecuteMsg.deposit_minted_pyluna_hook pluna yluna) msgs e h =
        SameBonds-IsCovered s t (minted-same q ops s t env sender pluna yluna msgs e) h
    execute-IsCovered s t env sender (ExecuteMsg.deposit_rewards assets) msgs e h =
        elim (Result-cases (check_assets addr_validate assets)) [
          | inr bad ↦ absurd (ground arith)
          | inl (u, e1) ↦
              SameBonds-IsCovered s t
                (deposit_rewards-SameBonds ops vault_bond s t env sender assets msgs (ground arith))
                h
        ]
    execute-IsCovered s t env sender (ExecuteMsg.update_config owner collector fee) msgs e h =
        replace_config-IsCovered s t sender owner collector fee msgs e h
    execute-IsCovered s t env sender (ExecuteMsg.whitelist_reward_asset asset) msgs e h =
        elim (Result-cases (check_asset addr_validate asset)) [
          | inr bad ↦ absurd (ground arith)
          | inl (u, e1) ↦
              SameBonds-IsCovered s t (whitelist-SameBonds s t sender asset msgs (ground arith)) h
        ]
    execute-IsCovered s t env sender (ExecuteMsg.remove_reward_asset asset) msgs e h =
        elim (Result-cases (check_asset addr_validate asset)) [
          | inr bad ↦ absurd (ground arith)
          | inl (u, e1) ↦
              SameBonds-IsCovered s t (remove-SameBonds s t sender asset msgs (ground arith)) h
        ]
