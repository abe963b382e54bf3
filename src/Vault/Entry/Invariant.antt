-- ===== src/Vault/Entry/Invariant.antt =====
-- What every message of the vault keeps, and who may change what.
use prism_contracts.Prelude.{
  ℕ, ◌≡◌, ◌≢◌, Option, some, List, String, arith, Result, ok, ◌⊎◌, inl, inr, Result-cases,
  Option-cases,
}
use prism_contracts.Cosmwasm.{Std, IsStd}
use prism_contracts.Storage.{Addr}
use prism_contracts.Messages.{
  StdError, Env, MessageInfo, MustPay, CosmosMsg, Cw20ReceiveMsg, Validator,
}
use prism_contracts.Querier.{Querier}
use prism_contracts.Vault.State.{Store, Config}
use prism_contracts.Vault.State.Requests.{initialized_only}
use prism_contracts.Vault.State.Frame.{SameAdmin, same_admin}
use prism_contracts.Vault.Exchange.{check_slashing}
use prism_contracts.Vault.Exchange.Rate.{check_slashing-SameAdmin}
use prism_contracts.Vault.Unbonding.Frame.{withdraw-SameAdmin, unbond-SameAdmin}
use prism_contracts.Vault.Bonding.Mint.{bond-SameAdmin}
use prism_contracts.Vault.Refract
use prism_contracts.Vault.Refract.{split, merge}
use prism_contracts.Vault.Admin.Access.{
  IsSound, IsOwner, params-IsOwner, config-IsOwner, register-step, deregister-IsOwner,
  redelegate-same,
}
use prism_contracts.Vault.Entry.{
  ExecuteMsg, Cw20HookMsg, unbond, execute_update_global, withdraw_all_rewards, claim_airdrop,
  deposit_airdrop_rewards, receive_cw20, execute,
}

-- Nothing is changed of the configuration, the parameters and the validators; or the owner changes
-- it; or the vault itself registers a validator.
abbrev pub Step : Store → Store → Env → Addr → Type 0
Step s t env sender =
    SameAdmin s t
    ⊎ (IsOwner s sender × (IsSound s → IsSound t))
    ⊎ ((sender ≡ env.address)
        × (t.config ≡ s.config)
        × (t.parameters ≡ s.parameters)
        × (IsSound s → IsSound t))

Step-IsSound :
    (s t : Store) (env : Env) (sender : Addr) → Step s t env sender → IsSound s → IsSound t
Step-IsSound s t env sender (inl same) h = (rw same.1 h.0, rw same.2 h.1)
Step-IsSound s t env sender (inr (inl (owner, keeps))) h = keeps h
Step-IsSound s t env sender (inr (inr (self, c, p, keeps))) h = keeps h

global-same :
    (q : Querier) (s t : Store) (env : Env) (hooks : Option (List String)) (msgs : List CosmosMsg)
    → execute_update_global q s env hooks ≡ ok (t, msgs)
    → SameAdmin s t
unfolding execute_update_global
global-same q s t env hooks msgs e = elim (Option-cases s.config) [
  | inl bad ↦ absurd (ground arith)
  | inr (cfg, e1) ↦ elim (Result-cases (withdraw_all_rewards q env.address)) [
    | inr bad ↦ absurd (ground (arith, initialized_only cfg))
    | inl (rewards, e2) ↦ (
      ground (arith, initialized_only cfg),
      ground (arith, initialized_only cfg),
      ground (arith, initialized_only cfg),
    )
  ]
]

claim-same :
    (s t : Store) (env : Env) (sender : Addr) (a b c : String) (msgs : List CosmosMsg)
    → claim_airdrop s env sender a b c ≡ ok (t, msgs)
    → t ≡ s
unfolding claim_airdrop
claim-same s t env sender a b c msgs e = elim (Option-cases s.config) [
  | inl bad ↦ absurd (ground arith)
  | inr (cfg, e1) ↦ ground (arith, initialized_only cfg)
]

deposit-same :
    (v : Validator) (q : Querier) (s t : Store) (env : Env) (sender : Addr) (a : String)
    (msgs : List CosmosMsg)
    → deposit_airdrop_rewards v q s env sender a ≡ ok (t, msgs)
    → t ≡ s
unfolding deposit_airdrop_rewards
deposit-same v q s t env sender a msgs e = elim (Option-cases s.config) [
  | inl bad ↦ absurd (ground arith)
  | inr (cfg, e1) ↦ ground (arith, initialized_only cfg)
]

module _ (ops : Std) (law : IsStd ops) (rng : ℕ → ℕ → ℕ) (addr_validate : Validator)
    (must_pay : MustPay) (q : Querier) (decode : String → Result StdError Cw20HookMsg) where
  receive-same :
      (s t : Store) (env : Env) (sender : Addr) (msg : Cw20ReceiveMsg) (msgs : List CosmosMsg)
      → receive_cw20 ops rng addr_validate must_pay q decode s env sender msg ≡ ok (t, msgs)
      → SameAdmin s t
  unfolding receive_cw20
  receive-same s t env sender msg msgs e = elim (Option-cases s.config) [
    | inl bad ↦ absurd (ground arith)
    | inr (cfg, e1) ↦ elim (Result-cases (decode msg.msg)) [
      | inr bad ↦ absurd (ground arith)
      | inl (unbond, e2) ↦
          unbond-SameAdmin ops law rng addr_validate q s t env msg.amount msg.sender msgs
            (ground (arith, initialized_only cfg))
    ]
  ]

  execute-Step :
      (s t : Store) (env : Env) (info : MessageInfo) (msg : ExecuteMsg) (msgs : List CosmosMsg)
      → execute ops rng addr_validate must_pay q decode s env info msg ≡ ok (t, msgs)
      → Step s t env info.sender
  unfolding execute
  execute-Step s t env info (ExecuteMsg.receive m) msgs e =
      inl (receive-same s t env info.sender m msgs e)
  execute-Step s t env info (ExecuteMsg.bond v) msgs e =
      inl (bond-SameAdmin ops law must_pay q s t env info v msgs (inl e))
  execute-Step s t env info (ExecuteMsg.bond_split v) msgs e =
      inl (bond-SameAdmin ops law must_pay q s t env info v msgs (inr e))
  execute-Step s t env info (ExecuteMsg.split n) msgs e =
      inl (same_admin s t (Refract.refract-same s t env info.sender n msgs (inl e)))
  execute-Step s t env info (ExecuteMsg.merge n) msgs e =
      inl (same_admin s t (Refract.refract-same s t env info.sender n msgs (inr e)))
  execute-Step s t env info (ExecuteMsg.update_global_index hooks) msgs e =
      inl (global-same q s t env hooks msgs e)
  execute-Step s t env info ExecuteMsg.withdraw_unbonded msgs e =
      inl (withdraw-SameAdmin ops law rng q s t env info.sender msgs e)
  execute-Step s t env info (ExecuteMsg.register v) msgs e =
      let (who, keeps, c, p) = register-step q s t env info.sender v msgs e in
      elim who.2 [
        | inl owner ↦ inr (inl ((who.0, who.1, owner), keeps))
        | inr self ↦ inr (inr (self, c, p, keeps))
      ]
  execute-Step s t env info (ExecuteMsg.deregister v r) msgs e =
      inr (inl (deregister-IsOwner q s t env info.sender v r msgs e))
  execute-Step s t env info ExecuteMsg.slashing_check msgs e =
      elim (Result-cases (check_slashing ops q s env)) [
        | inr bad ↦ absurd (ground arith)
        | inl (u, e1) ↦
            let same = check_slashing-SameAdmin ops law q s u env e1 in
            inl (ground (arith, same.0), ground (arith, same.1), ground (arith, same.2))
      ]
  execute-Step s t env info (ExecuteMsg.update_params a b c d) msgs e =
      inr (inl (params-IsOwner s t info.sender a b c d msgs e))
  execute-Step s t env info (ExecuteMsg.update_config a b c d) msgs e =
      inr (inl (config-IsOwner addr_validate s t info.sender a b c d msgs e))
  execute-Step s t env info (ExecuteMsg.airdrop_claim a b c) msgs e =
      inl (same_admin s t (claim-same s t env info.sender a b c msgs e))
  execute-Step s t env info (ExecuteMsg.deposit_airdrop a) msgs e =
      inl (same_admin s t (deposit-same addr_validate q s t env info.sender a msgs e))
  execute-Step s t env info (ExecuteMsg.redelegate a b n) msgs e =
      inl (same_admin s t (redelegate-same q s t env info.sender a b n msgs e))

  -- Every message that succeeds keeps the recovery fee and the threshold at most one, and the number
  -- of validators at most 20.
  pub message-IsSound :
      (s t : Store) (env : Env) (info : MessageInfo) (msg : ExecuteMsg) (msgs : List CosmosMsg)
      → IsSound s
      → execute ops rng addr_validate must_pay q decode s env info msg ≡ ok (t, msgs)
      → IsSound t
  message-IsSound s t env info msg msgs h e =
      Step-IsSound s t env info.sender (execute-Step s t env info msg msgs e) h

  -- Only the owner changes the configuration or the parameters, and only the owner or the vault
  -- itself changes the list of validators.
  pub message-access :
      (s t : Store) (env : Env) (info : MessageInfo) (msg : ExecuteMsg) (msgs : List CosmosMsg)
      (cfg : Config)
      → s.config ≡ some cfg
      → info.sender ≢ cfg.owner
      → execute ops rng addr_validate must_pay q decode s env info msg ≡ ok (t, msgs)
      → (t.config ≡ s.config)
        × (t.parameters ≡ s.parameters)
        × ((info.sender ≡ env.address) ⊎ (t.validators ≡ s.validators))
  message-access s t env info msg msgs cfg c other e = elim (execute-Step s t env info msg msgs e) [
    | inl same ↦ (same.0, same.1, inr same.2)
    | inr (inl (owner, keeps)) ↦ absurd (other (ground (arith, owner.1, owner.2)))
    | inr (inr (self, c, p, keeps)) ↦ (c, p, inl self)
  ]
