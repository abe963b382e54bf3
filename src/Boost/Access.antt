-- ===== src/Boost/Access.antt =====
-- Who may change what through `execute` in contract.rs.
use prism_contracts.Prelude.{
  ℕ, ◌≡◌, ◌≢◌, Option, some, List, String, arith, Result, ok, Result-cases, inl, inr, str_eq_iff,
  unwrap_or,
}
use prism_contracts.Cosmwasm.{Std, IsStd, determined}
use prism_contracts.Storage.{Addr}
use prism_contracts.Messages.{StdError, Env, CosmosMsg, Validator}
use prism_contracts.Boost.{
  State, Config, Cw20HookMsg, ExecuteMsg, unbond_user, bond_user, receive_cw20, change_config,
  execute,
}

module _ (ops : Std) (h : IsStd ops) where
  unbond_user-frame :
      (s t : State) (env : Env) (sender : Addr) (amount : Option ℕ) (msgs : List CosmosMsg)
      → unbond_user ops s env sender amount ≡ ok (t, msgs)
      → (t.config ≡ s.config) × ((a : Addr) → a ≢ sender → t.user_info a ≡ s.user_info a)
  unfolding unbond_user
  unbond_user-frame s t env sender amount msgs =
      rw (determined h) λ r. (ground arith, λ a ne. ground (arith, str_eq_iff sender a))

  bond_user-config :
      (validate : Validator) (s t : State) (env : Env) (sender : String) (amount : ℕ)
      (msgs : List CosmosMsg)
      → bond_user ops validate s env sender amount ≡ ok (t, msgs)
      → t.config ≡ s.config
  unfolding bond_user
  bond_user-config validate s t env sender amount msgs r = ground arith

  -- Only the owner changes the configuration, and only the xPRISM token contract (through which
  -- deposits arrive) changes the record of anybody but the sender.
  pub execute-access :
      (addr_validate : Validator) (from_binary : String → Result StdError Cw20HookMsg) (s t : State)
      (cfg : Config) (env : Env) (sender : Addr) (msg : ExecuteMsg) (msgs : List CosmosMsg)
      → s.config ≡ some cfg
      → execute ops addr_validate from_binary s env sender msg ≡ ok (t, msgs)
      → (sender ≢ cfg.owner → t.config ≡ s.config)
        × (sender ≢ cfg.xprism_token → (a : Addr) → a ≢ sender → t.user_info a ≡ s.user_info a)
  unfolding execute change_config receive_cw20
  execute-access validate decode s t cfg env sender (ExecuteMsg.unbond amount) msgs c r =
      let (same, frame) = unbond_user-frame s t env sender amount msgs r in (λ _. same, λ _. frame)
  execute-access validate decode s t cfg env sender (ExecuteMsg.update_config o rate most pool) msgs
        c r =
      (λ ne. ground (arith, str_eq_iff cfg.owner sender), λ ne a na. ground arith)
  execute-access validate decode s t cfg env sender (ExecuteMsg.receive m) msgs c r = (
    λ _. elim (Result-cases (decode m.msg)) [
      | inr bad ↦ absurd (ground arith)
      | inl (Cw20HookMsg.bond user, e) ↦
          bond_user-config validate s t env (unwrap_or user m.sender) m.amount msgs (ground arith)
    ],
    λ ne. absurd (ground (arith, str_eq_iff cfg.xprism_token sender)),
  )
