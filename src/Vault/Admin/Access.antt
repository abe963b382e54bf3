-- ===== src/Vault/Admin/Access.antt =====
-- Who may change the configuration, the parameters and the validators, and what holds of them.
use prism_contracts.Prelude.{
  ℕ, ◌≤◌, ◌≡◌, refl, ap, true, Option, some, List, [], ◌∷◌, String, str_eq_iff, arith, ok, err, ◌⊎◌,
  inl, inr, Result-cases, Option-cases, ltb, if◌then◌else◌,
}
use prism_contracts.Prelude.Lists.{length}
use prism_contracts.Cosmwasm.{Decimal, decimal_one}
use prism_contracts.Storage.{Addr}
use prism_contracts.Storage.Keys.{add_key, remove_key, has_key, length-add_key, length-remove_key}
use prism_contracts.Messages.{
  generic_err, Env, CosmosMsg, redelegate, update_global_index, Validator,
}
use prism_contracts.Querier.{Querier, Delegation}
use prism_contracts.Vault.State.{Store, Parameters, Config, remove_white_validators}
use prism_contracts.Vault.State.Requests.{initialized_only}
use prism_contracts.Vault.State.Frame.{
  store_white_validators_only, remove_white_validators_only, is_valid_validator_only,
}
use prism_contracts.Vault.Admin.{
  validate_rate, execute_update_params, execute_update_config, execute_register_validator,
  execute_deregister_validator, execute_redelegate, check_redelegation, move_delegation,
  max_validators,
}

-- Both rates are at most one, and there are at most 20 validators.
abbrev pub IsSound : Store → Type 0
IsSound s =
    ((p : Parameters)
      → s.parameters ≡ some p
      → (p.peg_recovery_fee ≤ decimal_one) × (p.er_threshold ≤ decimal_one))
    × (length s.validators ≤ max_validators)

abbrev pub IsOwner : Store → Addr → Type 0
IsOwner s sender = (cfg : Config) × (s.config ≡ some cfg) × (sender ≡ cfg.owner)

pub params-IsOwner :
    (s t : Store) (sender : Addr) (e u : Option ℕ) (p r : Option Decimal) (msgs : List CosmosMsg)
    → execute_update_params s sender e u p r ≡ ok (t, msgs)
    → IsOwner s sender × (IsSound s → IsSound t)
unfolding execute_update_params validate_rate
params-IsOwner s t sender e u p r msgs run = elim (Option-cases s.config) [
  | inl bad ↦ absurd (ground arith)
  | inr (cfg, e1) ↦ (
    (cfg, e1, ground (arith, str_eq_iff sender cfg.owner)),
    λ h. (λ new found. (ground arith, ground arith), ground (arith, h.1)),
  )
]

pub config-IsOwner :
    (addr_validate : Validator) (s t : Store) (sender : Addr) (o y a m : Option String)
    (msgs : List CosmosMsg)
    → execute_update_config addr_validate s sender o y a m ≡ ok (t, msgs)
    → IsOwner s sender × (IsSound s → IsSound t)
unfolding execute_update_config
config-IsOwner addr_validate s t sender o y a m msgs run = elim (Option-cases s.config) [
  | inl bad ↦ absurd (ground arith)
  | inr (cfg, e1) ↦ (
    (cfg, e1, ground (arith, str_eq_iff sender cfg.owner)),
    λ h.
        let same : (t.parameters ≡ s.parameters) × (t.validators ≡ s.validators) =
          (ground arith, ground arith) in
        (rw same.0 h.0, rw same.1 h.1),
  )
]

pub register-step :
    (q : Querier) (s t : Store) (env : Env) (sender : Addr) (v : String) (msgs : List CosmosMsg)
    → execute_register_validator q s env sender v ≡ ok (t, msgs)
    → (((cfg : Config) × (s.config ≡ some cfg) × ((sender ≡ cfg.owner) ⊎ (sender ≡ env.address))))
      × (IsSound s → IsSound t)
      × (t.config ≡ s.config)
      × (t.parameters ≡ s.parameters)
unfolding execute_register_validator
register-step q s t env sender v msgs run = elim (Option-cases s.config) [
  | inl bad ↦ absurd (ground arith)
  | inr (cfg, e1) ↦ elim (Result-cases q.all_validators) [
    | inr bad ↦ absurd (ground arith)
    | inl (known, e2) ↦
        let new : t ≡ record s { validators = add_key v s.validators } =
          ground (arith, store_white_validators_only s v) in
        (
          (cfg, e1, ground (arith, str_eq_iff sender cfg.owner, str_eq_iff sender env.address)),
          λ h. (
            rw (ap (λ (x : Store). x.parameters) new) h.0,
            ground (arith, ap (λ (x : Store). x.validators) new, length-add_key v s.validators),
          ),
          ap (λ (x : Store). x.config) new,
          ap (λ (x : Store). x.parameters) new,
        )
  ]
]

pub deregister-IsOwner :
    (q : Querier) (s t : Store) (env : Env) (sender : Addr) (v r : String) (msgs : List CosmosMsg)
    → execute_deregister_validator q s env sender v r ≡ ok (t, msgs)
    → IsOwner s sender × (IsSound s → IsSound t)
unfolding execute_deregister_validator
deregister-IsOwner q s t env sender v r msgs run = elim (Option-cases s.config) [
  | inl bad ↦ absurd (ground arith)
  | inr (cfg, e1) ↦ elim (Result-cases (move_delegation q env v r)) [
    | inr bad ↦ absurd (ground (arith, initialized_only cfg))
    | inl (out, e2) ↦
        let new : t ≡ record s { validators = remove_key v s.validators } =
          ground (arith, remove_white_validators_only s v, initialized_only cfg) in
        (
          (cfg, e1, ground (arith, str_eq_iff cfg.owner sender, initialized_only cfg)),
          λ h. (
            rw (ap (λ (x : Store). x.parameters) new) h.0,
            ground (arith, ap (λ (x : Store). x.validators) new, length-remove_key v s.validators),
          ),
        )
  ]
]

-- A validator that is removed with a delegation hands all of it over to one that is still registered
-- afterwards, and the rewards are collected.
pub deregister-hands_over :
    (q : Querier) (s t : Store) (env : Env) (sender : Addr) (v r : String) (msgs : List CosmosMsg)
    (d : Delegation)
    → q.delegation env.address v ≡ ok (some d)
    → execute_deregister_validator q s env sender v r ≡ ok (t, msgs)
    → (has_key r t.validators ≡ true)
      × (t.validators ≡ remove_key v s.validators)
      × (msgs ≡ redelegate v r d.denom d.amount ∷ update_global_index env.address ∷ [])
unfolding execute_deregister_validator move_delegation
deregister-hands_over q s t env sender v r msgs d found run = elim (Option-cases s.config) [
  | inl bad ↦ absurd (ground arith)
  | inr (cfg, e1) ↦
      let removed = remove_white_validators_only s v in
      let valid = is_valid_validator_only (remove_white_validators s v) r in
      (
        ground (arith, initialized_only cfg, removed, valid),
        ground (arith, initialized_only cfg, removed, valid),
        ground (arith, initialized_only cfg, removed, valid),
      )
]

pub redelegate-same :
    (q : Querier) (s t : Store) (env : Env) (sender : Addr) (a b : String) (n : ℕ)
    (msgs : List CosmosMsg)
    → execute_redelegate q s env sender a b n ≡ ok (t, msgs)
    → t ≡ s
unfolding execute_redelegate check_redelegation
redelegate-same q s t env sender a b n msgs e = elim (Option-cases s.config) [
  | inl bad ↦ absurd (ground arith)
  | inr (cfg, e1) ↦ ground (arith, initialized_only cfg)
]

pub rate_at_most_one :
    (r : Decimal)
    → validate_rate r
      ≡ (if ltb decimal_one r then err (generic_err "Rate can not be bigger than one") else ok r)
unfolding validate_rate
rate_at_most_one r = refl
