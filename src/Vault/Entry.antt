-- ===== src/Vault/Entry.antt =====
-- contracts/prism-vault/src/contract.rs: instantiation, the dispatch of the messages, the rewards, the
-- airdrops and the queries that compute.
pub mod Invariant
mod Tests
use prism_contracts.Prelude.{
  ℕ, ◌+◌, ◌≡◌, Bool, true, false, not, Option, none, some, List, [], ◌∷◌, ◌++◌, map, String, str_eq,
  if◌then◌else◌, Result, ok, err, panic, ◌>>=◌, ◌>>◌, fail_if, map_err, sub_u64,
}
use prism_contracts.Cosmwasm.{Std, Decimal, decimal_one}
use prism_contracts.Storage.{Addr}
use prism_contracts.Messages.{
  StdError, generic_err, Env, MessageInfo, MustPay, CosmosMsg, cw20, wasm_execute, delegate,
  withdraw_delegator_reward, instantiate_token, register_validator, deposit_airdrop_reward,
  process_delegator_rewards, deposit_rewards, TokenInstantiateMsg, Cw20Msg, Cw20ReceiveMsg,
  Validator, load_item,
}
use prism_contracts.Querier.{Querier, query_token_balance}
use prism_contracts.Vault.State.{
  State, Store, Response, Config, Parameters, assert_initialized, get_unbond_requests,
  query_get_finished_amount,
}
use prism_contracts.Vault.Exchange.{check_slashing}
use prism_contracts.Vault.Unbonding.{execute_unbond, execute_withdraw_unbonded}
use prism_contracts.Vault.Bonding.{execute_bond, execute_bond_split}
use prism_contracts.Vault.Refract
use prism_contracts.Vault.Admin.{
  unauthorized, validate_rate, execute_update_params, execute_update_config,
  execute_register_validator, execute_deregister_validator, execute_redelegate,
}

pub record InstantiateMsg : Type 0 where
  pub epoch_period : ℕ
  pub underlying_coin_denom : String
  pub unbonding_period : ℕ
  pub peg_recovery_fee : Decimal
  pub er_threshold : Decimal
  pub validator : String
  pub token_admin : String
  pub token_code_id : ℕ
  pub manager : String

-- A `Binary` is a string.
pub data ExecuteMsg : Type 0 where
  update_config : Option String → Option String → Option String → Option String → ExecuteMsg
  register : String → ExecuteMsg
  deregister : String → String → ExecuteMsg
  update_params : Option ℕ → Option ℕ → Option Decimal → Option Decimal → ExecuteMsg
  redelegate : String → String → ℕ → ExecuteMsg
  bond bond_split : Option String → ExecuteMsg
  update_global_index : Option (List String) → ExecuteMsg
  withdraw_unbonded slashing_check : ExecuteMsg
  receive : Cw20ReceiveMsg → ExecuteMsg
  split merge : ℕ → ExecuteMsg
  deposit_airdrop : String → ExecuteMsg
  airdrop_claim : String → String → String → ExecuteMsg

pub data Cw20HookMsg : Type 0 where
  unbond : Cw20HookMsg

-- The writes leave the wait lists, the history and the validators empty.
module _ (addr_validate : Validator) (must_pay : MustPay) where
  pub instantiate : Env → MessageInfo → InstantiateMsg → Result StdError Response
  instantiate env info msg = do
    payment ← map_err generic_err (must_pay info msg.underlying_coin_denom)
    token_admin ← addr_validate msg.token_admin
    manager ← addr_validate msg.manager
    let config : Config = record {
      owner = info.sender;
      yluna_staking = "";
      cluna_contract = "";
      yluna_contract = "";
      pluna_contract = "";
      airdrop_registry_contract = "";
      initialized = false;
      token_admin = token_admin;
      token_code_id = msg.token_code_id;
      manager = manager;
    }
    let state : State = record {
      exchange_rate = decimal_one;
      total_bond_amount = payment;
      last_index_modification = env.seconds;
      prev_vault_balance = 0;
      actual_unbonded_amount = 0;
      last_unbonded_time = env.seconds;
      last_processed_batch = 0;
    }
    fee ← validate_rate msg.peg_recovery_fee
    threshold ← validate_rate msg.er_threshold
    let params : Parameters = record {
      epoch_period = msg.epoch_period;
      underlying_coin_denom = msg.underlying_coin_denom;
      unbonding_period = msg.unbonding_period;
      peg_recovery_fee = fee;
      er_threshold = threshold;
    }
    let store : Store = record {
      config = some config;
      parameters = some params;
      current_batch = some (record { id = 1; requested_with_fee = 0 });
      state = some state;
      unbond_waitlist = λ _. [];
      unbond_history = [];
      validators = [];
    }
    let cluna : TokenInstantiateMsg = record {
      name = "Prism cLuna Token";
      symbol = "cLuna";
      initial_balance = some (env.address, payment);
      minter = env.address;
    }
    ok (
      store,
      register_validator env.address msg.validator
          ∷ delegate msg.validator msg.underlying_coin_denom payment
          ∷ instantiate_token config.token_code_id cluna (some config.token_admin) 0
          ∷ [],
    )

-- One withdrawal for each delegation; a failing query counts as none.
pub withdraw_all_rewards : Querier → Addr → Result StdError (List CosmosMsg)
withdraw_all_rewards q delegator = elim (q.all_delegations delegator) [
  | ok ds ↦ ok (map (λ d. withdraw_delegator_reward d.validator) ds)
  | err _ ↦ ok []
  | panic ↦ panic
]

pub execute_update_global : Querier → Store → Env → Option (List String) → Result StdError Response
execute_update_global q s env airdrop_hooks = do
  cfg ← load_item s.config
  cfg ← assert_initialized cfg
  let airdrops : List CosmosMsg = elim airdrop_hooks [
    | none ↦ []
    | some hooks ↦ map (λ msg. wasm_execute cfg.airdrop_registry_contract msg) hooks
  ]
  rewards ← withdraw_all_rewards q env.address
  st ← load_item s.state
  ok (
    record s { state = some (record st { last_index_modification = env.seconds }) },
    airdrops ++ rewards ++ process_delegator_rewards cfg.yluna_staking ∷ [],
  )

pub claim_airdrop : Store → Env → Addr → String → String → String → Result StdError Response
claim_airdrop s env sender airdrop_token_contract airdrop_contract claim_msg = do
  cfg ← load_item s.config
  cfg ← assert_initialized cfg
  fail_if (not (str_eq sender cfg.airdrop_registry_contract)) unauthorized
  ok (
    s,
    wasm_execute airdrop_contract claim_msg
        ∷ deposit_airdrop_reward env.address airdrop_token_contract
        ∷ [],
  )

module _ (addr_validate : Validator) (q : Querier) where
  pub deposit_airdrop_rewards : Store → Env → Addr → String → Result StdError Response
  deposit_airdrop_rewards s env sender airdrop_token_contract = do
    cfg ← load_item s.config
    cfg ← assert_initialized cfg
    token ← addr_validate airdrop_token_contract
    fail_if (not (str_eq sender env.address)) unauthorized
    fail_if (str_eq token cfg.cluna_contract)
        (generic_err "the airdrop_token_contract can not be cLuna")
    amount ← query_token_balance q token env.address
    ok (
      s,
      cw20 token (Cw20Msg.increase_allowance cfg.yluna_staking amount)
          ∷ deposit_rewards cfg.yluna_staking token amount
          ∷ [],
    )

-- `decode` is `from_binary`.
module _ (ops : Std) (rng : ℕ → ℕ → ℕ) (addr_validate : Validator) (must_pay : MustPay)
    (q : Querier) (decode : String → Result StdError Cw20HookMsg) where
  pub receive_cw20 : Store → Env → Addr → Cw20ReceiveMsg → Result StdError Response
  receive_cw20 s env sender msg = decode msg.msg >>= λ hook. elim hook [
    | unbond ↦ do
      cfg ← load_item s.config
      cfg ← assert_initialized cfg
      fail_if (not (str_eq sender cfg.cluna_contract)) unauthorized
      execute_unbond ops rng addr_validate q s env msg.amount msg.sender
  ]

  pub execute : Store → Env → MessageInfo → ExecuteMsg → Result StdError Response
  execute s env info (ExecuteMsg.receive msg) = receive_cw20 s env info.sender msg
  execute s env info (ExecuteMsg.bond v) = execute_bond ops must_pay q s env info v
  execute s env info (ExecuteMsg.bond_split v) = execute_bond_split ops must_pay q s env info v
  execute s env info (ExecuteMsg.split amount) = Refract.split s env info.sender amount
  execute s env info (ExecuteMsg.merge amount) = Refract.merge s info.sender amount
  execute s env info (ExecuteMsg.update_global_index hooks) = execute_update_global q s env hooks
  execute s env info ExecuteMsg.withdraw_unbonded =
      execute_withdraw_unbonded ops rng q s env info.sender
  execute s env info (ExecuteMsg.register v) = execute_register_validator q s env info.sender v
  execute s env info (ExecuteMsg.deregister v r) =
      execute_deregister_validator q s env info.sender v r
  execute s env info ExecuteMsg.slashing_check = check_slashing ops q s env >>= λ s. ok (s, [])
  execute s env info (ExecuteMsg.update_params e u p t) =
      execute_update_params s info.sender e u p t
  execute s env info (ExecuteMsg.update_config o y a m) =
      execute_update_config addr_validate s info.sender o y a m
  execute s env info (ExecuteMsg.airdrop_claim token contract msg) =
      claim_airdrop s env info.sender token contract msg
  execute s env info (ExecuteMsg.deposit_airdrop token) =
      deposit_airdrop_rewards addr_validate q s env info.sender token
  execute s env info (ExecuteMsg.redelegate source target amount) =
      execute_redelegate q s env info.sender source target amount

  pub query_withdrawable_unbonded : Store → Env → String → Result StdError ℕ
  query_withdrawable_unbonded s env address = do
    params ← load_item s.parameters
    historical_time ← sub_u64 env.seconds params.unbonding_period
    addr ← addr_validate address
    query_get_finished_amount ops s addr historical_time none

  pub query_unbond_requests :
      Store → String → Option ℕ → Option ℕ → Result StdError (String × List (ℕ × ℕ))
  query_unbond_requests s address start limit =
      addr_validate address >>= λ addr. ok (address, get_unbond_requests s addr start limit)
