-- ===== src/Vault/Admin.antt =====
-- contracts/prism-vault/src/config.rs: the owner's operations, the validators, and the reply that
-- records the address of a new token contract.
pub mod Access
mod Tests
use prism_contracts.Prelude.{
  ℕ, ◌+◌, ◌≡◌, Bool, true, false, ◌&&◌, ◌||◌, not, Option, none, some, List, [], ◌∷◌, ◌++◌, String,
  str_eq, ltb, leb, ◌==◌, if◌then◌else◌, Result, ok, err, panic, ◌>>=◌, ◌>>◌, fail_if, map_err,
  unwrap_or,
}
use prism_contracts.Prelude.Lists.{length}
use prism_contracts.Cosmwasm.{Decimal, decimal_one}
use prism_contracts.Storage.{Addr}
use prism_contracts.Storage.Keys.{has_key}
use prism_contracts.Messages.{
  StdError, generic_err, Env, CosmosMsg, redelegate, set_withdraw_address, instantiate_token,
  update_global_index, TokenInstantiateMsg, Validator, load_item, when_some,
}
use prism_contracts.Querier.{Querier}
use prism_contracts.Vault.State.{
  Store, Response, Parameters, Config, assert_initialized, store_white_validators,
  remove_white_validators, is_valid_validator,
}

abbrev pub unauthorized : StdError
unauthorized = generic_err "unauthorized"

abbrev pub max_validators : ℕ
max_validators = 20

-- The text of the error leaves out the given value.
unfoldable pub validate_rate : Decimal → Result StdError Decimal
validate_rate rate =
    if ltb decimal_one rate then err (generic_err "Rate can not be bigger than one") else ok rate

-- `Reply`, with the data of the instantiation still encoded.
pub record Reply : Type 0 where
  pub id : ℕ
  pub payload : String

-- The configuration with the token of the reply, and the reply id, name and symbol of the next.
pub token_of_reply : ℕ → Addr → Config → Result StdError (Config × ℕ × String × String)
token_of_reply id token cfg =
    if id == 0
    then ok (record cfg { cluna_contract = token }, 1, "Prism pLuna Token", "pLuna")
    else if id == 1
    then ok (record cfg { pluna_contract = token }, 2, "Prism yLuna Token", "yLuna")
    else if id == 2
    then ok (record cfg { yluna_contract = token }, 3, "", "")
    else err (generic_err "invalid reply id")

-- `parse_reply` is `parse_reply_instantiate_data`: the address of the new contract.
module _ (addr_validate : Validator) (parse_reply : Reply → Result StdError String) where
  pub set_token_address : Store → Env → Reply → Result StdError Response
  unfolding token_of_reply
  set_token_address s env msg = do
    cfg ← load_item s.config
    address ←
        map_err (λ (_ : StdError). generic_err "error parsing token instantiation reply")
          (parse_reply msg)
    token ← addr_validate address
    (cfg, next, name, symbol) ← token_of_reply msg.id token cfg
    let init : TokenInstantiateMsg = record {
      name = name;
      symbol = symbol;
      initial_balance = none;
      minter = env.address;
    }
    let msgs =
        if leb next 2
        then instantiate_token cfg.token_code_id init (some cfg.token_admin) next ∷ []
        else []
    ok (record s { config = some cfg }, msgs)

unfoldable pub execute_update_params :
    Store → Addr → Option ℕ → Option ℕ → Option Decimal → Option Decimal → Result StdError Response
unfolding validate_rate
execute_update_params s sender epoch_period unbonding_period peg_recovery_fee er_threshold = do
  cfg ← load_item s.config
  fail_if (not (str_eq sender cfg.owner)) unauthorized
  params ← load_item s.parameters
  fee ← validate_rate (unwrap_or peg_recovery_fee params.peg_recovery_fee)
  threshold ← validate_rate (unwrap_or er_threshold params.er_threshold)
  let new_params : Parameters = record {
    epoch_period = unwrap_or epoch_period params.epoch_period;
    underlying_coin_denom = params.underlying_coin_denom;
    unbonding_period = unwrap_or unbonding_period params.unbonding_period;
    peg_recovery_fee = fee;
    er_threshold = threshold;
  }
  ok (record s { parameters = some new_params }, [])

-- The contract counts as initialized once the staking and the airdrop contract are set.
pub finish_initialization : Config → Config
finish_initialization cfg =
    if not cfg.initialized
      && (not (str_eq cfg.yluna_staking "") && not (str_eq cfg.airdrop_registry_contract ""))
    then record cfg { initialized = true }
    else cfg

module _ (addr_validate : Validator) where
  pub execute_update_config :
      Store
      → Addr
      → Option String
      → Option String
      → Option String
      → Option String
      → Result StdError Response
  unfolding finish_initialization
  execute_update_config s sender owner yluna_staking airdrop_registry_contract manager = do
    cfg ← load_item s.config
    fail_if (not (str_eq sender cfg.owner)) unauthorized
    cfg ← when_some owner (λ a c. addr_validate a >>= λ a. ok (record c { owner = a })) cfg
    cfg ←
        when_some yluna_staking
          (λ a c. addr_validate a >>= λ a. ok (record c { yluna_staking = a })) cfg
    cfg ←
        when_some airdrop_registry_contract
          (λ a c. addr_validate a >>= λ a. ok (record c { airdrop_registry_contract = a })) cfg
    cfg ← when_some manager (λ a c. addr_validate a >>= λ a. ok (record c { manager = a })) cfg
    let msgs : List CosmosMsg = elim yluna_staking [
      | none ↦ []
      | some a ↦ set_withdraw_address a ∷ []
    ]
    ok (record s { config = some (finish_initialization cfg) }, msgs)

module _ (q : Querier) where
  pub execute_register_validator : Store → Env → Addr → String → Result StdError Response
  execute_register_validator s env sender validator = do
    cfg ← load_item s.config
    fail_if (not (str_eq sender cfg.owner) && not (str_eq sender env.address)) unauthorized
    fail_if (leb max_validators (length s.validators))
        (generic_err "Can't register more than 20 validators")
    known ← q.all_validators
    fail_if (not (has_key validator known)) (generic_err "The specified address is not a validator")
    ok (store_white_validators s validator, [])

  -- What is delegated to the validator moves on; a failing query counts as nothing.
  pub move_delegation : Env → String → String → Result StdError (List CosmosMsg)
  move_delegation env validator redel_validator = elim (q.delegation env.address validator) [
    | ok (some d) ↦ ok (
        redelegate validator redel_validator d.denom d.amount
        ∷ update_global_index env.address
        ∷ [])
    | ok none ↦ ok []
    | err _ ↦ ok []
    | panic ↦ panic
  ]

  pub execute_deregister_validator : Store → Env → Addr → String → String → Result StdError Response
  unfolding move_delegation
  execute_deregister_validator s env sender validator redel_validator = do
    cfg ← load_item s.config
    cfg ← assert_initialized cfg
    fail_if (not (str_eq cfg.owner sender)) unauthorized
    fail_if (length s.validators == 1) (generic_err "Cannot remove the last whitelisted validator")
    let s = remove_white_validators s validator
    fail_if (not (is_valid_validator s redel_validator))
        (generic_err "The chosen validator to redelegate is currently not supported")
    msgs ← move_delegation env validator redel_validator
    ok (s, msgs)

  -- The delegation of the source must cover the amount, with no redelegation in progress.
  pub check_redelegation : Env → Addr → ℕ → Result StdError (Unit {0})
  check_redelegation env source amount = q.delegation env.address source >>= λ d. elim d [
    | none ↦ err (generic_err "The source validator delegation is not available")
    | some d ↦
        fail_if (ltb d.amount amount)
          (generic_err "The delegation of the source validator is less than the requested amount")
        >> fail_if (not (d.can_redelegate == d.amount))
            (generic_err "There is a redelegation in progress")
  ]

  pub execute_redelegate : Store → Env → Addr → String → String → ℕ → Result StdError Response
  unfolding check_redelegation
  execute_redelegate s env sender source target amount = do
    cfg ← load_item s.config
    cfg ← assert_initialized cfg
    params ← load_item s.parameters
    fail_if (not (str_eq sender cfg.owner) && not (str_eq sender cfg.manager)) unauthorized
    fail_if (not (is_valid_validator s source) || not (is_valid_validator s target))
        (generic_err "Invalid validators")
    check_redelegation env source amount
    ok (
      s,
      redelegate source target params.underlying_coin_denom amount
          ∷ update_global_index env.address
          ∷ [],
    )
