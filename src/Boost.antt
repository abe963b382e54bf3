-- ===== src/Boost.antt =====
-- contracts/prism-xprism-boost: users lock xPRISM and accrue boost (AMPS) by the hour, up to a
-- maximum per locked xPRISM; to unbond any amount resets the boost.
pub mod Accrual
pub mod Invariant
pub mod Unbond
pub mod Access
mod Tests
use prism_contracts.Prelude.{
  ℕ, ◌-◌, ◌≤◌, min, ◌≡◌, Bool, true, false, not, ◌&&◌, Option, none, some, List, [], ◌∷◌, ◌++◌,
  String, str_eq, ltb, leb, ◌==◌, if◌then◌else◌, Result, ok, err, panic, ◌>>=◌, ◌>>◌, fail_if,
  or_err, or_panic, map_err, unwrap_or,
}
use prism_contracts.Cosmwasm.{Std, Decimal, decimal_one}
use prism_contracts.Storage.{Addr, Map, save, remove}
use prism_contracts.Messages.{
  StdError, Env, CosmosMsg, cw20, privileged_refresh_boost, Cw20Msg, Cw20ReceiveMsg, Validator,
  load_item, when_some,
}

pub data ContractError : Type 0 where
  std : StdError → ContractError
  overflow_error unauthorized invalid_bond invalid_unbond : ContractError
  invalid_boost_interval invalid_max_boost : ContractError

pub record Config : Type 0 where
  pub owner : Addr
  pub xprism_token : Addr
  pub boost_per_hour : Decimal
  pub max_boost_per_xprism : ℕ
  pub launch_pool_contract : Option Addr

pub record UserInfo : Type 0 where
  pub amt_bonded : ℕ
  pub total_boost : ℕ
  pub last_updated : ℕ
  pub boost_accrual_start_time : ℕ

pub record InstantiateMsg : Type 0 where
  pub owner : String
  pub xprism_token : String
  pub boost_per_hour : Decimal
  pub max_boost_per_xprism : ℕ
  pub launch_pool_contract : Option String

pub data Cw20HookMsg : Type 0 where
  bond : Option String → Cw20HookMsg

pub data ExecuteMsg : Type 0 where
  receive : Cw20ReceiveMsg → ExecuteMsg
  update_config : Option String → Option Decimal → Option ℕ → Option String → ExecuteMsg
  unbond : Option ℕ → ExecuteMsg

-- The items `CONFIG` and `USER_INFO`.
pub record State : Type 0 where
  pub config : Option Config
  pub user_info : Map UserInfo

-- A call's new state and its messages.
abbrev pub Response : Type 0
Response = State × List CosmosMsg

-- "1.0"
abbrev pub max_boost_per_hour : Decimal
max_boost_per_hour = decimal_one

-- `UserInfo::default()`
abbrev pub default_info : UserInfo
default_info = record {
  amt_bonded = 0;
  total_boost = 0;
  last_updated = 0;
  boost_accrual_start_time = 0;
}

-- The record of a user who bonds for the first time.
abbrev pub fresh_info : Env → UserInfo
fresh_info env = record {
  amt_bonded = 0;
  total_boost = 0;
  last_updated = env.seconds;
  boost_accrual_start_time = env.seconds;
}

abbrev load_config : State → Result ContractError Config
load_config s = map_err std (load_item s.config)

module _ (ops : Std) where
  pub accrue : Config → ℕ → UserInfo → Result StdError UserInfo
  accrue cfg now info = do
    per_hour ← or_panic (ops.mul_decimal info.amt_bonded cfg.boost_per_hour)
    hours ← or_panic (ops.from_ratio (now - info.last_updated) 3600)
    new_boost ← or_panic (ops.mul_decimal per_hour hours)
    max_boost ← or_panic (ops.mul info.amt_bonded cfg.max_boost_per_xprism)
    total ← or_panic (ops.add info.total_boost new_boost)
    ok (record info { total_boost = min total max_boost; last_updated = now })

  pub accumulate_boost : State → Env → UserInfo → Result StdError UserInfo
  unfolding accrue
  accumulate_boost s env info =
      if not (info.amt_bonded == 0) && ltb info.last_updated env.seconds
      then (load_item s.config >>= λ cfg. accrue cfg env.seconds info)
      else ok info

  -- `QueryMsg::GetBoost`
  pub get_boost : State → Env → Addr → Result StdError UserInfo
  get_boost s env user = accumulate_boost s env (unwrap_or (s.user_info user) default_info)

  -- `Any user that has previously bonded can execute`
  pub unbond_user : State → Env → Addr → Option ℕ → Result ContractError Response
  unbond_user s env sender amount = do
    info ← map_err std (load_item (s.user_info sender))
    let amt = unwrap_or amount info.amt_bonded
    fail_if (ltb info.amt_bonded amt) invalid_unbond
    left ← or_err (ops.checked_sub info.amt_bonded amt) overflow_error
    let reset = record info {
      amt_bonded = left;
      total_boost = 0;
      last_updated = env.seconds;
      boost_accrual_start_time = env.seconds;
    }
    let users = if left == 0 then remove sender s.user_info else save sender reset s.user_info
    cfg ← load_config s
    let pay = cw20 cfg.xprism_token (Cw20Msg.transfer sender amt) ∷ []
    let refresh : List CosmosMsg = elim cfg.launch_pool_contract [
      | none ↦ []
      | some address ↦ privileged_refresh_boost address sender ∷ []
    ]
    ok (record s { user_info = users }, pay ++ refresh)

  module _ (addr_validate : Validator) where
    -- `Any user can execute`
    pub bond_user : State → Env → String → ℕ → Result ContractError Response
    bond_user s env sender amount = do
      fail_if (amount == 0) invalid_bond
      addr ← map_err std (addr_validate sender)
      info ← map_err std (accumulate_boost s env (unwrap_or (s.user_info addr) (fresh_info env)))
      bonded ← or_panic (ops.add info.amt_bonded amount)
      ok (record s { user_info = save addr (record info { amt_bonded = bonded }) s.user_info }, [])

    set_owner : String → Config → Result ContractError Config
    set_owner owner cfg = do
      addr ← map_err std (addr_validate owner)
      ok (record cfg { owner = addr })

    set_boost_per_hour : Decimal → Config → Result ContractError Config
    set_boost_per_hour rate cfg = do
      fail_if (ltb max_boost_per_hour rate) invalid_boost_interval
      ok (record cfg { boost_per_hour = rate })

    set_max_boost : ℕ → Config → Result ContractError Config
    set_max_boost most cfg = do
      fail_if (leb most cfg.max_boost_per_xprism) invalid_max_boost
      ok (record cfg { max_boost_per_xprism = most })

    -- The empty string clears the address.
    set_launch_pool : String → Config → Result ContractError Config
    set_launch_pool address cfg =
        if str_eq address ""
        then ok (record cfg { launch_pool_contract = none })
        else (map_err std (addr_validate address) >>= λ addr.
            ok (record cfg { launch_pool_contract = some addr }))

    -- The optional changes, one after the other.
    pub updated_config :
        Config
        → Option String
        → Option Decimal
        → Option ℕ
        → Option String
        → Result ContractError Config
    unfolding set_owner set_boost_per_hour set_max_boost set_launch_pool
    updated_config cfg owner boost_per_hour max_boost_per_xprism launch_pool_contract = do
      cfg ← when_some owner set_owner cfg
      cfg ← when_some boost_per_hour set_boost_per_hour cfg
      cfg ← when_some max_boost_per_xprism set_max_boost cfg
      when_some launch_pool_contract set_launch_pool cfg

    -- `Only owner can execute`
    pub change_config :
        State
        → Option String
        → Option Decimal
        → Option ℕ
        → Option String
        → Result ContractError Response
    change_config s owner boost_per_hour max_boost_per_xprism launch_pool_contract = do
      cfg ← load_config s
      cfg ← updated_config cfg owner boost_per_hour max_boost_per_xprism launch_pool_contract
      ok (record s { config = some cfg }, [])

    pub validate_option : Option String → Result ContractError (Option Addr)
    validate_option none = ok none
    validate_option (some text) = map_err std (addr_validate text) >>= λ a. ok (some a)

    pub instantiate : InstantiateMsg → Result ContractError Response
    instantiate msg = do
      fail_if (ltb max_boost_per_hour msg.boost_per_hour) invalid_boost_interval
      launch_pool ← validate_option msg.launch_pool_contract
      owner ← map_err std (addr_validate msg.owner)
      xprism ← map_err std (addr_validate msg.xprism_token)
      let cfg : Config = record {
        owner = owner;
        xprism_token = xprism;
        boost_per_hour = msg.boost_per_hour;
        max_boost_per_xprism = msg.max_boost_per_xprism;
        launch_pool_contract = launch_pool;
      }
      ok (record { config = some cfg; user_info = λ _. none }, [])

    module _ (from_binary : String → Result StdError Cw20HookMsg) where
      pub receive_cw20 : State → Env → Cw20ReceiveMsg → Result ContractError Response
      receive_cw20 s env m = do
        hook ← map_err std (from_binary m.msg)
        elim hook [ Cw20HookMsg.bond user ↦ bond_user s env (unwrap_or user m.sender) m.amount ]

      pub execute : State → Env → Addr → ExecuteMsg → Result ContractError Response
      execute s env sender (ExecuteMsg.unbond amount) = unbond_user s env sender amount
      execute s env sender (ExecuteMsg.receive m) = do
        cfg ← load_config s
        fail_if (not (str_eq cfg.xprism_token sender)) unauthorized
        receive_cw20 s env m
      execute s env sender (ExecuteMsg.update_config owner rate most pool) = do
        cfg ← load_config s
        fail_if (not (str_eq cfg.owner sender)) unauthorized
        change_config s owner rate most pool
