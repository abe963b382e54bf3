-- ===== src/Messages.antt =====
-- The messages that the contracts send, and the surroundings of a call. What `cosmwasm_std::Api`
-- and `from_binary` compute is a parameter.
use prism_contracts.Prelude.{ℕ, Option, none, some, List, String, Result, ok, or_err}
use prism_contracts.Storage.{Addr}

pub data StdError : Type 0 where
  not_found overflow : StdError
  invalid_address parse_err : String → StdError
  generic_err : String → StdError

-- `Env`: the block's time in seconds and its height, and the contract's address.
pub record Env : Type 0 where
  pub seconds : ℕ
  pub height : ℕ
  pub address : Addr

pub data Cw20Msg : Type 0 where
  transfer mint increase_allowance : Addr → ℕ → Cw20Msg
  transfer_from : Addr → Addr → ℕ → Cw20Msg
  burn : ℕ → Cw20Msg
  burn_from : Addr → ℕ → Cw20Msg

-- `TokenInstantiateMsg`: the name, the symbol and the first balance, if there is one.
pub record TokenInstantiateMsg : Type 0 where
  pub name : String
  pub symbol : String
  pub initial_balance : Option (Addr × ℕ)
  pub minter : Addr

-- `AssetInfo` of cw_asset: a coin of the chain or a token contract.
pub data AssetInfo : Type 0 where
  native : String → AssetInfo
  token : Addr → AssetInfo

pub record Asset : Type 0 where
  pub info : AssetInfo
  pub amount : ℕ

pub data CosmosMsg : Type 0 where
  cw20 : Addr → Cw20Msg → CosmosMsg
  privileged_refresh_boost : Addr → Addr → CosmosMsg
  delegate undelegate : Addr → String → ℕ → CosmosMsg
  redelegate : Addr → Addr → String → ℕ → CosmosMsg
  set_withdraw_address withdraw_delegator_reward : Addr → CosmosMsg
  -- a token contract with its code id and its admin, answered by the reply of the given id
  instantiate_token : ℕ → TokenInstantiateMsg → Option Addr → ℕ → CosmosMsg
  -- messages of the vault to itself
  update_global_index : Addr → CosmosMsg
  register_validator deposit_airdrop_reward : Addr → String → CosmosMsg
  -- messages of the vault to the yasset-staking contract
  process_delegator_rewards : Addr → CosmosMsg
  deposit_rewards : Addr → Addr → ℕ → CosmosMsg
  -- messages of the yasset-staking contract to itself
  mint_xprism_claim_hook : Addr → Addr → ℕ → CosmosMsg
  luna_to_pyluna_hook : Addr → CosmosMsg
  deposit_minted_pyluna_hook : Addr → ℕ → ℕ → CosmosMsg
  deposit_reward_assets : Addr → List Asset → CosmosMsg
  -- its messages to the collector, the vault and governance, and to swap a coin for another
  convert_and_send : Addr → List Asset → Addr → AssetInfo → CosmosMsg
  bond_split : Addr → String → ℕ → CosmosMsg
  send_mint_xprism : Addr → Addr → ℕ → Addr → CosmosMsg
  swap : String → ℕ → String → CosmosMsg
  bank_send : Addr → ℕ → String → CosmosMsg
  wasm_execute : Addr → String → CosmosMsg
  wasm_submsg : Addr → String → ℕ → ℕ → CosmosMsg

-- `Cw20ReceiveMsg`: what a token contract passes on with a transfer. `msg` is still encoded.
pub record Cw20ReceiveMsg : Type 0 where
  pub sender : String
  pub amount : ℕ
  pub msg : String

-- `MessageInfo`: who calls, and the coins that come with the call.
pub record MessageInfo : Type 0 where
  pub sender : Addr
  pub funds : List (String × ℕ)

-- `cw0::must_pay`: the amount of the given coin, if no other was sent.
abbrev pub MustPay : Type 0
MustPay = MessageInfo → String → Result String ℕ

-- `deps.api.addr_validate`
abbrev pub Validator : Type 0
Validator = String → Result StdError Addr

-- `ITEM.load(storage)?`, which fails where nothing is stored.
abbrev pub load_item : {A : Type 0} → Option A → Result StdError A
load_item o = or_err o StdError.not_found

-- `if let Some(x) = option { … }` on a value under change.
abbrev pub when_some : {E A C : Type 0} → Option A → (A → C → Result E C) → C → Result E C
when_some none f c = ok c
when_some (some a) f c = f a c
