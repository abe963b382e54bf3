-- ===== src/YassetStaking/Entry.antt =====
-- contracts/prism-yasset-staking/src/contract.rs: instantiation, all messages and the configuration.
pub mod Invariant
use prism_contracts.Prelude.{
  ℕ, Bool, true, false, not, Option, none, some, List, [], ◌∷◌, String, str_eq, ltb, Result, ok,
  err, panic, ◌>>=◌, ◌>>◌, fail_if,
}
use prism_contracts.Cosmwasm.{Std, Decimal}
use prism_contracts.Storage.{Addr}
use prism_contracts.Messages.{
  StdError, generic_err, Env, AssetInfo, native, token, Asset, Cw20ReceiveMsg, Validator, load_item,
  when_some,
}
use prism_contracts.Querier.{Querier}
use prism_contracts.YassetStaking.{Config, State, Response}
use prism_contracts.YassetStaking.Rewards
use prism_contracts.YassetStaking.Deposits
use prism_contracts.YassetStaking.Staking
use prism_contracts.YassetStaking.Swaps

-- "0.5"
abbrev pub max_protocol_fee : Decimal
max_protocol_fee = 500_000_000_000_000_000

pub record InstantiateMsg : Type 0 where
  pub owner : String
  pub vault : String
  pub gov : String
  pub collector : String
  pub protocol_fee : Decimal
  pub cluna_token : String
  pub yluna_token : String
  pub pluna_token : String
  pub prism_token : String
  pub xprism_token : String

pub data Cw20HookMsg : Type 0 where
  bond : Cw20HookMsg

pub data ExecuteMsg : Type 0 where
  receive : Cw20ReceiveMsg → ExecuteMsg
  unbond : Option ℕ → ExecuteMsg
  claim_rewards : ExecuteMsg
  convert_and_claim_rewards : AssetInfo → ExecuteMsg
  mint_xprism_claim_hook : Addr → ℕ → ExecuteMsg
  process_delegator_rewards luna_to_pyluna_hook : ExecuteMsg
  deposit_minted_pyluna_hook : ℕ → ℕ → ExecuteMsg
  deposit_rewards : List Asset → ExecuteMsg
  update_config : Option String → Option String → Option Decimal → ExecuteMsg
  whitelist_reward_asset remove_reward_asset : AssetInfo → ExecuteMsg

unfoldable pub validate_protocol_fee : Decimal → Result StdError Decimal
validate_protocol_fee fee = do
  fail_if (ltb max_protocol_fee fee) (generic_err "fee can not be greater than 0.5")
  ok fee

module _ (addr_validate : Validator) where
  unfoldable pub instantiate : InstantiateMsg → Result StdError Response
  unfolding validate_protocol_fee
  instantiate msg = do
    fee ← validate_protocol_fee msg.protocol_fee
    owner ← addr_validate msg.owner
    vault ← addr_validate msg.vault
    gov ← addr_validate msg.gov
    collector ← addr_validate msg.collector
    cluna ← addr_validate msg.cluna_token
    yluna ← addr_validate msg.yluna_token
    pluna ← addr_validate msg.pluna_token
    prism ← addr_validate msg.prism_token
    xprism ← addr_validate msg.xprism_token
    let cfg : Config = record {
      owner = owner;
      vault = vault;
      gov = gov;
      collector = collector;
      protocol_fee = msg.protocol_fee;
      cluna_token = cluna;
      yluna_token = yluna;
      pluna_token = pluna;
      prism_token = prism;
      xprism_token = xprism;
    }
    ok (
      record {
        config = some cfg;
        whitelisted_assets = some (token pluna ∷ token yluna ∷ []);
        total_bond_amount = some 0;
        pool_info = λ _. none;
        rewards = λ _ _. none;
        bond_amounts = λ _. none;
      },
      [],
    )

  -- The optional changes, one after the other.
  pub changed_config :
      Option String → Option String → Option Decimal → Config → Result StdError Config
  unfolding validate_protocol_fee
  changed_config owner collector fee cfg = do
    cfg ← when_some owner (λ o cfg. addr_validate o >>= λ a. ok (record cfg { owner = a })) cfg
    cfg ←
        when_some collector (λ c cfg. addr_validate c >>= λ a. ok (record cfg { collector = a }))
          cfg
    when_some fee (λ f cfg. validate_protocol_fee f >>= λ _. ok (record cfg { protocol_fee = f }))
        cfg

  pub replace_config :
      State → Addr → Option String → Option String → Option Decimal → Result StdError Response
  unfolding changed_config
  replace_config s sender owner collector fee = do
    cfg ← load_item s.config
    fail_if (not (str_eq sender cfg.owner)) (generic_err "unauthorized")
    cfg ← changed_config owner collector fee cfg
    ok (record s { config = some cfg }, [])

  -- `check` of an asset: the address of a token is validated.
  unfoldable pub check_asset : AssetInfo → Result StdError (Unit {0})
  check_asset (native denom) = ok tt
  check_asset (token address) = addr_validate address >>= λ _. ok tt

  unfoldable pub check_assets : List Asset → Result StdError (Unit {0})
  unfolding check_asset
  check_assets [] = ok tt
  check_assets (asset ∷ assets) = check_asset asset.info >> check_assets assets

  module _ (ops : Std) (q : Querier) (from_binary : String → Result StdError Cw20HookMsg)
      (vault_bond : Addr → Result StdError ℕ)
      (all_balances : Addr → Result StdError (List (String × ℕ)))
      (exchange_rates : String → List String → Result StdError (List String)) where
    unfoldable pub receive_cw20 : State → Addr → Cw20ReceiveMsg → Result StdError Response
    receive_cw20 s sender m = do
      hook ← from_binary m.msg
      cfg ← load_item s.config
      fail_if (not (str_eq cfg.yluna_token sender)) (generic_err "unauthorized")
      Staking.bond ops s m.sender m.amount

    unfoldable pub execute : State → Env → Addr → ExecuteMsg → Result StdError Response
    unfolding receive_cw20 check_assets
    execute s env sender (ExecuteMsg.receive m) = receive_cw20 s sender m
    execute s env sender (ExecuteMsg.unbond amount) = Staking.unbond ops s sender amount
    execute s env sender ExecuteMsg.claim_rewards = Rewards.claim_rewards ops s sender
    execute s env sender (ExecuteMsg.convert_and_claim_rewards asset) =
        check_asset asset >> Rewards.convert_and_claim_rewards ops q s env sender asset
    execute s env sender (ExecuteMsg.mint_xprism_claim_hook receiver prev_balance) =
        Rewards.mint_xprism_hook ops q s env sender receiver prev_balance
    execute s env sender ExecuteMsg.process_delegator_rewards =
        Swaps.process_rewards all_balances exchange_rates s env
    execute s env sender ExecuteMsg.luna_to_pyluna_hook = Swaps.luna_to_pyluna q s env
    execute s env sender (ExecuteMsg.deposit_minted_pyluna_hook prev_pluna prev_yluna) =
        Swaps.deposit_minted q ops s env sender prev_pluna prev_yluna
    execute s env sender (ExecuteMsg.deposit_rewards assets) =
        check_assets assets >> Deposits.deposit_rewards ops vault_bond s env sender assets
    execute s env sender (ExecuteMsg.update_config owner collector fee) =
        replace_config s sender owner collector fee
    execute s env sender (ExecuteMsg.whitelist_reward_asset asset) =
        check_asset asset >> Rewards.whitelist_reward_asset s sender asset
    execute s env sender (ExecuteMsg.remove_reward_asset asset) =
        check_asset asset >> Rewards.remove_whitelisted_reward_asset s sender asset
