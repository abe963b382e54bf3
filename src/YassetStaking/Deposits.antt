-- ===== src/YassetStaking/Deposits.antt =====
-- contracts/prism-yasset-staking/src/rewards.rs: the deposit of rewards.
pub mod Keep
pub mod Amounts
use prism_contracts.Prelude.{
  ℕ, min, Bool, true, false, not, ◌||◌, Option, none, some, List, [], ◌∷◌, ◌++◌, String, str_eq,
  ◌==◌, if◌then◌else◌, Result, ok, err, panic, ◌>>=◌, ◌>>◌, fail_if, or_err, or_panic, unwrap_or,
}
use prism_contracts.Cosmwasm.{Std, Decimal, decimal_one}
use prism_contracts.Storage.{Addr, save}
use prism_contracts.Messages.{
  StdError, overflow, generic_err, Env, CosmosMsg, cw20, Cw20Msg, convert_and_send,
  mint_xprism_claim_hook, send_mint_xprism, AssetInfo, native, token, Asset, load_item,
}
use prism_contracts.Querier.{Querier, query_token_balance}
use prism_contracts.YassetStaking.{
  Config, BondInfo, PoolInfo, RewardInfo, State, Response, key_of, same_asset, is_native_token,
  save_reward,
}

unfoldable pub contains : List AssetInfo → AssetInfo → Bool
contains [] asset = false
contains (a ∷ xs) asset = same_asset a asset || contains xs asset

module _ (ops : Std) where
  -- The share of the staked yLuna in what is bonded with the vault, at most one.
  unfoldable pub stakers_portion : ℕ → ℕ → Result StdError Decimal
  stakers_portion total_bond_amount vault_bond_amount =
      if total_bond_amount == 0
      then ok 0
      else (or_panic (ops.from_ratio total_bond_amount vault_bond_amount) >>= λ share.
          ok (min share decimal_one))

  -- The rewards of an asset go to its index, where anything is staked.
  unfoldable pub credit : State → AssetInfo → ℕ → ℕ → Result StdError State
  credit s asset reward total_bond_amount = if total_bond_amount == 0 then ok s else (do
    let pool = unwrap_or (s.pool_info (key_of asset)) (record { reward_index = 0 })
    per_bond ← or_panic (ops.from_ratio reward total_bond_amount)
    index ← or_panic (ops.add_decimal pool.reward_index per_bond)
    ok (record s { pool_info = save (key_of asset) (record { reward_index = index }) s.pool_info }))

  -- The stakers' part after the fee, and the rest, which goes to the collector.
  unfoldable pub divide : Decimal → Decimal → ℕ → Result StdError (ℕ × ℕ)
  divide portion protocol_fee amount = do
    stakers ← or_panic (ops.mul_decimal amount portion)
    fee ← or_panic (ops.mul_decimal stakers protocol_fee)
    reward ← or_err (ops.checked_sub stakers fee) overflow
    rest ← or_err (ops.checked_sub amount reward) overflow
    ok (reward, rest)

  -- One round: the new state and the messages of an asset.
  unfoldable pub deposit_asset :
      Config → List AssetInfo → ℕ → Decimal → Env → Addr → State → Asset → Result StdError Response
  unfolding contains credit divide
  deposit_asset cfg whitelist total portion env sender s asset = do
    fail_if (not (contains whitelist asset.info)) (generic_err "asset is not whitelisted")
    elim asset.info [
      | native denom ↦ ok (s, [])
      | token address ↦ do
        let pull : List CosmosMsg =
            if str_eq env.address sender
            then []
            else cw20 address (Cw20Msg.transfer_from sender env.address asset.amount) ∷ []
        (reward, rest) ← divide portion cfg.protocol_fee asset.amount
        s ← credit s asset.info reward total
        ok (s, pull ++ cw20 address (Cw20Msg.transfer cfg.collector rest) ∷ [])
    ]

  pub deposit_all :
      Config
      → List AssetInfo
      → ℕ
      → Decimal
      → Env
      → Addr
      → State
      → List Asset
      → Result StdError Response
  unfolding deposit_asset
  deposit_all cfg whitelist total portion env sender s [] = ok (s, [])
  deposit_all cfg whitelist total portion env sender s (asset ∷ assets) = do
    (s, msgs) ← deposit_asset cfg whitelist total portion env sender s asset
    (s, more) ← deposit_all cfg whitelist total portion env sender s assets
    ok (s, msgs ++ more)

  -- `vault_bond` is `query_vault_bond_amount`, which asks the vault.
  pub deposit_rewards :
      (Addr → Result StdError ℕ) → State → Env → Addr → List Asset → Result StdError Response
  unfolding stakers_portion deposit_all
  deposit_rewards vault_bond s env sender assets = do
    cfg ← load_item s.config
    total ← load_item s.total_bond_amount
    whitelist ← load_item s.whitelisted_assets
    vault_bond_amount ← vault_bond cfg.vault
    portion ← stakers_portion total vault_bond_amount
    deposit_all cfg whitelist total portion env sender s assets
