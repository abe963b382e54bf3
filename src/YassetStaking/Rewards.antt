-- ===== src/YassetStaking/Rewards.antt =====
-- contracts/prism-yasset-staking/src/rewards.rs: the rewards of a staker, the claims and the whitelist.
pub mod Keep
use prism_contracts.Prelude.{
  ℕ, min, Bool, true, false, not, ◌||◌, Option, none, some, List, [], ◌∷◌, ◌++◌, String, str_eq,
  ◌==◌, if◌then◌else◌, Result, ok, err, panic, ◌>>=◌, ◌>>◌, fail_if, or_err, or_panic, unwrap_or,
}
use prism_contracts.Cosmwasm.{Std, Decimal, decimal_one}
use prism_contracts.Storage.{Addr, save}
use prism_contracts.Messages.{
  StdError, overflow, generic_err, Env, CosmosMsg, cw20, Cw20Msg, convert_and_send,
  mint_xprism_claim_hook, send_mint_xprism, AssetInfo, native, token, Asset, load_item,
}
use prism_contracts.Querier.{Querier, query_token_balance}
use prism_contracts.YassetStaking.{
  Config, BondInfo, PoolInfo, RewardInfo, State, Response, key_of, same_asset, is_native_token,
  save_reward,
}

abbrev pub load_bond : State → Addr → String → Result StdError BondInfo
load_bond s staker text = or_err (s.bond_amounts staker) (generic_err text)

module _ (ops : Std) where
  unfoldable pub compute_asset_rewards : State → Addr → ℕ → AssetInfo → Result StdError RewardInfo
  compute_asset_rewards s staker bond_amount asset =
      let pool = unwrap_or (s.pool_info (key_of asset)) (record { reward_index = 0 }) in
      elim (s.rewards staker (key_of asset)) [
        | none ↦ ok (record { index = pool.reward_index; pending_reward = 0 })
        | some info ↦ do
          now ← or_panic (ops.mul_decimal bond_amount pool.reward_index)
          before ← or_panic (ops.mul_decimal bond_amount info.index)
          earned ← or_err (ops.checked_sub now before) overflow
          pending ← or_panic (ops.add info.pending_reward earned)
          ok (record { index = pool.reward_index; pending_reward = pending })
      ]

  unfoldable pub compute_all_rewards : State → Addr → ℕ → List AssetInfo → Result StdError State
  unfolding compute_asset_rewards
  compute_all_rewards s staker bond_amount [] = ok s
  compute_all_rewards s staker bond_amount (asset ∷ assets) = do
    info ← compute_asset_rewards s staker bond_amount asset
    compute_all_rewards (save_reward staker asset info s) staker bond_amount assets

  -- The loop of `claim_rewards`.
  pub claim_assets : State → Addr → ℕ → List AssetInfo → Result StdError Response
  unfolding compute_asset_rewards
  claim_assets s sender bond_amount [] = ok (s, [])
  claim_assets s sender bond_amount (asset ∷ assets) = do
    info ← compute_asset_rewards s sender bond_amount asset
    let s = save_reward sender asset (record info { pending_reward = 0 }) s
    msgs ← if info.pending_reward == 0 then ok [] else elim asset [
      | native denom ↦ err (generic_err "Native reward assets not supported")
      | token address ↦ ok (cw20 address (Cw20Msg.transfer sender info.pending_reward) ∷ [])
    ]
    (s, more) ← claim_assets s sender bond_amount assets
    ok (s, msgs ++ more)

  pub claim_rewards : State → Addr → Result StdError Response
  unfolding claim_assets
  claim_rewards s sender = do
    whitelist ← load_item s.whitelisted_assets
    bond ← load_bond s sender "no tokens bonded"
    claim_assets s sender bond.bond_amount whitelist

  unfoldable pub verify_claim_asset : Config → AssetInfo → Result StdError Addr
  verify_claim_asset cfg (native denom) = err (generic_err "Native claim assets not supported")
  verify_claim_asset cfg (token address) =
      if str_eq address cfg.prism_token
        || str_eq address cfg.xprism_token
        || str_eq address cfg.cluna_token
        || str_eq address cfg.yluna_token
        || str_eq address cfg.pluna_token
      then ok address
      else err (generic_err "Claim asset not supported")

  -- What one pending reward adds to the messages and to the assets to swap.
  unfoldable pub convert_asset :
      Config
      → Addr
      → AssetInfo
      → Addr
      → AssetInfo
      → Asset
      → Result StdError (List CosmosMsg × List Asset)
  convert_asset cfg sender claim_info claim_token dest reward =
      if same_asset reward.info claim_info
      then ok (cw20 claim_token (Cw20Msg.transfer sender reward.amount) ∷ [], [])
      else if same_asset reward.info dest
      then ok ([], [])
      else elim reward.info [
        | native denom ↦ err (generic_err "Native reward assets not supported")
        | token address ↦ ok (
          cw20 address (Cw20Msg.increase_allowance cfg.collector reward.amount) ∷ [],
          reward ∷ [],
        )
      ]

  -- The loop of `convert_and_claim_rewards`.
  unfoldable pub convert_assets :
      Config
      → State
      → Addr
      → ℕ
      → AssetInfo
      → Addr
      → AssetInfo
      → List AssetInfo
      → Result StdError (State × List CosmosMsg × List Asset)
  unfolding compute_asset_rewards convert_asset
  convert_assets cfg s sender bond_amount claim_info claim_token dest [] = ok (s, [], [])
  convert_assets cfg s sender bond_amount claim_info claim_token dest (asset ∷ assets) = do
    info ← compute_asset_rewards s sender bond_amount asset
    let skip = info.pending_reward == 0
    (msgs, swaps) ←
        if skip
        then ok ([], [])
        else convert_asset cfg sender claim_info claim_token dest
            (record { info = asset; amount = info.pending_reward })
    let s = if skip then s else save_reward sender asset (record info { pending_reward = 0 }) s
    (s, more, others) ← convert_assets cfg s sender bond_amount claim_info claim_token dest assets
    ok (s, msgs ++ more, swaps ++ others)

  -- The messages of the swaps, if there are any.
  unfoldable pub swap_messages :
      Querier
      → Config
      → Env
      → Addr
      → Addr
      → AssetInfo
      → List Asset
      → Result StdError (List CosmosMsg)
  swap_messages q cfg env sender receiver dest [] = ok []
  swap_messages q cfg env sender receiver dest swaps = do
    let convert = convert_and_send cfg.collector swaps receiver dest
    if str_eq receiver env.address
        then (query_token_balance q cfg.prism_token env.address >>= λ prev.
            ok (convert ∷ mint_xprism_claim_hook env.address sender prev ∷ []))
        else ok (convert ∷ [])

  unfoldable pub convert_and_claim_rewards :
      Querier → State → Env → Addr → AssetInfo → Result StdError Response
  unfolding verify_claim_asset convert_assets swap_messages
  convert_and_claim_rewards q s env sender claim_info = do
    cfg ← load_item s.config
    whitelist ← load_item s.whitelisted_assets
    bond ← load_bond s sender "no tokens bonded"
    claim_token ← verify_claim_asset cfg claim_info
    let by_mint = str_eq claim_token cfg.xprism_token
    let dest = if by_mint then token cfg.prism_token else token claim_token
    let receiver = if by_mint then env.address else sender
    (s, msgs, swaps) ←
        convert_assets cfg s sender bond.bond_amount claim_info claim_token dest whitelist
    more ← swap_messages q cfg env sender receiver dest swaps
    ok (s, msgs ++ more)

  pub mint_xprism_hook : Querier → State → Env → Addr → Addr → ℕ → Result StdError Response
  mint_xprism_hook q s env sender receiver prev_balance = do
    cfg ← load_item s.config
    fail_if (not (str_eq sender env.address)) (generic_err "unauthorized")
    balance ← query_token_balance q cfg.prism_token env.address
    amount ← or_err (ops.checked_sub balance prev_balance) overflow
    ok (s, send_mint_xprism cfg.prism_token cfg.gov amount receiver ∷ [])

-- The configuration, for its owner.
abbrev owned : State → Addr → Result StdError Config
owned s sender = do
  cfg ← load_item s.config
  fail_if (not (str_eq sender cfg.owner)) (generic_err "unauthorized")
  ok cfg

pub whitelist_reward_asset : State → Addr → AssetInfo → Result StdError Response
whitelist_reward_asset s sender asset = do
  cfg ← owned s sender
  fail_if (is_native_token asset) (generic_err "only token assets can be whitelisted")
  whitelist ← load_item s.whitelisted_assets
  ok (record s { whitelisted_assets = some (whitelist ++ asset ∷ []) }, [])

-- The list without the first asset that is equal, if there is one.
pub without : AssetInfo → List AssetInfo → Option (List AssetInfo)
without asset [] = none
without asset (a ∷ xs) =
    let rest = without asset xs in
    if same_asset a asset then some xs else elim rest [ none ↦ none | some ys ↦ some (a ∷ ys) ]

pub remove_whitelisted_reward_asset : State → Addr → AssetInfo → Result StdError Response
unfolding without
remove_whitelisted_reward_asset s sender asset = do
  cfg ← owned s sender
  whitelist ← load_item s.whitelisted_assets
  shorter ← or_err (without asset whitelist) (generic_err "this asset is not whitelisted")
  ok (record s { whitelisted_assets = some shorter }, [])
