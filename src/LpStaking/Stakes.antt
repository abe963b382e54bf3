-- ===== src/LpStaking/Stakes.antt =====
-- contracts/prism-lp-staking/src/handle.rs: the messages of the stakers.
pub mod Keep
pub mod Bonds
pub mod Unbonds
use prism_contracts.Prelude.{
  ℕ, Bool, true, false, Option, none, some, List, [], ◌∷◌, ltb, ◌==◌, if◌then◌else◌, Result, ok,
  err, panic, ◌>>=◌, ◌>>◌, fail_if, or_err, or_panic, map_err, unwrap_or,
}
use prism_contracts.Cosmwasm.{Std}
use prism_contracts.Storage.{Addr, set_at}
use prism_contracts.Storage.Ordered
use prism_contracts.Storage.Named
use prism_contracts.Storage.Keys.{add_key}
use prism_contracts.Messages.{Env, CosmosMsg, cw20, Cw20Msg, load_item}
use prism_contracts.Querier.{Querier, query_token_balance}
use prism_contracts.LpStaking.{
  ContractError, std, invalid_staking_token, nothing_staked, nothing_available_to_unbond,
  nothing_available_to_withdraw, invalid_unbond_amount, unbond_order_overwrite, Config, PoolInfo,
  RewardInfo, State, Response, default_reward, load_config, load_pool,
}
use prism_contracts.LpStaking.Rewards.{compute_pool_reward, compute_staker_reward}
use prism_contracts.LpStaking.Orders.{
  pull_expired_withdraw_orders, save_reward, set_orders, update_or_remove_staker_rewards,
}

-- `REWARD_INFO.load(…).map_err(|_| ContractError::NothingStaked {})?`
abbrev load_reward : State → Addr → Addr → Result ContractError RewardInfo
load_reward s staker token = or_err (Named.load token (s.reward_info staker)) nothing_staked

abbrev pub save_pool : Addr → PoolInfo → State → State
save_pool token pool s = record s { pools = Named.save token pool s.pools }

module _ (ops : Std) where
  unfoldable pub increase_bond_amount :
      PoolInfo → RewardInfo → ℕ → Result ContractError (PoolInfo × RewardInfo)
  increase_bond_amount pool info amount = do
    total ← or_panic (ops.add pool.total_bond_amount amount)
    own ← or_panic (ops.add info.bond_amount amount)
    ok (record pool { total_bond_amount = total }, record info { bond_amount = own })

  unfoldable pub decrease_bond_amount :
      PoolInfo → RewardInfo → ℕ → Result ContractError (PoolInfo × RewardInfo)
  decrease_bond_amount pool info amount = do
    total ← or_panic (ops.sub pool.total_bond_amount amount)
    own ← or_panic (ops.sub info.bond_amount amount)
    ok (record pool { total_bond_amount = total }, record info { bond_amount = own })

  -- The pool is loaded even where it is given.
  unfoldable pub bond :
      State → Env → Addr → Addr → ℕ → Option PoolInfo → Result ContractError Response
  unfolding increase_bond_amount
  bond s env token sender amount pool_info = do
    cfg ← load_config s
    stored ← load_pool s token
    let pool = unwrap_or pool_info stored
    let info = unwrap_or (Named.load token (s.reward_info sender)) default_reward
    (s, info, _) ←
        pull_expired_withdraw_orders ops s sender token info env.seconds pool.unbond_period
    pool ← compute_pool_reward ops cfg pool env.seconds
    info ← compute_staker_reward ops pool info
    (pool, info) ← increase_bond_amount pool info amount
    let s = save_reward sender token info s
    let s = record s {
      staker_by_token = set_at token (add_key sender (s.staker_by_token token)) s.staker_by_token;
    }
    ok (save_pool token pool s, [])

  -- All that is bonded, where no amount is given.
  unfoldable pub amount_to_unbond : RewardInfo → Option ℕ → Result ContractError ℕ
  amount_to_unbond info none = ok info.bond_amount
  amount_to_unbond info (some amount) =
      if ltb info.bond_amount amount then err invalid_unbond_amount else ok amount

  -- The tokens are sent at once, or an order is stored; the flag says whether orders are pending.
  unfoldable pub pay_or_order :
      State
      → Env
      → Addr
      → Addr
      → PoolInfo
      → ℕ
      → Bool
      → Result ContractError (State × PoolInfo × Bool × List CosmosMsg)
  pay_or_order s env sender token pool amount orders_pending =
      if pool.unbond_period == 0
      then ok (s, pool, orders_pending, cw20 token (Cw20Msg.transfer sender amount) ∷ [])
      else (do
        let orders = s.unbond_orders sender token
        fail_if (elim (Ordered.load env.seconds orders) [ none ↦ false | some _ ↦ true ])
            unbond_order_overwrite
        pending ← or_panic (ops.add pool.total_pending_withdraw amount)
        ok (
          set_orders sender token (Ordered.save env.seconds amount orders) s,
          record pool { total_pending_withdraw = pending },
          true,
          [],
        ))

  unfoldable pub unbond : State → Env → Addr → Addr → Option ℕ → Result ContractError Response
  unfolding amount_to_unbond decrease_bond_amount pay_or_order
  unbond s env sender token amount = do
    cfg ← load_config s
    pool ← load_pool s token
    info ← load_reward s sender token
    (s, info, orders_pending) ←
        pull_expired_withdraw_orders ops s sender token info env.seconds pool.unbond_period
    fail_if (info.bond_amount == 0) nothing_available_to_unbond
    amount ← amount_to_unbond info amount
    pool ← compute_pool_reward ops cfg pool env.seconds
    info ← compute_staker_reward ops pool info
    (pool, info) ← decrease_bond_amount pool info amount
    (s, pool, orders_pending, msgs) ← pay_or_order s env sender token pool amount orders_pending
    let s = save_pool token pool s
    ok (update_or_remove_staker_rewards s sender token info orders_pending, msgs)

  unfoldable pub claim_unbonded : State → Env → Addr → Addr → Result ContractError Response
  claim_unbonded s env sender token = do
    pool ← load_pool s token
    info ← load_reward s sender token
    (s, info, orders_pending) ←
        pull_expired_withdraw_orders ops s sender token info env.seconds pool.unbond_period
    fail_if (info.withdrawable_amount == 0) nothing_available_to_withdraw
    let amount = info.withdrawable_amount
    let info = record info { withdrawable_amount = 0 }
    pending ← or_panic (ops.sub pool.total_pending_withdraw amount)
    let s = save_pool token (record pool { total_pending_withdraw = pending }) s
    ok (
      update_or_remove_staker_rewards s sender token info orders_pending,
      cw20 token (Cw20Msg.transfer sender amount) ∷ [],
    )

  -- One round of the loop over the rewards of a staker.
  pub claim_reward :
      Config → Env → Addr → State → ℕ → Addr → RewardInfo → Result ContractError (State × ℕ)
  claim_reward cfg env sender s claimed token info = do
    pool ← map_err std (load_item (Named.load token s.pools))
    (s, info, orders_pending) ←
        pull_expired_withdraw_orders ops s sender token info env.seconds pool.unbond_period
    pool ← compute_pool_reward ops cfg pool env.seconds
    info ← compute_staker_reward ops pool info
    claimed ← or_panic (ops.add claimed info.pending_reward)
    let info = record info { pending_reward = 0 }
    let s = update_or_remove_staker_rewards s sender token info orders_pending
    ok (save_pool token pool s, claimed)

  pub claim_all :
      Config → Env → Addr → State → ℕ → List (Addr × RewardInfo) → Result ContractError (State × ℕ)
  unfolding claim_reward
  claim_all cfg env sender s claimed [] = ok (s, claimed)
  claim_all cfg env sender s claimed ((token, info) ∷ rest) =
      claim_reward cfg env sender s claimed token info >>= λ r.
      claim_all cfg env sender r.0 r.1 rest

  -- The records that are claimed: that of one token, or all.
  pub rewards_of : State → Addr → Option Addr → Result ContractError (List (Addr × RewardInfo))
  rewards_of s sender none = ok (s.reward_info sender)
  rewards_of s sender (some token) =
      or_err (Named.load token (s.reward_info sender)) invalid_staking_token >>= λ info.
      ok ((token, info) ∷ [])

  pub claim_rewards : State → Env → Addr → Option Addr → Result ContractError Response
  unfolding rewards_of claim_all
  claim_rewards s env sender token = do
    cfg ← load_config s
    infos ← rewards_of s sender token
    (s, claimed) ← claim_all cfg env sender s 0 infos
    ok (s, if claimed == 0 then [] else cw20 cfg.prism_token (Cw20Msg.transfer sender claimed) ∷ [])

  -- What the contract holds beyond the stakes and the orders is staked for the sender.
  unfoldable pub auto_stake_hook :
      Querier → State → Env → Addr → Addr → Result ContractError Response
  unfolding bond
  auto_stake_hook q s env token sender = do
    balance ← map_err std (query_token_balance q token env.address)
    pool ← load_pool s token
    rest ← or_panic (ops.sub balance pool.total_bond_amount)
    amount ← or_panic (ops.sub rest pool.total_pending_withdraw)
    bond s env token sender amount (some pool)
