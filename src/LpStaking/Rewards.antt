-- ===== src/LpStaking/Rewards.antt =====
-- contracts/prism-lp-staking/src/handle.rs: the rewards of a pool and of a staker.
pub mod Frame
pub mod Bounds
use prism_contracts.Prelude.{
  ℕ, ◌+◌, min, max, Bool, true, false, ◌||◌, List, [], ◌∷◌, ltb, ◌==◌, if◌then◌else◌, Result, ok,
  err, panic, ◌>>=◌, or_panic, sub_u64,
}
use prism_contracts.Cosmwasm.{Std}
use prism_contracts.LpStaking.{ContractError, Config, Schedule, PoolInfo, RewardInfo}

module _ (ops : Std) where
  -- One round: what the distribution adds.
  unfoldable pub add_schedule : Config → PoolInfo → ℕ → Schedule → ℕ → Result ContractError ℕ
  add_schedule cfg pool now (start, finish, amount) distributed =
      if ltb now start || ltb finish pool.last_distributed then ok distributed else (do
        seconds_passed ← sub_u64 (min finish now) (max start pool.last_distributed)
        num_seconds ← sub_u64 finish start
        share ← or_panic (ops.from_ratio pool.weight cfg.total_weight)
        of_pool ← or_panic (ops.mul_decimal amount share)
        per_second ← or_panic (ops.from_ratio of_pool num_seconds)
        earned ← or_panic (ops.mul_decimal seconds_passed per_second)
        or_panic (ops.add distributed earned))

  unfoldable pub distribute : Config → PoolInfo → ℕ → List Schedule → ℕ → Result ContractError ℕ
  unfolding add_schedule
  distribute cfg pool now [] distributed = ok distributed
  distribute cfg pool now (s ∷ rest) distributed =
      add_schedule cfg pool now s distributed >>= distribute cfg pool now rest

  unfoldable pub compute_pool_reward : Config → PoolInfo → ℕ → Result ContractError PoolInfo
  unfolding distribute
  compute_pool_reward cfg pool now = do
    distributed ← distribute cfg pool now cfg.distribution_schedule 0
    total ← or_panic (ops.add pool.pending_reward distributed)
    if pool.total_bond_amount == 0
        then ok (record pool { last_distributed = now; pending_reward = total })
        else (do
          per_token ← or_panic (ops.from_ratio total pool.total_bond_amount)
          index ← or_panic (ops.add_decimal pool.reward_index per_token)
          ok (record pool { last_distributed = now; reward_index = index; pending_reward = 0 }))

  unfoldable pub compute_staker_reward : PoolInfo → RewardInfo → Result ContractError RewardInfo
  compute_staker_reward pool info = do
    now ← or_panic (ops.mul_decimal info.bond_amount pool.reward_index)
    before ← or_panic (ops.mul_decimal info.bond_amount info.reward_index)
    earned ← or_panic (ops.sub now before)
    pending ← or_panic (ops.add info.pending_reward earned)
    ok (record info { reward_index = pool.reward_index; pending_reward = pending })
