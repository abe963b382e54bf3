-- ===== src/LpStaking/Rewards/Frame.antt =====
-- The rewards do not touch what is staked or waits for its withdrawal.
use prism_contracts.Prelude.{ℕ, ◌≡◌, arith, ok, inl, inr, Result-cases}
use prism_contracts.Cosmwasm.{Std}
use prism_contracts.LpStaking.{Config, PoolInfo, RewardInfo}
use prism_contracts.LpStaking.Rewards.{distribute, compute_pool_reward, compute_staker_reward}

module _ (ops : Std) where
  pub compute_pool_reward-same :
      (cfg : Config) (pool after : PoolInfo) (now : ℕ)
      → compute_pool_reward ops cfg pool now ≡ ok after
      → (after.total_bond_amount ≡ pool.total_bond_amount)
        × (after.total_pending_withdraw ≡ pool.total_pending_withdraw)
        × (after.unbond_period ≡ pool.unbond_period)
        × (after.weight ≡ pool.weight)
  unfolding compute_pool_reward
  compute_pool_reward-same cfg pool after now e =
      elim (Result-cases (distribute ops cfg pool now cfg.distribution_schedule 0)) [
        | inr bad ↦ absurd (ground arith)
        | inl (distributed, e1) ↦ ground arith
      ]

  pub compute_staker_reward-same :
      (pool : PoolInfo) (info after : RewardInfo)
      → compute_staker_reward ops pool info ≡ ok after
      → (after.bond_amount ≡ info.bond_amount)
        × (after.withdrawable_amount ≡ info.withdrawable_amount)
  unfolding compute_staker_reward
  compute_staker_reward-same pool info after e = ground arith
