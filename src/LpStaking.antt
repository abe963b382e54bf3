-- ===== src/LpStaking.antt =====
-- contracts/prism-lp-staking: liquidity tokens are staked for a share of a schedule of PRISM rewards,
-- and come back with a delay.
pub mod Rewards
pub mod Backed
pub mod Effect
pub mod Orders
pub mod Stakes
pub mod Pools
pub mod Entry
mod Tests
use prism_contracts.Prelude.{ℕ, Option, List, String, Result, map_err}
use prism_contracts.Cosmwasm.{Decimal}
use prism_contracts.Storage.{Addr}
use prism_contracts.Storage.Ordered.{OrderedMap}
use prism_contracts.Storage.Named
use prism_contracts.Storage.Named.{NamedMap}
use prism_contracts.Messages.{StdError, CosmosMsg, load_item}

pub data ContractError : Type 0 where
  std : StdError → ContractError
  unauthorized invalid_staking_token nothing_staked invalid_unbond_amount : ContractError
  nothing_available_to_unbond nothing_available_to_withdraw invalid_cw20_msg : ContractError
  invalid_distribution_schedule duplicate_staking_token already_exists : ContractError
  unbond_order_overwrite : ContractError

-- The start and the end of a distribution, and its amount.
abbrev pub Schedule : Type 0
Schedule = ℕ × ℕ × ℕ

pub record Config : Type 0 where
  pub owner : Addr
  pub prism_token : Addr
  pub distribution_schedule : List Schedule
  pub total_weight : ℕ

pub record PoolInfo : Type 0 where
  pub last_distributed : ℕ
  pub weight : ℕ
  pub total_bond_amount : ℕ
  pub total_pending_withdraw : ℕ
  pub reward_index : Decimal
  pub pending_reward : ℕ
  pub unbond_period : ℕ

pub record RewardInfo : Type 0 where
  pub reward_index : Decimal
  pub bond_amount : ℕ
  pub withdrawable_amount : ℕ
  pub pending_reward : ℕ

-- `CONFIG`; `POOLS` by token; `REWARD_INFO` by staker, then token; `UNBOND_ORDERS` by staker, then token,
-- then time; the stakers of each token in `STAKER_BY_TOKEN_INDEXER`.
pub record State : Type 0 where
  pub config : Option Config
  pub pools : NamedMap PoolInfo
  pub reward_info : Addr → NamedMap RewardInfo
  pub unbond_orders : Addr → Addr → OrderedMap ℕ
  pub staker_by_token : Addr → List Addr

abbrev pub Response : Type 0
Response = State × List CosmosMsg

-- `RewardInfo::default()`
abbrev pub default_reward : RewardInfo
default_reward = record {
  reward_index = 0;
  bond_amount = 0;
  withdrawable_amount = 0;
  pending_reward = 0;
}

-- `PoolInfo` with these three fields, and the default otherwise.
abbrev pub new_pool : ℕ → ℕ → ℕ → PoolInfo
new_pool now weight unbond_period = record {
  last_distributed = now;
  weight = weight;
  total_bond_amount = 0;
  total_pending_withdraw = 0;
  reward_index = 0;
  pending_reward = 0;
  unbond_period = unbond_period;
}

abbrev pub load_config : State → Result ContractError Config
load_config s = map_err ContractError.std (load_item s.config)

-- `POOLS.load(…).map_err(|_| ContractError::InvalidStakingToken {})?`
abbrev pub load_pool : State → Addr → Result ContractError PoolInfo
load_pool s token =
    map_err (λ _. ContractError.invalid_staking_token) (load_item (Named.load token s.pools))
