-- ===== src/YassetStaking.antt =====
-- contracts/prism-yasset-staking: staked yLuna shares in the rewards that are deposited.
pub mod Frame
pub mod Rewards
pub mod Deposits
pub mod Staking
pub mod Swaps
pub mod Entry
mod Tests
use prism_contracts.Prelude.{ℕ, Bool, true, false, Option, none, some, List, String, str_eq}
use prism_contracts.Cosmwasm.{Decimal}
use prism_contracts.Storage.{Addr, Map, save, set_at}
use prism_contracts.Messages.{CosmosMsg, AssetInfo, native, token}

pub record Config : Type 0 where
  pub owner : Addr
  pub vault : Addr
  pub gov : Addr
  pub collector : Addr
  pub protocol_fee : Decimal
  pub cluna_token : Addr
  pub yluna_token : Addr
  pub pluna_token : Addr
  pub prism_token : Addr
  pub xprism_token : Addr

pub record BondInfo : Type 0 where
  pub bond_amount : ℕ

pub record PoolInfo : Type 0 where
  pub reward_index : Decimal

pub record RewardInfo : Type 0 where
  pub index : Decimal
  pub pending_reward : ℕ

-- `REWARDS` by owner, then asset; `POOL_INFO` by asset; `BOND_AMOUNTS` by owner.
pub record State : Type 0 where
  pub config : Option Config
  pub whitelisted_assets : Option (List AssetInfo)
  pub total_bond_amount : Option ℕ
  pub pool_info : Map PoolInfo
  pub rewards : Addr → Map RewardInfo
  pub bond_amounts : Map BondInfo

abbrev pub Response : Type 0
Response = State × List CosmosMsg

-- `as_bytes`: coins and tokens share the keys.
abbrev pub key_of : AssetInfo → String
key_of (native denom) = denom
key_of (token address) = address

-- `==` of assets.
abbrev pub same_asset : AssetInfo → AssetInfo → Bool
same_asset (native a) (native b) = str_eq a b
same_asset (token a) (token b) = str_eq a b
same_asset a b = false

abbrev pub is_native_token : AssetInfo → Bool
is_native_token (native denom) = true
is_native_token (token address) = false

abbrev pub save_reward : Addr → AssetInfo → RewardInfo → State → State
save_reward staker asset info s = record s {
  rewards = set_at staker (save (key_of asset) info (s.rewards staker)) s.rewards;
}
