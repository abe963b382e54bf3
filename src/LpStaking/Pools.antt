-- ===== src/LpStaking/Pools.antt =====
-- contracts/prism-lp-staking/src/handle.rs: the messages of the owner.
pub mod Keep
pub mod Owner
use prism_contracts.Prelude.{
  ℕ, Bool, true, false, not, ◌||◌, Option, none, some, List, [], ◌∷◌, ◌++◌, str_eq, ltb, leb, ◌==◌,
  if◌then◌else◌, Result, ok, err, panic, ◌>>=◌, ◌>>◌, fail_if, add_u64, sub_u64,
}
use prism_contracts.Cosmwasm.{Std}
use prism_contracts.Storage.{Addr}
use prism_contracts.Storage.Named
use prism_contracts.Messages.{Env}
use prism_contracts.LpStaking.{
  ContractError, unauthorized, invalid_distribution_schedule, already_exists, invalid_staking_token,
  Config, Schedule, PoolInfo, State, Response, new_pool, load_config, load_pool,
}
use prism_contracts.LpStaking.Rewards.{compute_pool_reward}
use prism_contracts.LpStaking.Stakes.{save_pool}

-- The configuration, for its owner.
abbrev owned : State → Addr → Result ContractError Config
owned s sender = do
  cfg ← load_config s
  fail_if (not (str_eq cfg.owner sender)) unauthorized
  ok cfg

pub update_owner : State → Addr → Addr → Result ContractError Response
update_owner s sender new_owner = do
  cfg ← owned s sender
  ok (record s { config = some (record cfg { owner = new_owner }) }, [])

-- The loop over the new distributions.
pub check_schedule : ℕ → List Schedule → Result ContractError (Unit {0})
check_schedule now [] = ok tt
check_schedule now ((start, finish, amount) ∷ rest) = do
  fail_if (ltb start now || (leb finish start || (amount == 0))) invalid_distribution_schedule
  check_schedule now rest

pub add_distribution_schedule : State → Env → Addr → List Schedule → Result ContractError Response
unfolding check_schedule
add_distribution_schedule s env sender schedule = do
  cfg ← owned s sender
  check_schedule env.seconds schedule
  let cfg = record cfg { distribution_schedule = cfg.distribution_schedule ++ schedule }
  ok (record s { config = some cfg }, [])

module _ (ops : Std) where
  -- The rewards of all pools up to now; a pool of the new token is an error.
  pub refresh_pools :
      Config → ℕ → Addr → List (Addr × PoolInfo) → State → Result ContractError State
  refresh_pools cfg now token [] s = ok s
  refresh_pools cfg now token ((k, pool) ∷ rest) s = do
    fail_if (str_eq k token) already_exists
    pool ← compute_pool_reward ops cfg pool now
    refresh_pools cfg now token rest (save_pool k pool s)

  pub register_staking_token : State → Env → Addr → Addr → ℕ → ℕ → Result ContractError Response
  unfolding refresh_pools
  register_staking_token s env sender token unbond_period weight = do
    cfg ← owned s sender
    s ← refresh_pools cfg env.seconds token s.pools s
    let s = save_pool token (new_pool env.seconds weight unbond_period) s
    total ← add_u64 cfg.total_weight weight
    ok (record s { config = some (record cfg { total_weight = total }) }, [])

  -- The rewards of all pools up to now, and the new weight of one; each pool is computed with the
  -- total weight of its turn.
  unfoldable pub reweigh_pools :
      ℕ
      → Addr
      → ℕ
      → List (Addr × PoolInfo)
      → Config
      → Bool
      → State
      → Result ContractError (Config × Bool × State)
  reweigh_pools now token weight [] cfg found s = ok (cfg, found, s)
  reweigh_pools now token weight ((k, pool) ∷ rest) cfg found s = do
    pool ← compute_pool_reward ops cfg pool now
    elim (str_eq k token) [
      | true ↦ do
        less ← sub_u64 cfg.total_weight pool.weight
        total ← add_u64 less weight
        let s = save_pool k (record pool { weight = weight }) s
        reweigh_pools now token weight rest (record cfg { total_weight = total }) true s
      | false ↦ reweigh_pools now token weight rest cfg found (save_pool k pool s)
    ]

  -- `if let Some(new_weight) = weight { … }`
  unfoldable pub set_weight : State → Env → Addr → Option ℕ → Config → Result ContractError State
  unfolding reweigh_pools
  set_weight s env token none cfg = ok s
  set_weight s env token (some weight) cfg = do
    (cfg, found, s) ← reweigh_pools env.seconds token weight s.pools cfg false s
    fail_if (not found) invalid_staking_token
    ok (record s { config = some cfg })

  -- `if let Some(unbond_period) = unbond_period { … }`
  unfoldable pub set_unbond_period : State → Addr → Option ℕ → Result ContractError State
  set_unbond_period s token none = ok s
  set_unbond_period s token (some period) =
      load_pool s token >>= λ pool. ok (save_pool token (record pool { unbond_period = period }) s)

  unfoldable pub update_staking_token :
      State → Env → Addr → Addr → Option ℕ → Option ℕ → Result ContractError Response
  unfolding set_weight set_unbond_period
  update_staking_token s env sender token unbond_period weight = do
    cfg ← owned s sender
    s ← set_weight s env token weight cfg
    s ← set_unbond_period s token unbond_period
    ok (s, [])
