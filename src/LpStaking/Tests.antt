-- ===== src/LpStaking/Tests.antt =====
-- Runs of the LP staking contract, and its theorems at concrete inputs.
use prism_contracts.Prelude.{
  ℕ, ◌+◌, ◌*◌, ◌≤◌, ◌≡◌, refl, true, false, none, List, [], ◌∷◌, String, Result, ok, err, panic,
}
use prism_contracts.Cosmwasm.{reference, reference-IsStd}
use prism_contracts.Messages.{StdError, CosmosMsg, Env, Validator}
use prism_contracts.Querier.{Querier, query_token_balance}
use prism_contracts.LpStaking.{
  ContractError, duplicate_staking_token, Config, State, PoolInfo, RewardInfo, default_reward,
}
use prism_contracts.LpStaking.Rewards.{
  add_schedule, distribute, compute_pool_reward, compute_staker_reward,
}
use prism_contracts.LpStaking.Rewards.Bounds.{
  AreParts, Credited, compute_pool_reward-Credited, compute_staker_reward-twice,
}
use prism_contracts.LpStaking.Orders.{
  pull_orders, get_withdrawable_amount, remove_times, remove_withdrawn,
  pull_expired_withdraw_orders,
}
use prism_contracts.LpStaking.Stakes
use prism_contracts.LpStaking.Stakes.{
  increase_bond_amount, decrease_bond_amount, amount_to_unbond, pay_or_order,
}
use prism_contracts.LpStaking.Stakes.Bonds.{auto_stake_hook-sweeps}
use prism_contracts.LpStaking.Pools
use prism_contracts.LpStaking.Pools.{reweigh_pools, set_weight, set_unbond_period}
use prism_contracts.LpStaking.Backed.{IsBacked, total_bond, total_pending}
use prism_contracts.LpStaking.Entry.{
  InstantiateMsg, ExecuteMsg, Cw20HookMsg, check_first_schedule, insert_token, sort_tokens,
  dedup_after, dedup_tokens, sum_weights, add_pools, instantiate, receive_cw20, execute,
}
use prism_contracts.LpStaking.Entry.Invariant.{instantiate-IsBacked, execute-IsBacked}

abbrev human : Validator
human a = ok a

abbrev at : ℕ → Env
at t = record { seconds = t; height = 1; address = "lp_staking" }

abbrev decode : String → Result StdError Cw20HookMsg
decode _ = ok Cw20HookMsg.bond

-- The contract holds 150 of every token.
abbrev chain : Querier
chain = record {
  all_delegations = λ _. ok [];
  delegation = λ _ _. ok none;
  all_validators = ok [];
  validator_exists = λ _. ok false;
  balance = λ _ _. ok 0;
  token_supply = λ _. ok 0;
  token_balance = λ _ _. ok 150;
}

abbrev init : InstantiateMsg
init = record {
  owner = "owner";
  prism_token = "prism";
  distribution_schedule = (0, 100, 1000) ∷ [];
  staking_tokens = ("lp_b", 1, 0) ∷ ("lp_a", 3, 50) ∷ [];
}

abbrev nothing : State
nothing = record {
  config = none;
  pools = [];
  reward_info = λ _. [];
  unbond_orders = λ _ _. [];
  staker_by_token = λ _. [];
}

abbrev fst_of : {B : Type 0} → Result ContractError (State × B) → State
fst_of (ok s) = s.0
fst_of (err e) = nothing
fst_of panic = nothing

abbrev first : Result ContractError (State × List CosmosMsg)
first = instantiate human (at 0) init

first_ok : first ≡ ok (fst_of first, [])
unfolding instantiate check_first_schedule sort_tokens insert_token dedup_tokens dedup_after
    sum_weights add_pools
first_ok = refl

twice_named :
    instantiate human
      (at 0)
      (record init { staking_tokens = ("lp_a", 1, 0) ∷ ("lp_b", 1, 0) ∷ ("lp_a", 3, 50) ∷ [] })
    ≡ err duplicate_staking_token
unfolding instantiate check_first_schedule sort_tokens insert_token dedup_tokens dedup_after
twice_named = refl

first-IsBacked : IsBacked (fst_of first)
first-IsBacked = instantiate-IsBacked human (at 0) init (fst_of first) [] first_ok

abbrev deposit : ExecuteMsg
deposit = ExecuteMsg.receive (record { sender = "bob"; amount = 100; msg = "bond" })

abbrev bonded : Result ContractError (State × List CosmosMsg)
bonded = execute human reference chain decode (fst_of first) (at 10) "lp_a" deposit

bonded_ok : bonded ≡ ok (fst_of bonded, [])
unfolding instantiate check_first_schedule sort_tokens insert_token dedup_tokens dedup_after
    sum_weights add_pools execute receive_cw20 Stakes.bond pull_expired_withdraw_orders
    get_withdrawable_amount pull_orders remove_withdrawn remove_times compute_pool_reward distribute
    add_schedule compute_staker_reward increase_bond_amount
bonded_ok = refl

execute-IsBacked_example : IsBacked (fst_of bonded)
execute-IsBacked_example =
    execute-IsBacked human reference reference-IsStd chain decode (fst_of first) (fst_of bonded)
      (at 10) "lp_a" deposit [] bonded_ok first-IsBacked

-- The other 50 tokens are staked for Eve.
abbrev swept : Result ContractError (State × List CosmosMsg)
swept = Stakes.auto_stake_hook reference chain (fst_of bonded) (at 20) "lp_a" "eve"

swept_ok : swept ≡ ok (fst_of swept, [])
unfolding instantiate check_first_schedule sort_tokens insert_token dedup_tokens dedup_after
    sum_weights add_pools execute receive_cw20 Stakes.auto_stake_hook Stakes.bond
    pull_expired_withdraw_orders get_withdrawable_amount pull_orders remove_withdrawn remove_times
    compute_pool_reward distribute add_schedule compute_staker_reward increase_bond_amount
    query_token_balance
swept_ok = refl

bonded-IsBacked : IsBacked (fst_of bonded)
bonded-IsBacked =
    execute-IsBacked human reference reference-IsStd chain decode (fst_of first) (fst_of bonded)
      (at 10) "lp_a" deposit [] bonded_ok first-IsBacked

auto_stake_hook-sweeps_example :
    IsBacked (fst_of swept)
    × (query_token_balance chain "lp_a" "lp_staking"
        ≡ ok (total_bond (fst_of swept) "lp_a" + total_pending (fst_of swept) "lp_a"))
    × (total_bond (fst_of bonded) "lp_a" ≤ total_bond (fst_of swept) "lp_a")
auto_stake_hook-sweeps_example =
    auto_stake_hook-sweeps reference reference-IsStd chain (fst_of bonded) (fst_of swept) (at 20)
      "lp_a" "eve" [] swept_ok bonded-IsBacked

abbrev rules : Config
rules = record {
  owner = "owner";
  prism_token = "prism";
  distribution_schedule = (0, 100, 1000) ∷ [];
  total_weight = 4;
}

abbrev pool : PoolInfo
pool = record {
  last_distributed = 10;
  weight = 3;
  total_bond_amount = 100;
  total_pending_withdraw = 0;
  reward_index = 0;
  pending_reward = 75;
  unbond_period = 50;
}

-- 20 seconds of 100 bring 150, which with the 75 that wait are 2.25 for each of the 100 tokens.
pool_at_30 :
    compute_pool_reward reference rules pool 30
    ≡ ok (record pool {
      last_distributed = 30;
      reward_index = 2_250_000_000_000_000_000;
      pending_reward = 0;
    })
unfolding compute_pool_reward distribute add_schedule
pool_at_30 = refl

compute_pool_reward-Credited_example :
    let now : ℕ = 30 in
    let after : PoolInfo = record pool {
      last_distributed = 30;
      reward_index = 2_250_000_000_000_000_000;
      pending_reward = 0;
    } in
    (distributed : ℕ) × AreParts rules pool 30 rules.distribution_schedule distributed
    × (now ≡ 30)
    × Credited pool after distributed
compute_pool_reward-Credited_example =
    compute_pool_reward-Credited reference reference-IsStd rules pool
      (record pool {
        last_distributed = 30;
        reward_index = 2_250_000_000_000_000_000;
        pending_reward = 0;
      })
      30 pool_at_30

abbrev pool_with : ℕ → PoolInfo
pool_with index = record pool { reward_index = index }

abbrev staker : ℕ → ℕ → RewardInfo
staker index pending = record default_reward {
  reward_index = index;
  bond_amount = 7;
  pending_reward = pending;
}

abbrev half : ℕ
half = 500_000_000_000_000_000

staker_at_half : compute_staker_reward reference (pool_with half) (staker 0 0) ≡ ok (staker half 3)
unfolding compute_staker_reward
staker_at_half = refl

staker_at_one :
    compute_staker_reward reference (pool_with (2 * half)) (staker half 3)
    ≡ ok (staker (2 * half) 7)
unfolding compute_staker_reward
staker_at_one = refl

compute_staker_reward-twice_example :
    compute_staker_reward reference (pool_with (2 * half)) (staker 0 0) ≡ ok (staker (2 * half) 7)
compute_staker_reward-twice_example =
    compute_staker_reward-twice reference reference-IsStd (pool_with half) (pool_with (2 * half))
      (staker 0 0) (staker half 3) (staker (2 * half) 7) staker_at_half staker_at_one

-- The weight of the first of two pools is changed after 10 seconds: the other, which has a quarter
-- of the weight until then, is credited with 1 in place of 25, as the new total weight is used.
reweighed :
    Pools.reweigh_pools reference 10 "a" 99
      (("a", record pool { last_distributed = 0 })
        ∷ (
          "b",
          record pool {
            last_distributed = 0;
            weight = 1;
            total_bond_amount = 0;
            pending_reward = 0;
          },
        )
        ∷ [])
      rules
      false
      nothing
    ≡ ok (
      record rules { total_weight = 100 },
      true,
      record nothing {
        pools =
            (
              "a",
              record pool {
                weight = 99;
                reward_index = 1_500_000_000_000_000_000;
                pending_reward = 0;
              },
            )
            ∷ ("b", record pool { weight = 1; total_bond_amount = 0; pending_reward = 1 })
            ∷ [];
      },
    )
unfolding Pools.reweigh_pools compute_pool_reward distribute add_schedule
reweighed = refl
