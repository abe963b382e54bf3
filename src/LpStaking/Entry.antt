-- ===== src/LpStaking/Entry.antt =====
-- contracts/prism-lp-staking/src/contract.rs: instantiation and all messages.
pub mod Invariant
use Prim.Native.String.{compare}
use Prim.Native.Nat.{Ordering}
use prism_contracts.Prelude.{
  ℕ, Bool, true, false, not, Option, none, some, List, [], ◌∷◌, String, str_eq, ltb, leb, ◌==◌,
  if◌then◌else◌, Result, ok, err, panic, ◌>>=◌, ◌>>◌, fail_if, map_err, unwrap, add_u64,
}
use prism_contracts.Prelude.Lists.{length}
use prism_contracts.Cosmwasm.{Std}
use prism_contracts.Storage.{Addr}
use prism_contracts.Storage.Keys.{before}
use prism_contracts.Messages.{StdError, Env, Cw20ReceiveMsg, Validator}
use prism_contracts.Querier.{Querier}
use prism_contracts.LpStaking.{
  ContractError, std, invalid_distribution_schedule, duplicate_staking_token, invalid_cw20_msg,
  Config, Schedule, State, Response, new_pool,
}
use prism_contracts.LpStaking.Stakes
use prism_contracts.LpStaking.Stakes.{save_pool}
use prism_contracts.LpStaking.Pools

-- A token with its weight and its unbond period.
abbrev pub StakingToken : Type 0
StakingToken = String × ℕ × ℕ

pub record InstantiateMsg : Type 0 where
  pub owner : String
  pub prism_token : String
  pub distribution_schedule : List Schedule
  pub staking_tokens : List StakingToken

pub data Cw20HookMsg : Type 0 where
  bond : Cw20HookMsg

pub data ExecuteMsg : Type 0 where
  receive : Cw20ReceiveMsg → ExecuteMsg
  update_owner : String → ExecuteMsg
  add_distribution_schedule : List Schedule → ExecuteMsg
  register_staking_token : String → ℕ → ℕ → ExecuteMsg
  update_staking_token : String → Option ℕ → Option ℕ → ExecuteMsg
  unbond : String → Option ℕ → ExecuteMsg
  claim_unbonded : String → ExecuteMsg
  claim_rewards : Option String → ExecuteMsg
  auto_stake_hook : String → ExecuteMsg

-- Whether the first tuple is at most the second, the names first.
abbrev not_after : StakingToken → StakingToken → Bool
not_after (a, w, p) (b, x, q) =
    if str_eq a b then (if w == x then leb p q else ltb w x) else before a b

unfoldable pub insert_token : StakingToken → List StakingToken → List StakingToken
insert_token t [] = t ∷ []
insert_token t (u ∷ us) = if not_after t u then t ∷ u ∷ us else u ∷ insert_token t us

-- `sort`
unfoldable pub sort_tokens : List StakingToken → List StakingToken
unfolding insert_token
sort_tokens [] = []
sort_tokens (t ∷ ts) = insert_token t (sort_tokens ts)

-- `dedup_by` with equal names, after a token that was kept.
unfoldable pub dedup_after : String → List StakingToken → List StakingToken
dedup_after name [] = []
dedup_after name ((a, w, p) ∷ ts) = elim (str_eq a name) [
  | true ↦ dedup_after name ts
  | false ↦ (a, w, p) ∷ dedup_after a ts
]

unfoldable pub dedup_tokens : List StakingToken → List StakingToken
unfolding dedup_after
dedup_tokens [] = []
dedup_tokens ((a, w, p) ∷ ts) = (a, w, p) ∷ dedup_after a ts

-- The loop over the distributions of the first message.
unfoldable pub check_first_schedule : List Schedule → Result ContractError (Unit {0})
check_first_schedule [] = ok tt
check_first_schedule ((start, finish, amount) ∷ rest) = do
  fail_if (leb finish start) invalid_distribution_schedule
  check_first_schedule rest

-- `iter().map(|item| item.1).sum()`
unfoldable pub sum_weights : List StakingToken → ℕ → Result ContractError ℕ
sum_weights [] sum = ok sum
sum_weights ((a, w, p) ∷ ts) sum = add_u64 sum w >>= sum_weights ts

module _ (addr_validate : Validator) where
  abbrev validate : String → Result ContractError Addr
  validate text = map_err std (addr_validate text)

  unfoldable pub add_pools : ℕ → List StakingToken → State → Result ContractError State
  add_pools now [] s = ok s
  add_pools now ((a, weight, period) ∷ ts) s = do
    token ← validate a
    add_pools now ts (save_pool token (new_pool now weight period) s)

  unfoldable pub instantiate : Env → InstantiateMsg → Result ContractError Response
  unfolding check_first_schedule sort_tokens dedup_tokens sum_weights add_pools
  instantiate env msg = do
    check_first_schedule msg.distribution_schedule
    let staking_tokens = dedup_tokens (sort_tokens msg.staking_tokens)
    fail_if (not (length staking_tokens == length msg.staking_tokens)) duplicate_staking_token
    owner ← validate msg.owner
    prism ← validate msg.prism_token
    total ← sum_weights staking_tokens 0
    s ← add_pools env.seconds staking_tokens (record {
      config = none;
      pools = [];
      reward_info = λ _. [];
      unbond_orders = λ _ _. [];
      staker_by_token = λ _. [];
    })
    let cfg : Config = record {
      owner = owner;
      prism_token = prism;
      distribution_schedule = msg.distribution_schedule;
      total_weight = total;
    }
    ok (record s { config = some cfg }, [])

  module _ (ops : Std) (q : Querier) (from_binary : String → Result StdError Cw20HookMsg) where
    unfoldable pub receive_cw20 :
        State → Env → Addr → Cw20ReceiveMsg → Result ContractError Response
    receive_cw20 s env sender m = do
      staker ← validate m.sender
      elim (from_binary m.msg) [
        | ok Cw20HookMsg.bond ↦ Stakes.bond ops s env sender staker m.amount none
        | err _ ↦ err invalid_cw20_msg
        | panic ↦ panic
      ]

    -- An optional address, whose error panics.
    pub optional_address : Option String → Result ContractError (Option Addr)
    optional_address none = ok none
    optional_address (some text) = unwrap (addr_validate text) >>= λ a. ok (some a)

    unfoldable pub execute : State → Env → Addr → ExecuteMsg → Result ContractError Response
    unfolding receive_cw20 optional_address
    execute s env sender (ExecuteMsg.receive m) = receive_cw20 s env sender m
    execute s env sender (ExecuteMsg.update_owner owner) =
        validate owner >>= λ a. Pools.update_owner s sender a
    execute s env sender (ExecuteMsg.add_distribution_schedule schedule) =
        Pools.add_distribution_schedule s env sender schedule
    execute s env sender (ExecuteMsg.register_staking_token token period weight) =
        validate token >>= λ a. Pools.register_staking_token ops s env sender a period weight
    execute s env sender (ExecuteMsg.update_staking_token token period weight) =
        validate token >>= λ a. Pools.update_staking_token ops s env sender a period weight
    execute s env sender (ExecuteMsg.unbond token amount) =
        validate token >>= λ a. Stakes.unbond ops s env sender a amount
    execute s env sender (ExecuteMsg.claim_unbonded token) =
        validate token >>= λ a. Stakes.claim_unbonded ops s env sender a
    execute s env sender (ExecuteMsg.claim_rewards token) =
        optional_address token >>= λ a. Stakes.claim_rewards ops s env sender a
    execute s env sender (ExecuteMsg.auto_stake_hook token) =
        validate token >>= λ a. Stakes.auto_stake_hook ops q s env a sender
