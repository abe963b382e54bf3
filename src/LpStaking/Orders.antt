-- ===== src/LpStaking/Orders.antt =====
-- contracts/prism-lp-staking: the orders of a staker, in state.rs, and the end of each handler, in handle.rs.
pub mod Pull
use prism_contracts.Prelude.{
  ℕ, ◌+◌, Bool, true, false, not, ◌&&◌, Option, none, some, List, [], ◌∷◌, ◌++◌, ltb, leb, ◌==◌,
  if◌then◌else◌, Result, ok, err, panic, ◌>>=◌, or_panic, add_u64,
}
use prism_contracts.Prelude.Lists.{length, take}
use prism_contracts.Cosmwasm.{Std}
use prism_contracts.Storage.{Addr, set_at}
use prism_contracts.Storage.Ordered
use prism_contracts.Storage.Ordered.{OrderedMap}
use prism_contracts.Storage.Named
use prism_contracts.Storage.Keys.{remove_key}
use prism_contracts.LpStaking.{ContractError, State, RewardInfo}

abbrev pub max_orders_per_tx : ℕ
max_orders_per_tx = 50

-- The amount, the times of the orders that are over, and the number of orders.
abbrev pub Pulled : Type 0
Pulled = ℕ × List ℕ × ℕ

unfoldable pub remove_times : List ℕ → OrderedMap ℕ → OrderedMap ℕ
remove_times [] m = m
remove_times (time ∷ times) m = remove_times times (Ordered.remove time m)

abbrev pub set_orders : Addr → Addr → OrderedMap ℕ → State → State
set_orders staker token orders s = record s {
  unbond_orders = set_at staker (set_at token orders (s.unbond_orders staker)) s.unbond_orders;
}

unfoldable pub remove_withdrawn : State → Addr → Addr → List ℕ → State
unfolding remove_times
remove_withdrawn s staker token times =
    set_orders staker token (remove_times times (s.unbond_orders staker token)) s

module _ (ops : Std) where
  -- One round of the fold.
  unfoldable pub pull_order : ℕ → ℕ → Pulled → ℕ × ℕ → Result ContractError Pulled
  pull_order now period (amount, times, count) (time, v) = do
    count ← add_u64 count 1
    over ←
        if leb count max_orders_per_tx
        then (add_u64 time period >>= λ ends. ok (ltb ends now))
        else ok false
    if over
        then (or_panic (ops.add amount v) >>= λ sum. ok (sum, times ++ time ∷ [], count))
        else ok (amount, times, count)

  unfoldable pub pull_orders : ℕ → ℕ → Pulled → List (ℕ × ℕ) → Result ContractError Pulled
  unfolding pull_order
  pull_orders now period acc [] = ok acc
  pull_orders now period acc (order ∷ orders) =
      pull_order now period acc order >>= λ acc. pull_orders now period acc orders

  unfoldable pub get_withdrawable_amount : State → Addr → Addr → ℕ → ℕ → Result ContractError Pulled
  unfolding pull_orders
  get_withdrawable_amount s staker token now period =
      pull_orders now period (0, [], 0)
        (take (max_orders_per_tx + 1) (s.unbond_orders staker token))

  -- The store, the staker's record, and whether orders are pending.
  unfoldable pub pull_expired_withdraw_orders :
      State → Addr → Addr → RewardInfo → ℕ → ℕ → Result ContractError (State × RewardInfo × Bool)
  unfolding get_withdrawable_amount remove_withdrawn
  pull_expired_withdraw_orders s staker token info now period = do
    (amount, times, count) ← get_withdrawable_amount s staker token now period
    withdrawable ← or_panic (ops.add info.withdrawable_amount amount)
    ok (
      remove_withdrawn s staker token times,
      record info { withdrawable_amount = withdrawable },
      ltb (length times) count,
    )

abbrev pub save_reward : Addr → Addr → RewardInfo → State → State
save_reward staker token info s = record s {
  reward_info = set_at staker (Named.save token info (s.reward_info staker)) s.reward_info;
}

unfoldable pub update_or_remove_staker_rewards : State → Addr → Addr → RewardInfo → Bool → State
update_or_remove_staker_rewards s sender token info orders_pending =
    if (info.pending_reward == 0)
      && (info.bond_amount == 0)
      && (info.withdrawable_amount == 0)
      && not orders_pending
    then record s {
      reward_info = set_at sender (Named.remove token (s.reward_info sender)) s.reward_info;
      staker_by_token =
          set_at token (remove_key sender (s.staker_by_token token)) s.staker_by_token;
    }
    else save_reward sender token info s
