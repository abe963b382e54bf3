-- ===== src/Vault/Release.antt =====
-- `process_withdraw_rate` in contracts/prism-vault/src/unbond.rs: the batches whose unbonding time is
-- over are released at a rate that spreads what was really received over them.
pub mod Loops
pub mod Rates
pub mod Shape
pub mod Correct
pub mod Totality
mod Tests
use prism_contracts.Prelude.{
  ℕ, zero, suc, ◌+◌, ◌≡◌, Bool, true, false, not, ◌&&◌, Option, none, some, List, ltb, leb, ◌==◌,
  if◌then◌else◌, Result, ok, err, panic, ◌>>=◌, ◌>>◌, or_err, or_panic, add_u64,
}
use prism_contracts.Prelude.Lists.{length}
use prism_contracts.Cosmwasm.{Std, Decimal}
use prism_contracts.Storage.Ordered
use prism_contracts.Storage.Ordered.{OrderedMap}
use prism_contracts.Messages.{StdError, overflow, load_item}
use prism_contracts.SignedInt.{SignedInt, from_subtraction}
use prism_contracts.Vault.State.{State, Store, UnbondHistory}

-- The test at the head of both loops: the batch exists, is old enough and is not released.
unfoldable pub releasable : OrderedMap UnbondHistory → ℕ → ℕ → Option UnbondHistory
releasable hist historical_time i = elim (Ordered.load i hist) [
  | none ↦ none
  | some h ↦ if ltb historical_time h.time then none else if h.released then none else some h
]

module _ (ops : Std) where
  -- The first loop: the sum of what the batches should bring, and their number. Out of fuel it panics.
  unfoldable pub sum_loop : OrderedMap UnbondHistory → ℕ → ℕ → ℕ → ℕ → ℕ → Result StdError (ℕ × ℕ)
  sum_loop hist t zero i total count = panic
  sum_loop hist t (suc fuel) i total count = elim (releasable hist t i) [
    | none ↦ ok (total, count)
    | some h ↦ do
      unbonded ← or_panic (ops.mul_decimal h.amount h.withdraw_rate)
      total ← or_panic (ops.add total unbonded)
      count ← add_u64 count 1
      i ← add_u64 i 1
      sum_loop hist t fuel i total count
  ]

  -- "If slashed amount is negative, there should be summation instead of subtraction."
  unfoldable pub gained_amount : ℕ → ℕ → Result StdError ℕ
  gained_amount unbonded share = do
    share ← or_err (ops.checked_sub share 1) overflow
    or_panic (ops.add unbonded share)

  unfoldable pub lost_amount : SignedInt → ℕ → ℕ → Result StdError ℕ
  lost_amount slashed unbonded share = do
    share ← or_panic (if slashed.magnitude == 0 then some share else ops.add share 1)
    rest ← from_subtraction ops unbonded share
    ok rest.magnitude

  -- The amount of a batch after the surplus or the loss is spread.
  unfoldable pub actual_amount : SignedInt → ℕ → ℕ → Result StdError ℕ
  unfolding gained_amount lost_amount
  actual_amount slashed total unbonded = do
    weight ← or_panic (ops.from_ratio unbonded total)
    share ← or_panic (ops.mul_decimal slashed.magnitude weight)
    (if slashed.is_negative
        then gained_amount unbonded share
        else lost_amount slashed unbonded share)

  unfoldable pub release_batch : SignedInt → ℕ → UnbondHistory → Result StdError UnbondHistory
  unfolding actual_amount
  release_batch slashed total h = do
    unbonded ← or_panic (ops.mul_decimal h.amount h.withdraw_rate)
    actual ← actual_amount slashed total unbonded
    rate ← or_panic (ops.from_ratio actual h.amount)
    ok (record h { withdraw_rate = rate; released = true })

  -- The second loop, with the history and `last_processed_batch` under change.
  unfoldable pub release_loop :
      SignedInt
      → ℕ
      → ℕ
      → ℕ
      → OrderedMap UnbondHistory
      → ℕ
      → ℕ
      → Result StdError (OrderedMap UnbondHistory × ℕ)
  release_loop slashed total t zero hist i last = panic
  release_loop slashed total t (suc fuel) hist i last = elim (releasable hist t i) [
    | none ↦ ok (hist, last)
    | some h ↦ do
      h' ← release_batch slashed total h
      next ← add_u64 i 1
      release_loop slashed total t fuel (Ordered.save i h' hist) next i
  ]

  -- Both loops, from batch `first` on, where `actual` was received.
  unfoldable pub release_run :
      OrderedMap UnbondHistory → ℕ → ℕ → ℕ → ℕ → ℕ → Result StdError (OrderedMap UnbondHistory × ℕ)
  release_run hist t fuel first last actual = do
    (total, count) ← sum_loop hist t fuel first 0 0
    (if leb 1 count
        then (from_subtraction ops total actual >>= λ slashed.
            release_loop slashed total t fuel hist first last)
        else ok (hist, last))

  -- The fuel is one more than the number of batches.
  unfoldable pub process_withdraw_rate : Store → ℕ → ℕ → Result StdError Store
  process_withdraw_rate s historical_time vault_balance = do
    state ← load_item s.state
    change ← from_subtraction ops vault_balance state.prev_vault_balance
    actual ← or_panic (ops.add state.actual_unbonded_amount change.magnitude)
    let last = state.last_processed_batch
    first ← add_u64 last 1
    let hist = s.unbond_history
    (hist', last') ← release_run hist historical_time (suc (length hist)) first last actual
    ok (record s {
      unbond_history = hist';
      state = some (record state { last_processed_batch = last'; actual_unbonded_amount = 0 });
    })
