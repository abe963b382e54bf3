-- ===== src/Vault/Unbonding.antt =====
-- contracts/prism-vault/src/unbond.rs: cLuna comes in and is queued for the current batch, batches are
-- undelegated once an epoch, and users withdraw what was released.
pub mod Pick
pub mod Request
pub mod Withdraw
pub mod Frame
mod Tests
use prism_contracts.Prelude.{
  ℕ, zero, suc, ◌+◌, ◌≡◌, Bool, true, false, Option, none, some, List, [], ◌∷◌, ◌++◌, String, ltb,
  leb, ◌==◌, if◌then◌else◌, Result, ok, err, panic, ◌>>=◌, ◌>>◌, fail_if, or_err, or_panic, add_u64,
  unwrap, sub_u64, min, str_append,
}
use prism_contracts.Prelude.Lists.{length}
use prism_contracts.Cosmwasm.{Std, Decimal}
use prism_contracts.Storage.{Addr}
use prism_contracts.Messages.{
  StdError, overflow, generic_err, Env, CosmosMsg, cw20, undelegate, bank_send, Cw20Msg, Validator,
  load_item,
}
use prism_contracts.Querier.{Querier, Delegation}
use prism_contracts.Vault.State.{
  State, Store, Response, Parameters, CurrentBatch, UnbondHistory, assert_initialized,
  get_finished_amount, get_unbond_batches, remove_unbond_wait_list, store_unbond_history,
  store_unbond_wait_list,
}
use prism_contracts.Vault.Exchange.{slashing, update_exchange_rate, total_issued_or_zero}
use prism_contracts.Vault.Release.{process_withdraw_rate}

-- `Vec::remove`
pub remove_at {ℓ} : {A : Type ℓ} → ℕ → List A → Option (A × List A)
remove_at i [] = none
remove_at zero (x ∷ xs) = some (x, xs)
remove_at (suc i) (x ∷ xs) = elim (remove_at i xs) [ none ↦ none | some (y, ys) ↦ some (y, x ∷ ys) ]

-- `messages.push` unless there is nothing to undelegate.
abbrev undelegate_msg : Addr → String → ℕ → List CosmosMsg
undelegate_msg validator denom amount =
    if ltb 0 amount then undelegate validator denom amount ∷ [] else []

-- `rng` is `gen_range(0, len)` of the generator seeded by its first argument.
module _ (ops : Std) (rng : ℕ → ℕ → ℕ) where
  -- The `while` loop; the fuel is the number of delegations left, and `gen_range` panics for none.
  pub pick_loop : ℕ → String → ℕ → ℕ → ℕ → List Delegation → Result StdError (List CosmosMsg)
  pick_loop zero denom height index claimed ds = if claimed == 0 then ok [] else panic
  pick_loop (suc fuel) denom height index claimed ds = elim (claimed == 0) [
    | true ↦ ok []
    | false ↦ do
      seed ← add_u64 height index
      (d, rest) ← or_panic (remove_at (rng seed (length ds)) ds)
      let amount = if ltb claimed d.amount then claimed else d.amount
      left ←
          if ltb claimed d.amount then ok 0 else or_err (ops.checked_sub claimed d.amount) overflow
      next ← add_u64 index 1
      msgs ← pick_loop fuel denom height next left rest
      ok (undelegate_msg d.validator denom amount ++ msgs)
  ]

  pub pick_unbond_validator : Querier → String → ℕ → Addr → ℕ → Result StdError (List CosmosMsg)
  unfolding pick_loop
  pick_unbond_validator q denom claim delegator block_height = elim (q.all_delegations delegator) [
    | ok ds ↦ pick_loop (length ds) denom block_height 0 claim ds
    | err _ ↦ panic
    | panic ↦ panic
  ]

  -- The amount less the peg recovery fee, which applies below the threshold.
  pub amount_less_fee : Parameters → State → ℕ → ℕ → ℕ → Result StdError ℕ
  amount_less_fee params st total_supply requested amount =
      if ltb st.exchange_rate params.er_threshold
      then (do
        max_peg_fee ← or_panic (ops.mul_decimal amount params.peg_recovery_fee)
        claims ← or_panic (ops.add total_supply requested)
        required_peg_fee ← or_err (ops.checked_sub claims st.total_bond_amount) overflow
        or_err (ops.checked_sub amount (min max_peg_fee required_peg_fee)) overflow)
      else ok amount

  -- The end of an epoch: undelegate the batch, record it and open the next.
  pub undelegate_batch :
      Querier
      → Store
      → Env
      → Parameters
      → State
      → CurrentBatch
      → Result StdError (Store × State × CurrentBatch × List CosmosMsg)
  undelegate_batch q s env params st batch = do
    amount ← or_panic (ops.mul_decimal batch.requested_with_fee st.exchange_rate)
    fail_if (amount == 1) (generic_err "Burn amount must be greater than 1 micro unit")
    msgs ← pick_unbond_validator q params.underlying_coin_denom amount env.address env.height
    bonded ← or_panic (ops.checked_sub st.total_bond_amount amount)
    let s' = store_unbond_history s batch.id (record {
      batch_id = batch.id;
      time = env.seconds;
      amount = batch.requested_with_fee;
      applied_exchange_rate = st.exchange_rate;
      withdraw_rate = st.exchange_rate;
      released = false;
    })
    next ← add_u64 batch.id 1
    let st' = record st { total_bond_amount = bonded; last_unbonded_time = env.seconds }
    ok (s', st', record { id = next; requested_with_fee = 0 }, msgs)

  module _ (addr_validate : Validator) (q : Querier) where
    pub execute_unbond : Store → Env → ℕ → String → Result StdError Response
    execute_unbond s env amount sender = do
      batch ← load_item s.current_batch
      params ← load_item s.parameters
      st ← load_item s.state
      (s, st) ← slashing ops q s env st params
      total_supply ← total_issued_or_zero q s
      amount_with_fee ← amount_less_fee params st total_supply batch.requested_with_fee amount
      requested ← or_panic (ops.add batch.requested_with_fee amount_with_fee)
      let batch = record batch { requested_with_fee = requested }
      sender_addr ← addr_validate sender
      s ← store_unbond_wait_list ops s batch.id sender_addr amount_with_fee
      total_supply ← or_panic (ops.checked_sub total_supply amount)
      st ← update_exchange_rate ops st total_supply requested
      passed ← sub_u64 env.seconds st.last_unbonded_time
      (s, st, batch, msgs) ←
          if ltb params.epoch_period passed
          then undelegate_batch q s env params st batch
          else ok (s, st, batch, [])
      let s = record s { current_batch = some batch; state = some st }
      cfg ← load_item s.config
      cfg ← assert_initialized cfg
      ok (s, msgs ++ cw20 cfg.cluna_contract (Cw20Msg.burn amount) ∷ [])

  pub execute_withdraw_unbonded : Querier → Store → Env → Addr → Result StdError Response
  execute_withdraw_unbonded q s env sender = do
    params ← load_item s.parameters
    let denom = params.underlying_coin_denom
    historical_time ← sub_u64 env.seconds params.unbonding_period
    balance ← q.balance env.address denom
    s ← process_withdraw_rate ops s historical_time balance
    amount ← unwrap (get_finished_amount ops s sender none)
    fail_if (amount == 0)
        (generic_err (str_append (str_append "No withdrawable " denom) " assets are available yet"))
    let s = remove_unbond_wait_list s (get_unbond_batches s sender none) sender
    prev ← or_err (ops.checked_sub balance amount) overflow
    st ← load_item s.state
    let s = record s { state = some (record st { prev_vault_balance = prev }) }
    ok (s, bank_send sender amount denom ∷ [])
