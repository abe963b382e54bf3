-- ===== src/Vault/Unbonding/Tests.antt =====
-- Runs of unbond.rs, and its theorems at concrete inputs.
use prism_contracts.Prelude.{
  min, ℕ, ◌+◌, ◌-◌, ◌≤◌, ◌<◌, ◌≡◌, ◌≢◌, refl, none, some, List, [], ◌∷◌, arith, Result, ok, ◌⊎◌,
}
use prism_contracts.Cosmwasm.{reference, reference-IsStd}
use prism_contracts.Storage.{Addr}
use prism_contracts.Messages.{StdError, CosmosMsg, bank_send}
use prism_contracts.SignedInt.{from_subtraction}
use prism_contracts.Vault.State.{
  State, Store, Parameters, released_batches, get_unbond_batches, remove_all,
  remove_unbond_wait_list, add_finished, finished_sum, get_finished_amount, store_unbond_history,
}
use prism_contracts.Vault.Sample.{
  store, state, params, current, chain, at, first, delegations, fst_of, snd_of,
}
use prism_contracts.Vault.Release.{
  releasable, sum_loop, gained_amount, lost_amount, actual_amount, release_batch, release_loop,
  release_run, process_withdraw_rate,
}
use prism_contracts.Vault.Unbonding.{
  amount_less_fee, undelegate_batch, pick_unbond_validator, execute_withdraw_unbonded,
}
use prism_contracts.Vault.Unbonding.Pick.{IsMet, pick_unbond_validator-meets}
use prism_contracts.Vault.Unbonding.Request.{
  max_fee, closed, amount_less_fee-bounds, undelegate_batch-closes,
}
use prism_contracts.Vault.Unbonding.Withdraw.{withdraw-pays_once}

abbrev run : Result StdError (Store × List CosmosMsg)
run = execute_withdraw_unbonded reference first (chain 150) store (at 2000) "alice"

abbrev after : Store
after = fst_of run

abbrev sent : List CosmosMsg
sent = snd_of [] run

run_ok : run ≡ ok (after, sent)
unfolding execute_withdraw_unbonded process_withdraw_rate release_run release_loop release_batch
    actual_amount lost_amount gained_amount sum_loop releasable from_subtraction released_batches
    get_unbond_batches remove_all remove_unbond_wait_list add_finished finished_sum
    get_finished_amount
run_ok = refl

withdraw-pays_once_example :
    (p : Parameters) × (st : State) × (amount : ℕ) × (released : Store) × (store.parameters
      ≡ some p)
    × (0 < amount)
    × (sent ≡ bank_send "alice" amount p.underlying_coin_denom ∷ [])
    × (after.state ≡ some st)
    × ((chain 150).balance "vault" p.underlying_coin_denom ≡ ok (st.prev_vault_balance + amount))
    × (process_withdraw_rate reference store
          (2000 - p.unbonding_period)
          (st.prev_vault_balance + amount)
        ≡ ok released)
    × (get_finished_amount reference released "alice" none ≡ ok amount)
    × ((j : Addr) → j ≢ "alice" → after.unbond_waitlist j ≡ store.unbond_waitlist j)
    × (get_finished_amount reference after "alice" none ≡ ok 0)
withdraw-pays_once_example =
    withdraw-pays_once reference reference-IsStd first (chain 150) store after (at 2000) "alice"
      sent (omega arith, tt) (omega arith) run_ok

pick_unbond_validator-meets_example :
    (msgs : List CosmosMsg) × (pick_unbond_validator reference first
        (chain 0)
        "uluna"
        700
        "vault"
        10
      ≡ ok msgs)
    × IsMet "uluna" 700 delegations msgs
pick_unbond_validator-meets_example =
    pick_unbond_validator-meets reference reference-IsStd first (λ k n pos. pos) (chain 0) "uluna"
      700 10 "vault" delegations refl (omega arith) (omega arith)

undelegate_batch-closes_example :
    (msgs : List CosmosMsg) × (undelegate_batch reference first
        (chain 0)
        store
        (at 2000)
        params
        state
        current
      ≡ ok (
        store_unbond_history store 3 (closed (at 2000) state current),
        record state { total_bond_amount = 720; last_unbonded_time = 2000 },
        record { id = 4; requested_with_fee = 0 },
        msgs,
      ))
    × IsMet "uluna" 180 delegations msgs
undelegate_batch-closes_example =
    undelegate_batch-closes reference reference-IsStd first (λ k n pos. pos) (chain 0) store
      (at 2000) params state current delegations refl (omega arith) (omega arith) (omega arith)
      (omega arith) (omega arith) (omega arith)

abbrev asked : ℕ
asked = 1000

abbrev queued : ℕ
queued = 995

-- Below the threshold, with 1000 claims on 900, the fee is half a percent.
fee_run : amount_less_fee reference first params state 800 200 asked ≡ ok queued
unfolding amount_less_fee
fee_run = refl

amount_less_fee-bounds_example :
    (queued ≤ asked)
    × (((params.er_threshold ≤ state.exchange_rate) × (queued ≡ asked))
        ⊎ ((state.exchange_rate < params.er_threshold)
            × (state.total_bond_amount ≤ 800 + 200)
            × (asked ≡ queued + min (max_fee params asked) (800 + 200 - state.total_bond_amount))
            × (state.total_bond_amount + asked ≤ 800 + 200 + queued)))
amount_less_fee-bounds_example =
    amount_less_fee-bounds reference reference-IsStd first params state 800 200 asked queued fee_run
