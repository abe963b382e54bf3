-- ===== src/Vault/Release/Tests.antt =====
-- Runs of `process_withdraw_rate`, and its theorems at concrete inputs.
use prism_contracts.Prelude.{ℕ, ◌+◌, ◌≤◌, ◌≡◌, refl, none, some, List, [], ◌∷◌, arith, ok, err}
use prism_contracts.Prelude.Lists.{length}
use prism_contracts.Cosmwasm.{reference, reference-IsStd}
use prism_contracts.Messages.{overflow}
use prism_contracts.SignedInt.{from_subtraction}
use prism_contracts.Vault.State.{Store, UnbondHistory}
use prism_contracts.Vault.Sample.{store, state, batch, store_of}
use prism_contracts.Vault.Release.{
  releasable, sum_loop, gained_amount, lost_amount, actual_amount, release_batch, release_loop,
  release_run, process_withdraw_rate,
}
use prism_contracts.Vault.Release.Loops.{Pending, write}
use prism_contracts.Vault.Release.Rates.{payouts}
use prism_contracts.Vault.Release.Correct.{Outcome, process-Outcome, process-solvent}
use prism_contracts.Vault.Release.Totality.{process-even, process_dust}

abbrev due : List UnbondHistory
due = batch 1 500 100 ∷ batch 2 600 50 ∷ []

due-Pending : Pending store.unbond_history 1000 1 due
unfolding releasable
due-Pending = (refl, (refl, refl))

-- 148 comes in for two batches that should bring 150.
abbrev after_loss : Store
after_loss = store_of (process_withdraw_rate reference store 1000 148)

loss_run : process_withdraw_rate reference store 1000 148 ≡ ok after_loss
unfolding process_withdraw_rate release_run release_loop release_batch actual_amount lost_amount
    gained_amount sum_loop releasable from_subtraction
loss_run = refl

process-Outcome_example :
    (n : ℕ) × (releasable store.unbond_history 1000 (0 + 1 + n) ≡ none)
    × ((j : ℕ) → Outcome store.unbond_history after_loss.unbond_history 1000 0 (0 + n) j)
    × (after_loss ≡ record store {
      unbond_history = after_loss.unbond_history;
      state = some (record state { last_processed_batch = 0 + n; actual_unbonded_amount = 0 });
    })
process-Outcome_example =
    process-Outcome reference reference-IsStd store after_loss state 1000 148 refl loss_run

process-solvent_example :
    (hs' : List UnbondHistory) × (length hs' ≡ 2)
    × (after_loss.unbond_history ≡ write 1 hs' store.unbond_history)
    × (payouts hs' ≤ 148)
process-solvent_example =
    process-solvent reference reference-IsStd store after_loss state 1000 148 due refl due-Pending
      (omega arith) (omega arith) (λ _. ((omega arith, (omega arith, tt)), omega arith)) loss_run

process-even_example : (t : Store) × (process_withdraw_rate reference store 1000 150 ≡ ok t)
process-even_example =
    process-even reference reference-IsStd store state 1000 150 (batch 1 500 100)
      (batch 2 600 50 ∷ []) refl due-Pending
      (omega arith, omega arith, (omega arith, omega arith, tt)) (omega arith) (omega arith) refl
      (omega arith)

-- One unit too much, and nobody can withdraw.
process_dust_example : process_withdraw_rate reference store 1000 151 ≡ err overflow
process_dust_example =
    process_dust reference reference-IsStd store state 1000 151 (batch 1 500 100)
      (batch 2 600 50 ∷ []) refl due-Pending (omega arith) (omega arith) (omega arith) refl
      (omega arith)
