-- ===== src/Vault/Exchange/Tests.antt =====
-- Runs of the exchange rate, and its theorems at concrete inputs.
use prism_contracts.Prelude.{◌+◌, ◌*◌, ◌/◌, ◌≤◌, ◌≡◌, refl, arith, Result, ok}
use prism_contracts.Cosmwasm.{reference, reference-IsStd, decimal_one}
use prism_contracts.Messages.{StdError}
use prism_contracts.Vault.State.{State, Store}
use prism_contracts.Vault.Sample.{store, state, params, chain, at, fst_of, snd_of}
use prism_contracts.Vault.Exchange.{
  decimal_division, update_exchange_rate, bonded_sum, apply_slashing, slashing, query_total_issued,
}
use prism_contracts.Vault.Exchange.Rate.{update_exchange_rate-backed, Slashed, slashing-Slashed}

abbrev rated : State
rated = record state { exchange_rate = 900_000_000_000_000_000 }

rate_run : update_exchange_rate reference state 800 200 ≡ ok rated
unfolding update_exchange_rate
rate_run = refl

update_exchange_rate-backed_example : (800 + 200) * rated.exchange_rate / decimal_one ≤ 900
update_exchange_rate-backed_example =
    update_exchange_rate-backed reference reference-IsStd state rated 800 200 rate_run (omega arith)

division_run : decimal_division reference 100 900_000_000_000_000_000 ≡ ok 111
unfolding decimal_division
division_run = refl

-- 1000 were bonded, and 900 are left.
abbrev before : State
before = record state { total_bond_amount = 1000 }

abbrev run : Result StdError (Store × State)
run = slashing reference (chain 0) store (at 2000) before params

slash_run : run ≡ ok (fst_of run, snd_of state run)
unfolding slashing apply_slashing update_exchange_rate bonded_sum query_total_issued
slash_run = refl

slashing-Slashed_example :
    Slashed reference (chain 0) store (at 2000) before params (fst_of run) (snd_of state run)
slashing-Slashed_example =
    slashing-Slashed reference reference-IsStd (chain 0) store (fst_of run) (at 2000) before
      (snd_of state run) params slash_run
