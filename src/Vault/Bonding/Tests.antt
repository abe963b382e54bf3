-- ===== src/Vault/Bonding/Tests.antt =====
-- Runs of bond.rs, and its theorems at concrete inputs.
use prism_contracts.Prelude.{
  ℕ, ◌+◌, ◌*◌, ◌/◌, ◌≤◌, ◌≡◌, refl, none, some, List, [], ◌∷◌, Result, ok,
}
use prism_contracts.Cosmwasm.{reference, reference-IsStd}
use prism_contracts.Storage.{Addr}
use prism_contracts.Messages.{StdError, CosmosMsg, cw20, delegate, Cw20Msg}
use prism_contracts.Vault.State.{State, Store, Config, Parameters, assert_initialized}
use prism_contracts.Vault.Sample.{
  store, state, params, config, chain, at, pays, from, fst_of, snd_of,
}
use prism_contracts.Vault.Exchange.{
  decimal_division, update_exchange_rate, bonded_sum, apply_slashing, slashing, query_total_issued,
  total_issued_or_zero,
}
use prism_contracts.Vault.Bonding.{
  least, first_sorted, pick_from, pick_bond_validator, select_validator, pop, mint_less_fee,
  bond_payment, execute_bond, execute_bond_split,
}
use prism_contracts.Vault.Bonding.Mint.{execute_bond-mints, execute_bond_split-backs}

-- The validator with the least is picked.
picked : pick_bond_validator (chain 0) "vault" ("val1" ∷ "val2" ∷ []) ≡ ok "val2"
unfolding pick_bond_validator pick_from first_sorted least
picked = refl

abbrev run : Result StdError (Store × List CosmosMsg)
run = execute_bond reference (pays 90) (chain 0) store (at 2000) (from "carol") none

run_ok : run ≡ ok (fst_of run, snd_of [] run)
unfolding execute_bond bond_payment mint_less_fee select_validator pick_bond_validator pick_from
    first_sorted least decimal_division update_exchange_rate bonded_sum apply_slashing slashing
    query_total_issued total_issued_or_zero assert_initialized
run_ok = refl

execute_bond-mints_example :
    (cfg : Config) × (p : Parameters) × (before : State) × (checked : State) × (after : State)
    × (slashed : Store) × (selected : Addr) × (payment : ℕ) × (minted : ℕ) × (store.parameters
        ≡ some p)
    × (store.state ≡ some before)
    × (select_validator (chain 0) store "vault" none ≡ ok selected)
    × (slashing reference (chain 0) store (at 2000) before p ≡ ok (slashed, checked))
    × (pays 90 (from "carol") p.underlying_coin_denom ≡ ok payment)
    × (fst_of run ≡ record slashed { state = some after })
    × ((fst_of run).config ≡ some cfg)
    × (after.total_bond_amount ≡ checked.total_bond_amount + payment)
    × (snd_of [] run
        ≡ delegate selected p.underlying_coin_denom payment
          ∷ cw20 cfg.cluna_contract (Cw20Msg.mint "carol" minted)
          ∷ [])
    × (minted * (checked.exchange_rate / 1_000_000_000) ≤ payment * 1_000_000_000)
execute_bond-mints_example =
    execute_bond-mints reference reference-IsStd (pays 90) (chain 0) store (fst_of run) (at 2000)
      (from "carol") none (snd_of [] run) run_ok

abbrev split_run : Result StdError (Store × List CosmosMsg)
split_run = execute_bond_split reference (pays 90) (chain 0) store (at 2000) (from "carol") none

split_ok : split_run ≡ ok (fst_of split_run, snd_of [] split_run)
unfolding execute_bond_split pop bond_payment mint_less_fee select_validator pick_bond_validator
    pick_from first_sorted least decimal_division update_exchange_rate bonded_sum apply_slashing
    slashing query_total_issued total_issued_or_zero assert_initialized
split_ok = refl

execute_bond_split-backs_example :
    (sent : CosmosMsg) × (minted : ℕ) × (execute_bond reference
        (pays 90)
        (chain 0)
        store
        (at 2000)
        (from "carol")
        none
      ≡ ok (fst_of split_run, sent ∷ cw20 config.cluna_contract (Cw20Msg.mint "carol" minted) ∷ []))
    × (snd_of [] split_run
        ≡ sent
          ∷ cw20 "cluna" (Cw20Msg.mint "vault" minted)
          ∷ cw20 "yluna" (Cw20Msg.mint "carol" minted)
          ∷ cw20 "pluna" (Cw20Msg.mint "carol" minted)
          ∷ [])
execute_bond_split-backs_example =
    execute_bond_split-backs reference reference-IsStd (pays 90) (chain 0) store (fst_of split_run)
      (at 2000) (from "carol") none (snd_of [] split_run) config refl split_ok

abbrev mint : ℕ
mint = 1000

abbrev minted : ℕ
minted = 995

mint_run : mint_less_fee reference params state 800 200 900 mint ≡ ok minted
unfolding mint_less_fee
mint_run = refl
