-- ===== src/Vault/Entry/Tests.antt =====
-- Runs of the vault's entry points, and its theorems at concrete inputs.
use prism_contracts.Prelude.{
  ◌≡◌, ◌≢◌, ◌⊎◌, refl, none, some, List, [], ◌∷◌, arith, String, Result, ok, str_eq_iff,
}
use prism_contracts.Cosmwasm.{reference, reference-IsStd, decimal_one}
use prism_contracts.Messages.{StdError, CosmosMsg}
use prism_contracts.Vault.State.{Store, assert_initialized}
use prism_contracts.Vault.Sample.{
  store, config, chain, at, first, known, pays, from, fst_of, snd_of,
}
use prism_contracts.Vault.Admin.{validate_rate, execute_update_params}
use prism_contracts.Vault.Admin.Access.{IsSound}
use prism_contracts.Vault.Entry.{
  InstantiateMsg, ExecuteMsg, Cw20HookMsg, unbond, instantiate, execute, execute_update_global,
  withdraw_all_rewards,
}
use prism_contracts.Vault.Entry.Invariant.{message-IsSound, message-access}

abbrev decode : String → Result StdError Cw20HookMsg
decode _ = ok unbond

store-IsSound : IsSound store
store-IsSound = (λ p e. (ground arith, ground arith), omega arith)

abbrev run : Result StdError (Store × List CosmosMsg)
run =
    execute reference first known (pays 0) (chain 0) decode store (at 2000) (from "owner")
      (ExecuteMsg.update_params (some 50) none (some 0) none)

run_ok : run ≡ ok (fst_of run, snd_of [] run)
unfolding execute execute_update_params validate_rate
run_ok = refl

message-IsSound_example : IsSound (fst_of run)
message-IsSound_example =
    message-IsSound reference reference-IsStd first known (pays 0) (chain 0) decode store
      (fst_of run) (at 2000) (from "owner") (ExecuteMsg.update_params (some 50) none (some 0) none)
      (snd_of [] run) store-IsSound run_ok

abbrev global : Result StdError (Store × List CosmosMsg)
global =
    execute reference first known (pays 0) (chain 0) decode store (at 2000) (from "carol")
      (ExecuteMsg.update_global_index (some ("claim" ∷ [])))

global_ok : global ≡ ok (fst_of global, snd_of [] global)
unfolding execute execute_update_global withdraw_all_rewards assert_initialized
global_ok = refl

other : (from "carol").sender ≢ config.owner
other e = ground (arith, str_eq_iff (from "carol").sender config.owner)

message-access_example :
    ((fst_of global).config ≡ store.config)
    × ((fst_of global).parameters ≡ store.parameters)
    × (((from "carol").sender ≡ "vault") ⊎ ((fst_of global).validators ≡ store.validators))
message-access_example =
    message-access reference reference-IsStd first known (pays 0) (chain 0) decode store
      (fst_of global) (at 2000) (from "carol")
      (ExecuteMsg.update_global_index (some ("claim" ∷ []))) (snd_of [] global) config refl other
      global_ok

abbrev init : InstantiateMsg
init = record {
  epoch_period = 100;
  underlying_coin_denom = "uluna";
  unbonding_period = 1000;
  peg_recovery_fee = 5_000_000_000_000_000;
  er_threshold = decimal_one;
  validator = "val1";
  token_admin = "admin";
  token_code_id = 7;
  manager = "manager";
}

abbrev opened : Result StdError (Store × List CosmosMsg)
opened = instantiate known (pays 1000) (at 5) (from "owner") init

opened_ok : opened ≡ ok (fst_of opened, snd_of [] opened)
unfolding instantiate validate_rate
opened_ok = refl
