-- ===== src/Vault/Admin/Tests.antt =====
-- Runs of config.rs, and its theorems at concrete inputs.
use prism_contracts.Prelude.{◌≡◌, refl, true, List, [], ◌∷◌, Result, ok}
use prism_contracts.Storage.Keys.{has_key, add_key, remove_key}
use prism_contracts.Messages.{StdError, CosmosMsg, redelegate, update_global_index}
use prism_contracts.Vault.State.{
  Store, assert_initialized, is_valid_validator, remove_white_validators,
}
use prism_contracts.Vault.Sample.{store, chain, at, delegation, fst_of, snd_of}
use prism_contracts.Vault.Admin.{execute_deregister_validator, move_delegation}
use prism_contracts.Vault.Admin.Access.{deregister-hands_over}

-- `range` lists the keys in their order.
sorted : add_key "b" ("a" ∷ "c" ∷ []) ≡ "a" ∷ "b" ∷ "c" ∷ []
unfolding add_key
sorted = refl

abbrev run : Result StdError (Store × List CosmosMsg)
run = execute_deregister_validator (chain 0) store (at 2000) "owner" "val1" "val2"

run_ok : run ≡ ok (fst_of run, snd_of [] run)
unfolding execute_deregister_validator move_delegation assert_initialized is_valid_validator
    remove_white_validators has_key remove_key
run_ok = refl

deregister-hands_over_example :
    (has_key "val2" (fst_of run).validators ≡ true)
    × ((fst_of run).validators ≡ remove_key "val1" store.validators)
    × (snd_of [] run ≡ redelegate "val1" "val2" "uluna" 500 ∷ update_global_index "vault" ∷ [])
deregister-hands_over_example =
    deregister-hands_over (chain 0) store (fst_of run) (at 2000) "owner" "val1" "val2"
      (snd_of [] run) (delegation "val1" 500) refl run_ok
