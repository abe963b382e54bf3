-- ===== src/YassetStaking/Tests.antt =====
-- Runs of the yAsset staking contract, and its theorems at concrete inputs.
use prism_contracts.Prelude.{
  ℕ, ◌+◌, ◌≡◌, refl, true, false, none, some, List, [], ◌∷◌, String, Result, ok, err, panic,
}
use prism_contracts.Cosmwasm.{reference, reference-IsStd, decimal_one}
use prism_contracts.Storage.{Addr, save}
use prism_contracts.Messages.{StdError, CosmosMsg, Env, Validator, AssetInfo, token}
use prism_contracts.Querier.{Querier}
use prism_contracts.YassetStaking.{Config, State, RewardInfo, save_reward}
use prism_contracts.YassetStaking.Frame.{IsCovered}
use prism_contracts.YassetStaking.Rewards
use prism_contracts.YassetStaking.Rewards.{
  compute_asset_rewards, compute_all_rewards, verify_claim_asset, convert_asset, convert_assets,
  swap_messages,
}
use prism_contracts.YassetStaking.Deposits.{contains, credit, divide, deposit_asset}
use prism_contracts.YassetStaking.Deposits.Amounts.{
  Credited, IsReward, moves, deposit_asset-conserves,
}
use prism_contracts.YassetStaking.Staking
use prism_contracts.YassetStaking.Entry.{
  InstantiateMsg, ExecuteMsg, Cw20HookMsg, validate_protocol_fee, instantiate, receive_cw20,
  execute,
}
use prism_contracts.YassetStaking.Entry.Invariant.{instantiate-IsCovered, execute-IsCovered}

abbrev human : Validator
human a = ok a

abbrev here : Env
here = record { seconds = 10; height = 1; address = "yasset_staking" }

abbrev decode : String → Result StdError Cw20HookMsg
decode _ = ok Cw20HookMsg.bond

abbrev chain : Querier
chain = record {
  all_delegations = λ _. ok [];
  delegation = λ _ _. ok none;
  all_validators = ok [];
  validator_exists = λ _. ok false;
  balance = λ _ _. ok 0;
  token_supply = λ _. ok 0;
  token_balance = λ _ _. ok 0;
}

abbrev vault_bond : Addr → Result StdError ℕ
vault_bond _ = ok 1000

abbrev balances : Addr → Result StdError (List (String × ℕ))
balances _ = ok []

abbrev rates : String → List String → Result StdError (List String)
rates _ _ = ok []

abbrev init : InstantiateMsg
init = record {
  owner = "owner";
  vault = "vault";
  gov = "gov";
  collector = "collector";
  protocol_fee = 100_000_000_000_000_000;
  cluna_token = "cluna";
  yluna_token = "yluna";
  pluna_token = "pluna";
  prism_token = "prism";
  xprism_token = "xprism";
}

abbrev cfg : Config
cfg = record {
  owner = "owner";
  vault = "vault";
  gov = "gov";
  collector = "collector";
  protocol_fee = 100_000_000_000_000_000;
  cluna_token = "cluna";
  yluna_token = "yluna";
  pluna_token = "pluna";
  prism_token = "prism";
  xprism_token = "xprism";
}

abbrev first : State
first = record {
  config = some cfg;
  whitelisted_assets = some (token "pluna" ∷ token "yluna" ∷ []);
  total_bond_amount = some 0;
  pool_info = λ _. none;
  rewards = λ _ _. none;
  bond_amounts = λ _. none;
}

first_ok : instantiate human init ≡ ok (first, [])
unfolding instantiate validate_protocol_fee
first_ok = refl

fee_above_half :
    instantiate human (record init { protocol_fee = decimal_one })
    ≡ err (StdError.generic_err "fee can not be greater than 0.5")
unfolding instantiate validate_protocol_fee
fee_above_half = refl

first-IsCovered : IsCovered first
first-IsCovered = instantiate-IsCovered human init first [] first_ok

abbrev state_of : Result StdError (State × List CosmosMsg) → State
state_of (ok s) = s.0
state_of (err e) = first
state_of panic = first

abbrev deposit : ExecuteMsg
deposit = ExecuteMsg.receive (record { sender = "bob"; amount = 100; msg = "bond" })

abbrev bonded : Result StdError (State × List CosmosMsg)
bonded = execute human reference chain decode vault_bond balances rates first here "yluna" deposit

bonded_ok : bonded ≡ ok (state_of bonded, [])
unfolding execute receive_cw20 Staking.bond compute_all_rewards compute_asset_rewards
bonded_ok = refl

execute-IsCovered_example : IsCovered (state_of bonded)
execute-IsCovered_example =
    execute-IsCovered human reference reference-IsStd chain decode vault_bond balances rates first
      (state_of bonded) here "yluna" deposit [] bonded_ok first-IsCovered

-- 1000 are deposited while a half is staked: 500 for the stakers, less a tenth.
abbrev whitelist : List AssetInfo
whitelist = token "pluna" ∷ []

abbrev paid : Result StdError (State × List CosmosMsg)
paid =
    deposit_asset reference cfg whitelist 100 500_000_000_000_000_000 here "dave" first
      (record { info = token "pluna"; amount = 1000 })

paid_ok : paid ≡ ok (state_of paid, moves cfg here "dave" "pluna" 1000 550)
unfolding deposit_asset contains divide credit
paid_ok = refl

deposit_asset-conserves_example :
    (contains whitelist (token "pluna") ≡ true)
    × (reward : ℕ) × (rest : ℕ) × (reward + rest ≡ 1000)
    × IsReward 500_000_000_000_000_000 cfg.protocol_fee 1000 reward
    × (moves cfg here "dave" "pluna" 1000 550 ≡ moves cfg here "dave" "pluna" 1000 rest)
    × Credited first (state_of paid) (token "pluna") reward 100
deposit_asset-conserves_example =
    deposit_asset-conserves reference reference-IsStd cfg whitelist 100 500_000_000_000_000_000 here
      "dave" first (state_of paid) "pluna" 1000 (moves cfg here "dave" "pluna" 1000 550) paid_ok

-- Eve, with 7 PRISM to claim, converts her rewards to xPRISM: she is sent nothing, and no longer has
-- the 7.
abbrev rewarded : RewardInfo
rewarded = record { index = 0; pending_reward = 7 }

abbrev earned : State
earned = record first {
  whitelisted_assets = some (token "prism" ∷ []);
  rewards = λ _. save "prism" rewarded (λ _. none);
  bond_amounts = λ _. some (record { bond_amount = 1 });
}

converted :
    Rewards.convert_and_claim_rewards reference chain earned here "eve" (token "xprism")
    ≡ ok (save_reward "eve" (token "prism") (record { index = 0; pending_reward = 0 }) earned, [])
unfolding Rewards.convert_and_claim_rewards verify_claim_asset convert_assets convert_asset
    swap_messages compute_asset_rewards
converted = refl

abbrev bob_with : RewardInfo → ℕ → State
bob_with info index = record first {
  pool_info = save "new" (record { reward_index = index }) (λ _. none);
  rewards = λ _. save "new" info (λ _. none);
}

-- Without a record the rewards of an asset up to now are nothing, whatever the bond.
no_record :
    compute_asset_rewards reference
      (record (bob_with rewarded decimal_one) { rewards = λ _ _. none })
      "bob"
      100
      (token "new")
    ≡ ok (record { index = decimal_one; pending_reward = 0 })
unfolding compute_asset_rewards
no_record = refl

abbrev with_bond : ℕ → List AssetInfo → State
with_bond amount assets = record (bob_with (record { index = 0; pending_reward = 0 }) decimal_one) {
  whitelisted_assets = some assets;
  total_bond_amount = some amount;
  bond_amounts = λ _. some (record { bond_amount = amount });
}

-- The asset is worth 1 for each of the 100 that are bonded. Bob bonds 900 more while it is off the
-- whitelist, and his record stays as it is; then the record is worth 1000.
more_bonded :
    (t : State) × (Staking.bond reference (with_bond 100 []) "bob" 900 ≡ ok (t, []))
    × (t.rewards "bob" "new" ≡ some (record { index = 0; pending_reward = 0 }))
    × (compute_asset_rewards reference t "bob" 1000 (token "new")
        ≡ ok (record { index = decimal_one; pending_reward = 1000 }))
unfolding Staking.bond compute_all_rewards compute_asset_rewards
more_bonded = (state_of (Staking.bond reference (with_bond 100 []) "bob" 900), refl, refl, refl)
