-- ===== src/Boost/Tests.antt =====
-- Runs of prism-xprism-boost, and its theorems at concrete inputs.
use prism_contracts.Prelude.{
  ℕ, ◌≤◌, ◌≡◌, ◌≢◌, refl, none, some, [], ◌∷◌, String, arith, Result, ok, err, str_eq,
  if◌then◌else◌,
}
use prism_contracts.Cosmwasm.{reference, reference-IsStd}
use prism_contracts.Storage.{Addr, save}
use prism_contracts.Messages.{StdError, Env, Validator, cw20, Cw20Msg}
use prism_contracts.Boost.{
  invalid_unbond, State, Config, UserInfo, Cw20HookMsg, ExecuteMsg, InstantiateMsg,
  accumulate_boost, get_boost, unbond_user, bond_user, receive_cw20, execute,
}
use prism_contracts.Boost.Accrual.{IsValid, accumulate_boost-IsValid, accumulate_boost-split}
use prism_contracts.Boost.Unbond.{users_after, unbond_user-pays, unbond_user-refuses}
use prism_contracts.Boost.Invariant.{IsSound, execute-IsSound}
use prism_contracts.Boost.Access.{execute-access}

abbrev known : Validator
known a = if str_eq a "" then err StdError.not_found else ok a

abbrev decode : String → Result StdError Cw20HookMsg
decode m = if str_eq m "bond" then ok (Cw20HookMsg.bond none) else err StdError.not_found

-- Half a unit of boost an hour, and at most 100 for each xPRISM.
abbrev config : Config
config = record {
  owner = "owner";
  xprism_token = "xprism";
  boost_per_hour = 500_000_000_000_000_000;
  max_boost_per_xprism = 100;
  launch_pool_contract = none;
}

abbrev alice : UserInfo
alice = record {
  amt_bonded = 40;
  total_boost = 10;
  last_updated = 7200;
  boost_accrual_start_time = 3600;
}

abbrev state : State
state = record { config = some config; user_info = save "alice" alice (λ _. none) }

abbrev at : ℕ → Env
at t = record { seconds = t; height = 1; address = "boost" }

-- Two hours at 20 an hour.
two_hours :
    get_boost reference state (at 14_400) "alice"
    ≡ ok (record alice { total_boost = 50; last_updated = 14_400 })
unfolding get_boost accumulate_boost
two_hours = refl

alice-IsValid : (t : ℕ) → 7200 ≤ t → IsValid config t alice
alice-IsValid t h = omega arith

state-IsSound : (t : ℕ) → 7200 ≤ t → IsSound state t
state-IsSound t h = record {
  cfg = config;
  stored = refl;
  limited = omega arith;
  users = λ a u e. ground (arith, alice-IsValid t h);
}

still-IsValid :
    let later : UserInfo = record alice { total_boost = 50; last_updated = 14_400 } in
    IsValid config 14_400 later × (later.amt_bonded ≡ 40) × (10 ≤ later.total_boost)
unfolding accumulate_boost
still-IsValid =
    accumulate_boost-IsValid reference reference-IsStd state (at 14_400) config alice
      (record alice { total_boost = 50; last_updated = 14_400 }) refl
      (alice-IsValid 14_400 (omega arith)) refl

-- After ninety seconds nothing was earned yet, and the time is lost.
accumulate_boost-split_example : 49 ≤ 50
unfolding accumulate_boost
accumulate_boost-split_example =
    accumulate_boost-split reference reference-IsStd state (at 7290) (at 14_400) config alice
      (record alice { last_updated = 7290 })
      (record alice { total_boost = 49; last_updated = 14_400 })
      (record alice { total_boost = 50; last_updated = 14_400 }) refl
      (alice-IsValid 7290 (omega arith)) (omega arith) (omega arith) refl refl refl

unbond_user-pays_example :
    unbond_user reference state (at 9000) "alice" (some 15)
    ≡ ok (
      record state { user_info = users_after state (at 9000) "alice" 25 },
      cw20 "xprism" (Cw20Msg.transfer "alice" 15) ∷ [],
    )
unbond_user-pays_example =
    unbond_user-pays reference reference-IsStd state (at 9000) config "alice" alice (some 15) refl
      refl (omega arith)

refused : unbond_user reference state (at 9000) "alice" (some 41) ≡ err invalid_unbond
refused =
    (unbond_user-refuses reference reference-IsStd state (at 9000) "alice" 41).1 alice refl
      (omega arith)

abbrev deposit : ExecuteMsg
deposit = ExecuteMsg.receive (record { sender = "bob"; amount = 7; msg = "bond" })

abbrev with_bob : State
with_bob = record state {
  user_info =
      save "bob"
        (record {
          amt_bonded = 7;
          total_boost = 0;
          last_updated = 9000;
          boost_accrual_start_time = 9000;
        })
        state.user_info;
}

execute-IsSound_example : IsSound with_bob 9000
unfolding execute receive_cw20 bond_user accumulate_boost
execute-IsSound_example =
    execute-IsSound reference reference-IsStd known decode state with_bob (at 9000) "xprism" deposit
      [] (state-IsSound 9000 (omega arith)) refl

execute-access_example :
    ("xprism" ≢ config.owner → with_bob.config ≡ state.config)
    × ("xprism" ≢ config.xprism_token
        → (a : Addr) → a ≢ "xprism"
        → with_bob.user_info a ≡ state.user_info a)
unfolding execute receive_cw20 bond_user accumulate_boost
execute-access_example =
    execute-access reference reference-IsStd known decode state with_bob config (at 9000) "xprism"
      deposit [] refl refl

abbrev setup : InstantiateMsg
setup = record {
  owner = "owner";
  xprism_token = "xprism";
  boost_per_hour = config.boost_per_hour;
  max_boost_per_xprism = 100;
  launch_pool_contract = none;
}
