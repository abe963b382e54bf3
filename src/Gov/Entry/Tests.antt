-- ===== src/Gov/Entry/Tests.antt =====
-- Runs of contract.rs, and its theorems at concrete inputs.
use prism_contracts.Prelude.{
  ℕ, ◌≡◌, ◌⊎◌, refl, none, some, List, [], String, arith, str_eq, if◌then◌else◌, Result, ok, err,
}
use prism_contracts.Cosmwasm.{reference, reference-IsStd}
use prism_contracts.Storage.{Addr}
use prism_contracts.Messages.{StdError, parse_err, generic_err, CosmosMsg}
use prism_contracts.Gov.{Store, Config}
use prism_contracts.Gov.Sample.{config, store, at, human, plus_seconds, chain, fst_of, snd_of}
use prism_contracts.Gov.Polls
use prism_contracts.Gov.Polls.{failed_poll, count_vote, vote_snapshot, query_xprism_supply}
use prism_contracts.Gov.Voting
use prism_contracts.Gov.Entry.{
  InstantiateMsg, Changes, ExecuteMsg, Cw20HookMsg, instantiate, execute, receive_cw20, xprism_hook,
  set_config, changed, reply, set_xprism_token, validate_quorum, validate_threshold,
  validate_poll_gas_limit,
}
use prism_contracts.Gov.Entry.Progress.{IsTracked, Follows}
use prism_contracts.Gov.Entry.Steps.{execute-Follows}
use prism_contracts.Gov.Entry.Access.{IsValid, execute-owner}
use prism_contracts.Gov.Entry.Reach.{here, call, answer, IsSound, Settled, reached-IsSound}

-- The messages that come with tokens.
abbrev decode : String → Result StdError Cw20HookMsg
decode text =
    if str_eq text "stake" then ok Cw20HookMsg.stake_voting_tokens else err (parse_err "hook")

-- A reply is its id, and the new contract is always at the same address.
abbrev parse : ℕ → Result StdError String
parse _ = ok "xprism"

abbrev id_of : ℕ → ℕ
id_of n = n

abbrev send : Store → ℕ → Addr → ExecuteMsg → Result StdError (Store × List CosmosMsg)
send s t sender msg =
    execute reference human human human plus_seconds chain decode s (at t) sender msg

store-IsTracked : IsTracked store
store-IsTracked = record {
  fresh = (3, refl, λ i le. ground arith);
  ids = λ i poll e. ground arith;
  reported = λ i e. absurd (ground arith);
}

-- Poll 2 has passed and is run.
abbrev run : Result StdError (Store × List CosmosMsg)
run = send store 70 "anybody" (ExecuteMsg.execute_poll 2)

run_ok : run ≡ ok (fst_of run, snd_of [] run)
unfolding execute Polls.execute_poll
run_ok = refl

execute-Follows_example : Follows store (fst_of run)
execute-Follows_example =
    execute-Follows reference reference-IsStd human human human plus_seconds chain decode store
      (fst_of run) (at 70) "anybody" (ExecuteMsg.execute_poll 2) (snd_of [] run) run_ok
      store-IsTracked

-- Its message failed.
abbrev after_run : Result StdError (Store × List CosmosMsg)
after_run = reply human ℕ id_of parse human (fst_of run) 1

after_run_ok : after_run ≡ ok (fst_of after_run, [])
unfolding reply failed_poll execute Polls.execute_poll
after_run_ok = refl

-- The owner raises the quorum, and may not raise it above one.
abbrev quorum_of : ℕ → Changes
quorum_of n = record {
  owner = none;
  quorum = some n;
  threshold = none;
  voting_period = none;
  effective_delay = none;
  proposal_deposit = none;
  snapshot_period = none;
  redemption_time = none;
  poll_gas_limit = none;
}

abbrev half : ℕ
half = 500_000_000_000_000_000

abbrev raise : Result StdError (Store × List CosmosMsg)
raise = send store 70 "owner" (ExecuteMsg.update_config (quorum_of half))

raise_ok : raise ≡ ok (fst_of raise, [])
unfolding execute set_config changed validate_quorum
raise_ok = refl

too_much :
    send store 70 "owner" (ExecuteMsg.update_config (quorum_of 1_000_000_000_000_000_001))
    ≡ err (generic_err "quorum must be 0 to 1")
unfolding execute set_config changed validate_quorum
too_much = refl

execute-owner_example :
    ((fst_of raise).config ≡ store.config)
    ⊎ ((human "owner" ≡ ok "owner")
        × (new : Config) × ((fst_of raise).config ≡ some new)
        × ((new.prism_token ≡ "prism") × (new.xprism_token ≡ some "xprism"))
        × (IsValid config → IsValid new))
execute-owner_example =
    execute-owner reference reference-IsStd human human human plus_seconds chain decode store
      (fst_of raise) config (at 70) "owner" (ExecuteMsg.update_config (quorum_of half)) [] refl
      raise_ok (3, refl, λ i le. ground arith)

abbrev init : InstantiateMsg
init = record {
  prism_token = "prism";
  quorum = half;
  threshold = half;
  voting_period = 100;
  effective_delay = 10;
  proposal_deposit = 30;
  snapshot_period = 20;
  redemption_time = 100;
  poll_gas_limit = 1_000_000;
  token_code_id = 7;
}

abbrev first : Result StdError (Store × List CosmosMsg)
first = instantiate human (at 1) "owner" init

first_ok : first ≡ ok (fst_of first, snd_of [] first)
unfolding instantiate validate_quorum validate_threshold validate_poll_gas_limit
first_ok = refl

abbrev named : Result StdError (Store × List CosmosMsg)
named = reply human ℕ id_of parse human (fst_of first) 2

named_ok : named ≡ ok (fst_of named, [])
unfolding instantiate validate_quorum validate_threshold validate_poll_gas_limit reply
    set_xprism_token
named_ok = refl

abbrev stake : ExecuteMsg
stake = ExecuteMsg.receive (record { sender = "dave"; amount = 5; msg = "stake" })

abbrev staked : Result StdError (Store × List CosmosMsg)
staked = send (fst_of named) 2 "xprism" stake

staked_ok : staked ≡ ok (fst_of staked, [])
unfolding instantiate validate_quorum validate_threshold validate_poll_gas_limit reply
    set_xprism_token execute receive_cw20 xprism_hook Voting.stake_voting_tokens
staked_ok = refl

reached-IsSound_example :
    IsSound reference human human human plus_seconds decode ℕ id_of parse (fst_of named)
    × IsSound reference human human human plus_seconds decode ℕ id_of parse (fst_of staked)
    × Settled reference human human human plus_seconds decode ℕ id_of parse
        (fst_of named)
        (fst_of staked)
reached-IsSound_example =
    reached-IsSound reference human human human plus_seconds decode ℕ id_of parse reference-IsStd
      (fst_of first) (fst_of named) (fst_of staked) (at 1) "owner" init (snd_of [] first) first_ok
      (answer 2 [] here named_ok) (call chain (at 2) "xprism" stake [] here staked_ok)
