-- ===== src/Gov/Polls/Tests.antt =====
-- Runs of polls.rs, and its theorems at concrete inputs.
use prism_contracts.Prelude.{
  ◌+◌, ◌≤◌, ◌<◌, ◌≡◌, refl, arith, none, some, List, [], ◌∷◌, ◌++◌, Result, ok, err,
}
use prism_contracts.Prelude.Lists.{length}
use prism_contracts.Cosmwasm.{reference, reference-IsStd}
use prism_contracts.Storage.{Addr}
use prism_contracts.Storage.Ordered
use prism_contracts.Messages.{StdError, generic_err, Env, CosmosMsg, wasm_submsg}
use prism_contracts.Querier.{query_supply}
use prism_contracts.Gov.{
  in_progress, passed, executed, VoteOption, Poll, Store, Config, ExecuteData,
}
use prism_contracts.Gov.Sample.{config, poll, store, at, human, chain, fst_of, snd_of}
use prism_contracts.Gov.Polls.{
  poll_execute_reply_id, query_xprism_supply, total_supply, end_poll, execute_poll, count_vote,
  vote_snapshot, cast_vote, max_poll_votes_per_user,
}
use prism_contracts.Gov.Polls.Live.{end_poll-live}
use prism_contracts.Gov.Polls.Votes.{manager_of, Counted, execute_poll-once, cast_vote-backed}

abbrev end : Result StdError (Store × List CosmosMsg)
end = end_poll reference human human chain store (at 60) 1

end_poll-live_example :
    (t : Store) × (msgs : List CosmosMsg) × (end_poll reference human human chain store (at 60) 1
      ≡ ok (t, msgs))
unfolding total_supply
end_poll-live_example =
    end_poll-live human human chain reference reference-IsStd store (at 60) 1 config
      (poll 1 in_progress) "xprism" "xprism" "carol" 500 refl refl refl refl refl (omega arith) refl
      refl (omega arith) (omega arith)

abbrev execution : Result StdError (Store × List CosmosMsg)
execution = execute_poll reference human human chain store (at 70) 2

execution_ok : execution ≡ ok (fst_of execution, snd_of [] execution)
unfolding execute_poll
execution_ok = refl

execute_poll-once_example :
    (cfg : Config) × (poll : Poll) × (payload : ExecuteData) × (contract : Addr) × (store.config
      ≡ some cfg)
    × (Ordered.load 2 store.polls ≡ some poll)
    × (poll.status ≡ passed)
    × (poll.end_time + cfg.effective_delay ≤ 70)
    × ((fst_of execution).polls ≡ Ordered.save 2 (record poll { status = executed }) store.polls)
    × (poll.execute_data ≡ some payload)
    × (human payload.contract ≡ ok contract)
    × (snd_of [] execution
        ≡ wasm_submsg contract payload.msg cfg.poll_gas_limit poll_execute_reply_id ∷ [])
    × ((later : Env)
        → execute_poll reference human human chain (fst_of execution) later 2
          ≡ err (generic_err "Poll is not in passed status"))
execute_poll-once_example =
    execute_poll-once reference human human chain store (fst_of execution) (at 70) 2
      (snd_of [] execution) execution_ok

abbrev cast : Result StdError (Store × List CosmosMsg)
cast = cast_vote reference human human chain store (at 50) "dave" 1 VoteOption.no 40

cast_ok : cast ≡ ok (fst_of cast, [])
unfolding cast_vote count_vote vote_snapshot query_xprism_supply query_supply
cast_ok = refl

cast_vote-backed_example :
    (poll : Poll) × (counted : Poll) × (Ordered.load 1 store.polls ≡ some poll)
    × (poll.status ≡ in_progress)
    × (50 ≤ poll.end_time)
    × (store.poll_voter 1 "dave" ≡ none)
    × (40 ≤ (manager_of store "dave").deposit)
    × (length (manager_of store "dave").locked_balance < max_poll_votes_per_user)
    × ((fst_of cast).bank "dave"
        ≡ some (record (manager_of store "dave") {
          locked_balance =
              (manager_of store "dave").locked_balance
              ++ (1, record { vote = VoteOption.no; balance = 40 }) ∷ [];
        }))
    × ((fst_of cast).poll_voter 1 "dave" ≡ some (record { vote = VoteOption.no; balance = 40 }))
    × ((fst_of cast).polls ≡ Ordered.save 1 counted store.polls)
    × Counted VoteOption.no 40 poll counted
cast_vote-backed_example =
    cast_vote-backed reference human human chain reference-IsStd store (fst_of cast) (at 50) "dave"
      "dave" 1 VoteOption.no 40 [] refl cast_ok
