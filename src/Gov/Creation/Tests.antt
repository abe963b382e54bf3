-- ===== src/Gov/Creation/Tests.antt =====
-- Runs of `create_poll`, and its theorem at a concrete input.
use prism_contracts.Prelude.{
  ℕ, ◌+◌, ◌≤◌, ◌≡◌, ◌≢◌, refl, none, some, List, [], arith, Result, ok, err,
}
use prism_contracts.Storage.Ordered
use prism_contracts.Messages.{StdError, generic_err, CosmosMsg}
use prism_contracts.Gov.{in_progress, Poll, Store, Config}
use prism_contracts.Gov.Sample.{store, at, human, fst_of}
use prism_contracts.Gov.Creation.{
  create_poll, canonical_data, pop_last_poll_id, validate_title, validate_description,
  validate_link,
}
use prism_contracts.Gov.Creation.Fresh.{IsFresh, create_poll-IsFresh}

short : validate_title "abc" ≡ err (generic_err "Title too short")
unfolding validate_title
short = refl

abbrev run : Result StdError (Store × List CosmosMsg)
run = create_poll human human store (at 50) "erin" 30 "Title" "Description" none none

run_ok : run ≡ ok (fst_of run, [])
unfolding create_poll canonical_data pop_last_poll_id validate_title validate_description
    validate_link
run_ok = refl

store-IsFresh : IsFresh store
store-IsFresh = (3, refl, λ i le. ground arith)

create_poll-IsFresh_example :
    IsFresh (fst_of run)
    × (cfg : Config) × (id : ℕ) × (poll : Poll) × (store.config ≡ some cfg)
    × (Ordered.load id store.polls ≡ none)
    × (Ordered.load id (fst_of run).polls ≡ some poll)
    × (poll.id ≡ id)
    × ((fst_of run).tmp_poll_id ≡ none)
    × ((fst_of run).config ≡ store.config)
    × (poll.status ≡ in_progress)
    × (poll.yes_votes + poll.no_votes + poll.abstain_votes ≡ 0)
    × (cfg.proposal_deposit ≤ poll.deposit_amount)
    × (poll.end_time ≡ 50 + cfg.voting_period)
    × ((j : ℕ) → j ≢ id → Ordered.load j (fst_of run).polls ≡ Ordered.load j store.polls)
create_poll-IsFresh_example =
    create_poll-IsFresh human human store (fst_of run) (at 50) "erin" 30 "Title" "Description" none
      none [] store-IsFresh run_ok
