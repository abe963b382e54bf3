-- ===== src/Gov/Polls.antt =====
-- contracts/prism-gov/src/polls.rs: votes on a poll, its end, and the run of its message.
pub mod Lifecycle
pub mod Votes
pub mod Frame
pub mod Live
mod Tests
use prism_contracts.Prelude.{
  ℕ, ◌+◌, ◌-◌, Bool, true, false, not, ◌&&◌, ◌||◌, Option, none, some, List, [], ◌∷◌, ◌++◌, String,
  ltb, leb, ◌==◌, if◌then◌else◌, Result, ok, err, panic, ◌>>=◌, ◌>>◌, fail_if, or_err, or_panic,
  unwrap_or, add_u64, sub_u64,
}
use prism_contracts.Prelude.Lists.{length}
use prism_contracts.Cosmwasm.{Std, Decimal, in_u128}
use prism_contracts.Storage.{Addr, save}
use prism_contracts.Storage.Ordered
use prism_contracts.Messages.{
  StdError, generic_err, Env, CosmosMsg, cw20, wasm_submsg, Cw20Msg, Validator, load_item,
}
use prism_contracts.Querier.{Querier, query_supply}
use prism_contracts.Gov.{
  PollStatus, in_progress, passed, rejected, executed, failed, VoteOption, VoterInfo,
  VotingTokenManager, ExecuteData, Poll, Config, Store, Response, CanonicalAddr,
}

abbrev pub max_poll_votes_per_user : ℕ
max_poll_votes_per_user = 20

abbrev pub poll_execute_reply_id : ℕ
poll_execute_reply_id = 1

-- `==` of statuses.
abbrev pub same_status : PollStatus → PollStatus → Bool
same_status in_progress in_progress = true
same_status passed passed = true
same_status rejected rejected = true
same_status executed executed = true
same_status failed failed = true
same_status a b = false

abbrev pub load_poll : Store → ℕ → Result StdError Poll
load_poll s poll_id = load_item (Ordered.load poll_id s.polls)

-- Moves a poll from one status to another in the indexer.
abbrev pub move_indexer : PollStatus → PollStatus → ℕ → Store → Store
move_indexer from to poll_id s = record s {
  poll_indexer = λ st.
      let removed =
        if same_status st from
        then Ordered.remove poll_id (s.poll_indexer st)
        else s.poll_indexer st in
      if same_status st to then Ordered.save poll_id true removed else removed;
}

abbrev pub save_poll : ℕ → Poll → Store → Store
save_poll poll_id poll s = record s { polls = Ordered.save poll_id poll s.polls }

unfoldable pub failed_poll : Store → ℕ → Result StdError Response
failed_poll s poll_id = do
  poll ← load_poll s poll_id
  let s = move_indexer executed failed poll_id s
  ok (save_poll poll_id (record poll { status = failed }) s, [])

-- `humanize` and `canonicalize` are the functions of `Api`.
module _ (ops : Std) (humanize canonicalize : Validator) (q : Querier) where
  -- The supply of xPRISM.
  pub query_xprism_supply : Config → Result StdError ℕ
  query_xprism_supply cfg = do
    token ← or_panic cfg.xprism_token
    address ← humanize token
    query_supply q address

  -- The snapshot, or the supply of now, which becomes the snapshot.
  pub total_supply : Addr → Poll → Result StdError ℕ
  total_supply token poll = elim poll.supply_snapshot [
    | some v ↦ ok v
    | none ↦ query_supply q token
  ]

  -- Whether enough of the supply voted.
  pub reaches_quorum : Poll → ℕ → ℕ → Result StdError Bool
  reaches_quorum poll tallied supply = do
    quorum ← or_panic (if supply == 0 then some 0 else ops.from_ratio tallied supply)
    ok (not ((tallied == 0) || ltb quorum poll.required_quorum))

  -- Whether enough of the votes that count are in favor.
  pub reaches_threshold : Poll → Result StdError Bool
  reaches_threshold poll = if poll.yes_votes == 0 then ok false else (do
    counted ← or_panic (in_u128 (poll.yes_votes + poll.no_votes))
    share ← or_panic (ops.from_ratio poll.yes_votes counted)
    ok (ltb poll.required_threshold share))

  -- Without a quorum the poll is rejected and the deposit burned; otherwise it is refunded.
  pub tally : Addr → Poll → ℕ → ℕ → Result StdError (PollStatus × List CosmosMsg)
  unfolding reaches_quorum reaches_threshold
  tally token poll tallied supply = do
    quorum ← reaches_quorum poll tallied supply
    elim quorum [
      | false ↦ ok (
        rejected,
        if poll.deposit_amount == 0 then [] else cw20 token (Cw20Msg.burn poll.deposit_amount) ∷ [],
      )
      | true ↦ do
        threshold ← reaches_threshold poll
        msgs ←
            if poll.deposit_amount == 0
            then ok []
            else (humanize poll.creator >>= λ creator.
                ok (cw20 token (Cw20Msg.transfer creator poll.deposit_amount) ∷ []))
        ok (if threshold then passed else rejected, msgs)
    ]

  pub end_poll : Store → Env → ℕ → Result StdError Response
  unfolding total_supply tally
  end_poll s env poll_id = do
    cfg ← load_item s.config
    poll ← load_poll s poll_id
    xprism ← or_panic cfg.xprism_token
    token ← humanize xprism
    fail_if (not (same_status poll.status in_progress)) (generic_err "Poll is not in progress")
    fail_if (ltb env.seconds poll.end_time) (generic_err "Voting period has not expired")
    decided ← or_panic (in_u128 (poll.yes_votes + poll.no_votes))
    tallied ← or_panic (in_u128 (decided + poll.abstain_votes))
    supply ← total_supply token poll
    (status, msgs) ← tally token poll tallied supply
    let s = move_indexer in_progress status poll.id s
    let ended = record poll { status = status; supply_snapshot = some supply }
    ok (save_poll poll_id ended s, msgs)

  unfoldable pub execute_poll : Store → Env → ℕ → Result StdError Response
  execute_poll s env poll_id = do
    cfg ← load_item s.config
    poll ← load_poll s poll_id
    fail_if (not (same_status poll.status passed)) (generic_err "Poll is not in passed status")
    effective ← add_u64 poll.end_time cfg.effective_delay
    fail_if (ltb env.seconds effective) (generic_err "Effective delay has not expired")
    let s = move_indexer passed executed poll_id s
    let s = save_poll poll_id (record poll { status = executed }) s
    payload ← or_err poll.execute_data (generic_err "The poll does not have execute_data")
    contract ← humanize payload.contract
    ok (
      record s { tmp_poll_id = some poll.id },
      wasm_submsg contract payload.msg cfg.poll_gas_limit poll_execute_reply_id ∷ [],
    )

  -- The votes with a vote added.
  pub count_vote : VoteOption → ℕ → Poll → Result StdError Poll
  count_vote VoteOption.yes amount poll =
      or_panic (ops.add poll.yes_votes amount) >>= λ n. ok (record poll { yes_votes = n })
  count_vote VoteOption.no amount poll =
      or_panic (ops.add poll.no_votes amount) >>= λ n. ok (record poll { no_votes = n })
  count_vote VoteOption.abstain amount poll =
      or_panic (ops.add poll.abstain_votes amount) >>= λ n. ok (record poll { abstain_votes = n })

  -- Shortly before the end, the first vote takes the snapshot.
  pub vote_snapshot : Config → ℕ → Poll → Result StdError Poll
  unfolding query_xprism_supply
  vote_snapshot cfg time_to_end poll = elim poll.supply_snapshot [
    | some _ ↦ ok poll
    | none ↦
        if ltb time_to_end cfg.snapshot_period
        then (query_xprism_supply cfg >>= λ n. ok (record poll { supply_snapshot = some n }))
        else ok poll
  ]

  pub cast_vote : Store → Env → Addr → ℕ → VoteOption → ℕ → Result StdError Response
  unfolding count_vote vote_snapshot
  cast_vote s env sender poll_id vote amount = do
    voter ← canonicalize sender
    cfg ← load_item s.config
    poll ← or_err (Ordered.load poll_id s.polls) (generic_err "Poll does not exist")
    fail_if (not (same_status poll.status in_progress) || ltb poll.end_time env.seconds)
        (generic_err "Poll is not in progress")
    fail_if (elim (s.poll_voter poll_id voter) [ none ↦ false | some _ ↦ true ])
        (generic_err "User has already voted.")
    let manager : VotingTokenManager =
        unwrap_or (s.bank voter) (record { deposit = 0; locked_balance = [] })
    fail_if (ltb manager.deposit amount) (generic_err "User does not have enough staked tokens.")
    fail_if (leb max_poll_votes_per_user (length manager.locked_balance)) (
        generic_err
          "Can not vote on more than 20 at the same time. Voting rewards of finished polls should be claimed.")
    counted ← count_vote vote amount poll
    let info : VoterInfo = record { vote = vote; balance = amount }
    let locked = manager.locked_balance ++ (poll_id, info) ∷ []
    let s = record s {
      bank = save voter (record manager { locked_balance = locked }) s.bank;
      poll_voter =
          λ i. if i == poll_id then save voter info (s.poll_voter poll_id) else s.poll_voter i;
    }
    time_to_end ← sub_u64 poll.end_time env.seconds
    counted ← vote_snapshot cfg time_to_end counted
    ok (save_poll poll_id counted s, [])

  pub snapshot_poll : Store → Env → ℕ → Result StdError Response
  unfolding query_xprism_supply
  snapshot_poll s env poll_id = do
    cfg ← load_item s.config
    poll ← load_poll s poll_id
    fail_if (not (same_status poll.status in_progress)) (generic_err "Poll is not in progress")
    time_to_end ← sub_u64 poll.end_time env.seconds
    fail_if (ltb cfg.snapshot_period time_to_end) (generic_err "Cannot snapshot at this height")
    fail_if (elim poll.supply_snapshot [ none ↦ false | some _ ↦ true ])
        (generic_err "Snapshot has already occurred")
    supply ← query_xprism_supply cfg
    ok (save_poll poll_id (record poll { supply_snapshot = some supply }) s, [])
