-- ===== src/Gov/Polls/Votes.antt =====
-- What a vote changes and needs, and when the message of a poll runs.
use prism_contracts.Prelude.{
  ℕ, ◌+◌, ◌-◌, ◌≤◌, ◌<◌, ◌≡◌, ◌⊎◌, sym, ap, ◌∙◌, none, some, List, [], ◌∷◌, ◌++◌, arith, ok, err,
  inl, inr, Result-cases, Option-cases, unwrap_or, str_eq_refl, ◌==◌, if◌then◌else◌,
}
use prism_contracts.Prelude.Lists.{length}
use prism_contracts.Cosmwasm.{Std, IsStd}
use prism_contracts.Storage.{Addr, Map, save, save_self}
use prism_contracts.Storage.Ordered
use prism_contracts.Storage.Ordered.{load-save}
use prism_contracts.Messages.{generic_err, Env, CosmosMsg, wasm_submsg, Validator}
use prism_contracts.Querier.{Querier}
use prism_contracts.Gov.{
  in_progress, passed, executed, VoteOption, VoterInfo, VotingTokenManager, ExecuteData, Poll,
  Store, Config, CanonicalAddr,
}
use prism_contracts.Gov.Polls.{
  poll_execute_reply_id, execute_poll, cast_vote, count_vote, vote_snapshot,
  max_poll_votes_per_user,
}
use prism_contracts.Gov.Polls.Lifecycle.{same_status-eq}

-- What is staked and locked; nothing before the first stake.
abbrev pub manager_of : Store → CanonicalAddr → VotingTokenManager
manager_of s voter = unwrap_or (s.bank voter) (record { deposit = 0; locked_balance = [] })

-- How many of a vote's tokens count for an option.
abbrev pub votes_for : VoteOption → VoteOption → ℕ → ℕ
votes_for VoteOption.yes VoteOption.yes amount = amount
votes_for VoteOption.no VoteOption.no amount = amount
votes_for VoteOption.abstain VoteOption.abstain amount = amount
votes_for option vote amount = 0

-- The poll with a vote added to its option: nothing else changes, but that the supply may be
-- recorded where it was not yet.
abbrev pub Counted : VoteOption → ℕ → Poll → Poll → Type 0
Counted vote amount poll counted =
    (counted ≡ record poll {
      yes_votes = poll.yes_votes + votes_for VoteOption.yes vote amount;
      no_votes = poll.no_votes + votes_for VoteOption.no vote amount;
      abstain_votes = poll.abstain_votes + votes_for VoteOption.abstain vote amount;
      supply_snapshot = counted.supply_snapshot;
    })
    × ((poll.supply_snapshot ≡ none) ⊎ (counted.supply_snapshot ≡ poll.supply_snapshot))

count_vote-Counted :
    (ops : Std) (law : IsStd ops) (humanize canonicalize : Validator) (q : Querier)
    (vote : VoteOption) (amount : ℕ) (poll counted : Poll)
    → count_vote ops humanize canonicalize q vote amount poll ≡ ok counted
    → Counted vote amount poll counted
unfolding count_vote
count_vote-Counted ops law humanize canonicalize q VoteOption.yes amount poll counted e =
    (ground (arith, law.add_eq poll.yes_votes amount), inr (ground arith))
count_vote-Counted ops law humanize canonicalize q VoteOption.no amount poll counted e =
    (ground (arith, law.add_eq poll.no_votes amount), inr (ground arith))
count_vote-Counted ops law humanize canonicalize q VoteOption.abstain amount poll counted e =
    (ground (arith, law.add_eq poll.abstain_votes amount), inr (ground arith))

-- Only the recorded supply changes, and only where there was none.
snapshot_only :
    (ops : Std) (humanize canonicalize : Validator) (q : Querier) (cfg : Config) (time : ℕ)
    (poll after : Poll)
    → vote_snapshot ops humanize canonicalize q cfg time poll ≡ ok after
    → (after ≡ record poll { supply_snapshot = after.supply_snapshot })
      × ((poll.supply_snapshot ≡ none) ⊎ (after.supply_snapshot ≡ poll.supply_snapshot))
unfolding vote_snapshot
snapshot_only ops humanize canonicalize q cfg time poll after e =
    elim (Option-cases poll.supply_snapshot) [
      | inl missing ↦ (ground arith, inl missing)
      | inr (supply, e1) ↦ (ground arith, inr (ground arith))
    ]

snapshot-Counted :
    (vote : VoteOption) (amount : ℕ) (poll counted after : Poll)
    → (after ≡ record counted { supply_snapshot = after.supply_snapshot })
    → ((counted.supply_snapshot ≡ none) ⊎ (after.supply_snapshot ≡ counted.supply_snapshot))
    → Counted vote amount poll counted
    → Counted vote amount poll after
snapshot-Counted vote amount poll counted after only when (sums, snapshot) = (
  only ∙ ap (λ (c : Poll). record c { supply_snapshot = after.supply_snapshot }) sums,
  elim snapshot [
    | inl missing ↦ inl missing
    | inr same ↦ elim when [ inl missing ↦ inl (sym same ∙ missing) | inr kept ↦ inr (kept ∙ same) ]
  ],
)

voter_saved :
    (voter : CanonicalAddr) (id : ℕ) (info : VoterInfo) (m : ℕ → Map VoterInfo)
    → (if id == id then save voter info (m id) else m id) voter ≡ some info
voter_saved voter id info m = ground (arith, str_eq_refl voter)

load_saved :
    (id : ℕ) (poll : Poll) (m : Ordered.OrderedMap Poll)
    → Ordered.load id (Ordered.save id poll m) ≡ some poll
load_saved id poll m = ground (arith, load-save id id poll m)

module _ (ops : Std) (humanize canonicalize : Validator) (q : Querier) where
  -- Where the message of a poll is sent, the poll passed and the delay after its end is over; it is
  -- the stored message, to its contract and with the configured gas limit and the reply. The poll is
  -- then stored as executed, and a second run on what this one leaves fails at any time.
  pub execute_poll-once :
      (s t : Store) (env : Env) (poll_id : ℕ) (msgs : List CosmosMsg)
      → execute_poll ops humanize canonicalize q s env poll_id ≡ ok (t, msgs)
      → (cfg : Config) × (poll : Poll) × (payload : ExecuteData) × (contract : Addr) × (s.config
          ≡ some cfg)
        × (Ordered.load poll_id s.polls ≡ some poll)
        × (poll.status ≡ passed)
        × (poll.end_time + cfg.effective_delay ≤ env.seconds)
        × (t.polls ≡ Ordered.save poll_id (record poll { status = executed }) s.polls)
        × (poll.execute_data ≡ some payload)
        × (humanize payload.contract ≡ ok contract)
        × (msgs ≡ wasm_submsg contract payload.msg cfg.poll_gas_limit poll_execute_reply_id ∷ [])
        × ((later : Env)
            → execute_poll ops humanize canonicalize q t later poll_id
              ≡ err (generic_err "Poll is not in passed status"))
  unfolding execute_poll
  execute_poll-once s t env poll_id msgs e = elim (Option-cases s.config) [
    | inl bad ↦ absurd (ground arith)
    | inr (cfg, e1) ↦ elim (Option-cases (Ordered.load poll_id s.polls)) [
      | inl bad ↦ absurd (ground arith)
      | inr (poll, e2) ↦ elim (Option-cases poll.execute_data) [
        | inl bad ↦ absurd (ground arith)
        | inr (payload, e3) ↦ elim (Result-cases (humanize payload.contract)) [
          | inr bad ↦ absurd (ground arith)
          | inl (contract, e4) ↦
              let ended : Poll = record poll { status = executed } in
              let polls : t.polls ≡ Ordered.save poll_id ended s.polls = ground arith in
              let config : t.config ≡ some cfg = ground arith in
              let found : Ordered.load poll_id t.polls ≡ some ended =
                ap (Ordered.load poll_id) polls ∙ load_saved poll_id ended s.polls in
              (
                cfg,
                poll,
                payload,
                contract,
                e1,
                e2,
                same_status-eq poll.status passed (ground arith),
                ground arith,
                polls,
                e3,
                e4,
                ground arith,
                λ later. ground (arith, found, config),
              )
        ]
      ]
    ]
  ]

  -- A vote that is cast is the sender's first on a poll that is in progress, and it is at most what
  -- the sender has staked. Afterwards it is recorded both with the poll and with the stake, and its
  -- amount is added to the votes of its option and to no others.
  pub cast_vote-backed :
      (law : IsStd ops) (s t : Store) (env : Env) (sender : Addr) (voter : CanonicalAddr)
      (poll_id : ℕ) (vote : VoteOption) (amount : ℕ) (msgs : List CosmosMsg)
      → canonicalize sender ≡ ok voter
      → cast_vote ops humanize canonicalize q s env sender poll_id vote amount ≡ ok (t, msgs)
      → (poll : Poll) × (counted : Poll) × (Ordered.load poll_id s.polls ≡ some poll)
        × (poll.status ≡ in_progress)
        × (env.seconds ≤ poll.end_time)
        × (s.poll_voter poll_id voter ≡ none)
        × (amount ≤ (manager_of s voter).deposit)
        × (length (manager_of s voter).locked_balance < max_poll_votes_per_user)
        × (t.bank voter
            ≡ some (record (manager_of s voter) {
              locked_balance =
                  (manager_of s voter).locked_balance
                  ++ (poll_id, record { vote = vote; balance = amount }) ∷ [];
            }))
        × (t.poll_voter poll_id voter ≡ some (record { vote = vote; balance = amount }))
        × (t.polls ≡ Ordered.save poll_id counted s.polls)
        × Counted vote amount poll counted
  unfolding cast_vote
  cast_vote-backed law s t env sender voter poll_id vote amount msgs c e =
      elim (Option-cases s.config) [
        | inl bad ↦ absurd (ground arith)
        | inr (cfg, e1) ↦ elim (Option-cases (Ordered.load poll_id s.polls)) [
          | inl bad ↦ absurd (ground arith)
          | inr (poll, e2) ↦ elim (Option-cases (s.poll_voter poll_id voter)) [
            | inr (info, bad) ↦ absurd (ground arith)
            | inl fresh ↦
                elim (Result-cases (count_vote ops humanize canonicalize q vote amount poll)) [
                  | inr bad ↦ absurd (ground arith)
                  | inl (counted, e4) ↦
                      elim (Result-cases (
                        vote_snapshot ops humanize canonicalize q cfg (poll.end_time - env.seconds)
                          counted)) [
                            | inr bad ↦ absurd (ground arith)
                            | inl (counted', e5) ↦
                                let only =
                                  snapshot_only ops humanize canonicalize q cfg
                                    (poll.end_time - env.seconds) counted counted' e5 in
                                let info : VoterInfo = record { vote = vote; balance = amount } in
                                let manager = manager_of s voter in
                                let with_vote : VotingTokenManager = record manager {
                                  locked_balance = manager.locked_balance ++ (poll_id, info) ∷ [];
                                } in
                                let new : t ≡ record s {
                                  bank = save voter with_vote s.bank;
                                  poll_voter = λ i.
                                      if i == poll_id
                                      then save voter info (s.poll_voter poll_id)
                                      else s.poll_voter i;
                                  polls = t.polls;
                                } =
                                  ground arith in
                                (
                                  poll,
                                  counted',
                                  e2,
                                  same_status-eq poll.status in_progress (ground arith),
                                  ground arith,
                                  fresh,
                                  ground arith,
                                  ground arith,
                                  ap (λ (x : Store). x.bank voter) new
                                      ∙ save_self voter with_vote s.bank,
                                  ap (λ (x : Store). x.poll_voter poll_id voter) new
                                      ∙ voter_saved voter poll_id info s.poll_voter,
                                  ground arith,
                                  snapshot-Counted vote amount poll counted counted' only.0 only.1 (
                                      count_vote-Counted ops law humanize canonicalize q vote amount
                                        poll counted e4),
                                )
                          ]
                ]
          ]
        ]
      ]
