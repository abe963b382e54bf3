-- ===== src/Gov/Polls/Frame.antt =====
-- What the handlers of polls.rs change of the polls.
use prism_contracts.Prelude.{
  ℕ, ◌-◌, ◌≡◌, ◌∙◌, refl, some, List, arith, ok, inl, inr, Result-cases, Option-cases,
}
use prism_contracts.Cosmwasm.{Std}
use prism_contracts.Storage.{Addr}
use prism_contracts.Storage.Ordered
use prism_contracts.Messages.{Env, CosmosMsg, Validator}
use prism_contracts.Querier.{Querier}
use prism_contracts.Gov.{passed, executed, failed, VoteOption, Poll, Store, Config}
use prism_contracts.Gov.Frame.{Replaces}
use prism_contracts.Gov.Polls.{
  count_vote, vote_snapshot, cast_vote, snapshot_poll, execute_poll, end_poll, failed_poll,
  query_xprism_supply,
}
use prism_contracts.Gov.Polls.Lifecycle.{same_status-eq}

module _ (ops : Std) (humanize canonicalize : Validator) (q : Querier) where
  count_vote-same :
      (vote : VoteOption) (amount : ℕ) (old new : Poll)
      → count_vote ops humanize canonicalize q vote amount old ≡ ok new
      → (new.status ≡ old.status) × (new.id ≡ old.id)
  unfolding count_vote
  count_vote-same VoteOption.yes amount old new e = ground arith
  count_vote-same VoteOption.no amount old new e = ground arith
  count_vote-same VoteOption.abstain amount old new e = ground arith

  vote_snapshot-same :
      (cfg : Config) (left : ℕ) (old new : Poll)
      → vote_snapshot ops humanize canonicalize q cfg left old ≡ ok new
      → (new.status ≡ old.status) × (new.id ≡ old.id)
  unfolding vote_snapshot
  vote_snapshot-same cfg left old new e = ground arith

  pub cast_vote-Replaces :
      (s t : Store) (env : Env) (sender : Addr) (poll_id : ℕ) (vote : VoteOption) (amount : ℕ)
      (msgs : List CosmosMsg)
      → cast_vote ops humanize canonicalize q s env sender poll_id vote amount ≡ ok (t, msgs)
      → (old : Poll) × (new : Poll) × Replaces s t poll_id old new
        × (new.status ≡ old.status)
        × (t.tmp_poll_id ≡ s.tmp_poll_id)
  unfolding cast_vote
  cast_vote-Replaces s t env sender poll_id vote amount msgs e = elim (Option-cases s.config) [
    | inl bad ↦ absurd (ground arith)
    | inr (cfg, e1) ↦ elim (Option-cases (Ordered.load poll_id s.polls)) [
      | inl bad ↦ absurd (ground arith)
      | inr (old, e2) ↦
          elim (Result-cases (count_vote ops humanize canonicalize q vote amount old)) [
            | inr bad ↦ absurd (ground arith)
            | inl (counted, e3) ↦
                let left = old.end_time - env.seconds in
                elim (Result-cases (vote_snapshot ops humanize canonicalize q cfg left counted)) [
                  | inr bad ↦ absurd (ground arith)
                  | inl (new, e4) ↦
                      let (st1, id1) = count_vote-same vote amount old counted e3 in
                      let (st2, id2) = vote_snapshot-same cfg left counted new e4 in
                      (
                        old,
                        new,
                        (e2, id2 ∙ id1, ground arith, ground arith, ground arith),
                        st2 ∙ st1,
                        ground arith,
                      )
                ]
          ]
    ]
  ]

  pub snapshot_poll-Replaces :
      (s t : Store) (env : Env) (poll_id : ℕ) (msgs : List CosmosMsg)
      → snapshot_poll ops humanize canonicalize q s env poll_id ≡ ok (t, msgs)
      → (old : Poll) × (new : Poll) × Replaces s t poll_id old new
        × (new.status ≡ old.status)
        × (t.tmp_poll_id ≡ s.tmp_poll_id)
  unfolding snapshot_poll
  snapshot_poll-Replaces s t env poll_id msgs e = elim (Option-cases s.config) [
    | inl bad ↦ absurd (ground arith)
    | inr (cfg, e1) ↦ elim (Option-cases (Ordered.load poll_id s.polls)) [
      | inl bad ↦ absurd (ground arith)
      | inr (old, e2) ↦ elim (Result-cases (query_xprism_supply ops humanize canonicalize q cfg)) [
        | inr bad ↦ absurd (ground arith)
        | inl (supply, e3) ↦
            let new : Poll = record old { supply_snapshot = some supply } in
            (old, new, (e2, refl, ground arith, ground arith, ground arith), refl, ground arith)
      ]
    ]
  ]

  pub execute_poll-Replaces :
      (s t : Store) (env : Env) (poll_id : ℕ) (msgs : List CosmosMsg)
      → execute_poll ops humanize canonicalize q s env poll_id ≡ ok (t, msgs)
      → (old : Poll) × (new : Poll) × Replaces s t poll_id old new
        × (old.status ≡ passed)
        × (new.status ≡ executed)
        × (t.tmp_poll_id ≡ some old.id)
  unfolding execute_poll
  execute_poll-Replaces s t env poll_id msgs e = elim (Option-cases s.config) [
    | inl bad ↦ absurd (ground arith)
    | inr (cfg, e1) ↦ elim (Option-cases (Ordered.load poll_id s.polls)) [
      | inl bad ↦ absurd (ground arith)
      | inr (old, e2) ↦
          let new : Poll = record old { status = executed } in
          (
            old,
            new,
            (e2, refl, ground arith, ground arith, ground arith),
            same_status-eq old.status passed (ground arith),
            refl,
            ground arith,
          )
    ]
  ]

  pub end_poll-frame :
      (s t : Store) (env : Env) (poll_id : ℕ) (msgs : List CosmosMsg)
      → end_poll ops humanize canonicalize q s env poll_id ≡ ok (t, msgs)
      → (t.last_poll_id ≡ s.last_poll_id) × (t.tmp_poll_id ≡ s.tmp_poll_id) × (t.config ≡ s.config)
  unfolding end_poll
  end_poll-frame s t env poll_id msgs e = ground arith

pub failed_poll-Replaces :
    (s t : Store) (poll_id : ℕ) (msgs : List CosmosMsg)
    → failed_poll s poll_id ≡ ok (t, msgs)
    → (old : Poll) × (new : Poll) × Replaces s t poll_id old new
      × (new.status ≡ failed)
      × (t.tmp_poll_id ≡ s.tmp_poll_id)
unfolding failed_poll
failed_poll-Replaces s t poll_id msgs e = elim (Option-cases (Ordered.load poll_id s.polls)) [
  | inl bad ↦ absurd (ground arith)
  | inr (old, found) ↦
      let new : Poll = record old { status = failed } in
      (old, new, (found, refl, ground arith, ground arith, ground arith), refl, ground arith)
]
