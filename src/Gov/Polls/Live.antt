-- ===== src/Gov/Polls/Live.antt =====
-- A poll whose voting period is over can be ended.
use prism_contracts.Prelude.{
  ℕ, ◌+◌, ◌≤◌, ◌<◌, ◌≡◌, Bool, some, List, arith, ok, inl, inr, Result-cases,
}
use prism_contracts.Prelude.Division.{share-le}
use prism_contracts.Cosmwasm.{Std, IsStd, reference, determined, decimal_one, u128_size}
use prism_contracts.Storage.{Addr}
use prism_contracts.Storage.Ordered
use prism_contracts.Messages.{Env, CosmosMsg, Validator}
use prism_contracts.Querier.{Querier}
use prism_contracts.Gov.{PollStatus, in_progress, Poll, Store, Config, CanonicalAddr}
use prism_contracts.Gov.Polls.{total_supply, tally, reaches_quorum, reaches_threshold, end_poll}

module _ (humanize canonicalize : Validator) (q : Querier) where
  quorum_decided :
      (poll : Poll) (tallied supply : ℕ)
      → tallied ≤ supply
      → (b : Bool) × (reaches_quorum reference humanize canonicalize q poll tallied supply ≡ ok b)
  unfolding reaches_quorum
  quorum_decided poll tallied supply le =
      elim (Result-cases (reaches_quorum reference humanize canonicalize q poll tallied supply)) [
        | inl (b, e) ↦ (b, e)
        | inr bad ↦ absurd (ground (arith, share-le decimal_one tallied supply le))
      ]

  threshold_decided :
      (poll : Poll)
      → poll.yes_votes + poll.no_votes < u128_size
      → (b : Bool) × (reaches_threshold reference humanize canonicalize q poll ≡ ok b)
  unfolding reaches_threshold
  threshold_decided poll lt =
      elim (Result-cases (reaches_threshold reference humanize canonicalize q poll)) [
        | inl (b, e) ↦ (b, e)
        | inr bad ↦ absurd (
            ground (
              arith,
              share-le decimal_one poll.yes_votes (poll.yes_votes + poll.no_votes) (omega arith),
            ))
      ]

  tally_decided :
      (token creator : Addr) (poll : Poll) (tallied supply : ℕ)
      → tallied ≤ supply
      → poll.yes_votes + poll.no_votes < u128_size
      → humanize poll.creator ≡ ok creator
      → (status : PollStatus) × (msgs : List CosmosMsg) × (tally reference humanize canonicalize q
            token poll tallied supply
          ≡ ok (status, msgs))
  unfolding tally
  tally_decided token creator poll tallied supply le lt e =
      let (quorum, e1) = quorum_decided poll tallied supply le in
      let (threshold, e2) = threshold_decided poll lt in
      elim (Result-cases (tally reference humanize canonicalize q token poll tallied supply)) [
        | inl ((status, msgs), e3) ↦ (status, msgs, e3)
        | inr bad ↦ absurd (ground arith)
      ]

  end_live_at :
      (s : Store) (env : Env) (poll_id : ℕ) (cfg : Config) (poll : Poll) (xprism : CanonicalAddr)
      (token creator : Addr) (supply : ℕ)
      → s.config ≡ some cfg
      → cfg.xprism_token ≡ some xprism
      → humanize xprism ≡ ok token
      → Ordered.load poll_id s.polls ≡ some poll
      → poll.status ≡ in_progress
      → poll.end_time ≤ env.seconds
      → humanize poll.creator ≡ ok creator
      → total_supply reference humanize canonicalize q token poll ≡ ok supply
      → poll.yes_votes + poll.no_votes + poll.abstain_votes ≤ supply
      → supply < u128_size
      → (t : Store) × (msgs : List CosmosMsg) × (end_poll reference humanize canonicalize q s env
            poll_id
          ≡ ok (t, msgs))
  unfolding end_poll
  end_live_at s env poll_id cfg poll xprism token creator supply e1 e2 e3 e4 going over e5 e6 le
        lt =
      let tallied = poll.yes_votes + poll.no_votes + poll.abstain_votes in
      let (status, out, e7) = tally_decided token creator poll tallied supply le (omega arith) e5 in
      elim (Result-cases (end_poll reference humanize canonicalize q s env poll_id)) [
        | inl ((t, msgs), e8) ↦ (t, msgs, e8)
        | inr bad ↦ absurd (ground arith)
      ]

  -- A poll that is in progress and whose voting period is over can be ended by anybody: where the
  -- addresses are those of accounts, the supply is known and covers the votes, the call succeeds.
  pub end_poll-live :
      (ops : Std) (law : IsStd ops) (s : Store) (env : Env) (poll_id : ℕ) (cfg : Config)
      (poll : Poll) (xprism : CanonicalAddr) (token creator : Addr) (supply : ℕ)
      → s.config ≡ some cfg
      → cfg.xprism_token ≡ some xprism
      → humanize xprism ≡ ok token
      → Ordered.load poll_id s.polls ≡ some poll
      → poll.status ≡ in_progress
      → poll.end_time ≤ env.seconds
      → humanize poll.creator ≡ ok creator
      → total_supply ops humanize canonicalize q token poll ≡ ok supply
      → poll.yes_votes + poll.no_votes + poll.abstain_votes ≤ supply
      → supply < u128_size
      → (t : Store) × (msgs : List CosmosMsg) × (end_poll ops humanize canonicalize q s env poll_id
          ≡ ok (t, msgs))
  end_poll-live ops law s env poll_id cfg poll xprism token creator supply =
      rw (determined law) (end_live_at s env poll_id cfg poll xprism token creator supply)
