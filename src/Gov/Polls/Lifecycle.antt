-- ===== src/Gov/Polls/Lifecycle.antt =====
-- How a poll is decided, and what becomes of its deposit.
use prism_contracts.Prelude.{
  ℕ, ◌+◌, ◌*◌, ◌/◌, ◌≤◌, ◌<◌, ◌≡◌, ◌⊎◌, ◌↔◌, refl, Bool, true, false, some, List, [], ◌∷◌, arith,
  ok, inl, inr, Result-cases, Option-cases, Bool-cases, ◌==◌, if◌then◌else◌,
}
use prism_contracts.Cosmwasm.{Std, IsStd, reference, determined, decimal_one}
use prism_contracts.Storage.{Addr}
use prism_contracts.Storage.Ordered
use prism_contracts.Storage.Ordered.{OrderedMap, load-save}
use prism_contracts.Messages.{Env, CosmosMsg, cw20, Cw20Msg, Validator}
use prism_contracts.Querier.{Querier}
use prism_contracts.Gov.{
  PollStatus, in_progress, passed, rejected, Poll, Store, Config, CanonicalAddr,
}
use prism_contracts.Gov.Polls.{
  same_status, total_supply, tally, reaches_quorum, reaches_threshold, end_poll,
}

pub same_status-eq : (a b : PollStatus) → same_status a b ≡ true → a ≡ b
same_status-eq a b e = ground arith

-- Somebody voted, and enough of the supply.
abbrev pub HasQuorum : Poll → ℕ → Type 0
HasQuorum poll supply =
    let tallied = poll.yes_votes + poll.no_votes + poll.abstain_votes in
    (0 < tallied)
    × (poll.required_quorum ≤ (if supply == 0 then 0 else tallied * decimal_one / supply))

-- Somebody is in favor, and more than the threshold of those who are not undecided.
abbrev pub HasMajority : Poll → Type 0
HasMajority poll =
    (0 < poll.yes_votes)
    × (poll.required_threshold < poll.yes_votes * decimal_one / (poll.yes_votes + poll.no_votes))

-- What becomes of the deposit: it goes back to the creator, or is burned.
abbrev pub deposit_messages : Addr → Poll → Addr → Bool → List CosmosMsg
deposit_messages token poll creator true =
    if poll.deposit_amount == 0
    then []
    else cw20 token (Cw20Msg.transfer creator poll.deposit_amount) ∷ []
deposit_messages token poll creator false =
    if poll.deposit_amount == 0 then [] else cw20 token (Cw20Msg.burn poll.deposit_amount) ∷ []

quorum_at :
    (humanize canonicalize : Validator) (q : Querier) (poll : Poll) (supply : ℕ) (b : Bool)
    → reaches_quorum reference humanize canonicalize q poll
        (poll.yes_votes + poll.no_votes + poll.abstain_votes)
        supply
      ≡ ok b
    → (b ≡ true) ↔ HasQuorum poll supply
unfolding reaches_quorum
quorum_at humanize canonicalize q poll supply b e =
    (λ yes. (ground arith, ground arith), λ h. ground (arith, h.0, h.1))

threshold_at :
    (humanize canonicalize : Validator) (q : Querier) (poll : Poll) (b : Bool)
    → reaches_threshold reference humanize canonicalize q poll ≡ ok b
    → (b ≡ true) ↔ HasMajority poll
unfolding reaches_threshold
threshold_at humanize canonicalize q poll b e =
    (λ yes. (ground arith, ground arith), λ h. ground (arith, h.0, h.1))

-- The end of a poll: it passes exactly with a quorum and a majority, and is rejected otherwise; the
-- deposit, if there is one, goes back to the poll's creator exactly with a quorum.
abbrev pub Decided : Validator → Addr → Poll → ℕ → PollStatus → List CosmosMsg → Type 0
Decided humanize token poll supply status msgs =
    ((status ≡ passed) ↔ (HasQuorum poll supply × HasMajority poll))
    × ((status ≡ passed) ⊎ (status ≡ rejected))
    × (quorum : Bool) × (creator : Addr) × ((quorum ≡ true) ↔ HasQuorum poll supply)
    × (msgs ≡ deposit_messages token poll creator quorum)
    × ((quorum ≡ false) ⊎ (poll.deposit_amount ≡ 0) ⊎ (humanize poll.creator ≡ ok creator))

tally_at :
    (humanize canonicalize : Validator) (q : Querier) (token : Addr) (poll : Poll) (supply : ℕ)
    (status : PollStatus) (msgs : List CosmosMsg)
    → tally reference humanize canonicalize q token poll
        (poll.yes_votes + poll.no_votes + poll.abstain_votes)
        supply
      ≡ ok (status, msgs)
    → Decided humanize token poll supply status msgs
unfolding tally
tally_at humanize canonicalize q token poll supply status msgs e =
    let tallied = poll.yes_votes + poll.no_votes + poll.abstain_votes in
    elim (Result-cases (reaches_quorum reference humanize canonicalize q poll tallied supply)) [
      | inr bad ↦ absurd (ground arith)
      | inl (false, e1) ↦
          let iff = quorum_at humanize canonicalize q poll supply false e1 in
          (
            (λ yes. absurd (ground arith), λ h. absurd (ground (arith, iff.1 h.0))),
            inr (ground arith),
            false,
            token,
            iff,
            ground arith,
            inl refl,
          )
      | inl (true, e1) ↦
          let iff = quorum_at humanize canonicalize q poll supply true e1 in
          elim (Result-cases (reaches_threshold reference humanize canonicalize q poll)) [
            | inr bad ↦ absurd (ground arith)
            | inl (b, e2) ↦
                let either : (status ≡ passed) ⊎ (status ≡ rejected) = elim (Bool-cases b) [
                  | inl more ↦ inl (ground arith)
                  | inr less ↦ inr (ground arith)
                ] in
                let iff2 = threshold_at humanize canonicalize q poll b e2 in
                elim (Result-cases (humanize poll.creator)) [
                  | inr bad ↦ (
                    (λ yes. (iff.0 refl, iff2.0 (ground arith)), λ h. ground (arith, iff2.1 h.1)),
                    either,
                    true,
                    token,
                    iff,
                    ground arith,
                    inr (inl (ground arith)),
                  )
                  | inl (creator, e3) ↦ (
                    (λ yes. (iff.0 refl, iff2.0 (ground arith)), λ h. ground (arith, iff2.1 h.1)),
                    either,
                    true,
                    creator,
                    iff,
                    ground arith,
                    inr (inr e3),
                  )
                ]
          ]
    ]

end_at :
    (humanize canonicalize : Validator) (q : Querier) (s t : Store) (env : Env) (poll_id : ℕ)
    (msgs : List CosmosMsg)
    → end_poll reference humanize canonicalize q s env poll_id ≡ ok (t, msgs)
    → (cfg : Config) × (xprism : CanonicalAddr) × (token : Addr) × (poll : Poll) × (supply : ℕ)
      × (status : PollStatus) × (s.config ≡ some cfg)
      × (cfg.xprism_token ≡ some xprism)
      × (humanize xprism ≡ ok token)
      × (Ordered.load poll_id s.polls ≡ some poll)
      × (poll.status ≡ in_progress)
      × (poll.end_time ≤ env.seconds)
      × (total_supply reference humanize canonicalize q token poll ≡ ok supply)
      × Decided humanize token poll supply status msgs
      × (t.polls
          ≡ Ordered.save poll_id
              (record poll { status = status; supply_snapshot = some supply })
              s.polls)
unfolding end_poll
end_at humanize canonicalize q s t env poll_id msgs e = elim (Option-cases s.config) [
  | inl bad ↦ absurd (ground arith)
  | inr (cfg, e1) ↦ elim (Option-cases (Ordered.load poll_id s.polls)) [
    | inl bad ↦ absurd (ground arith)
    | inr (poll, e2) ↦ elim (Option-cases cfg.xprism_token) [
      | inl bad ↦ absurd (ground arith)
      | inr (xprism, e3) ↦ elim (Result-cases (humanize xprism)) [
        | inr bad ↦ absurd (ground arith)
        | inl (token, e4) ↦
            elim (Result-cases (total_supply reference humanize canonicalize q token poll)) [
              | inr bad ↦ absurd (ground arith)
              | inl (supply, e5) ↦
                  elim (Result-cases (
                    tally reference humanize canonicalize q token poll
                      (poll.yes_votes + poll.no_votes + poll.abstain_votes) supply)) [
                        | inr bad ↦ absurd (ground arith)
                        | inl ((status, out), e6) ↦ (
                          cfg,
                          xprism,
                          token,
                          poll,
                          supply,
                          status,
                          e1,
                          e3,
                          e4,
                          e2,
                          same_status-eq poll.status in_progress (ground arith),
                          ground arith,
                          e5,
                          tally_at humanize canonicalize q token poll supply status msgs
                              (ground arith),
                          ground arith,
                        )
                      ]
            ]
      ]
    ]
  ]
]

module _ (ops : Std) (law : IsStd ops) (humanize canonicalize : Validator) (q : Querier) where
  pub end_poll-Decided :
      (s t : Store) (env : Env) (poll_id : ℕ) (msgs : List CosmosMsg)
      → end_poll ops humanize canonicalize q s env poll_id ≡ ok (t, msgs)
      → (cfg : Config) × (xprism : CanonicalAddr) × (token : Addr) × (poll : Poll) × (supply : ℕ)
        × (status : PollStatus) × (s.config ≡ some cfg)
        × (cfg.xprism_token ≡ some xprism)
        × (humanize xprism ≡ ok token)
        × (Ordered.load poll_id s.polls ≡ some poll)
        × (poll.status ≡ in_progress)
        × (poll.end_time ≤ env.seconds)
        × (total_supply ops humanize canonicalize q token poll ≡ ok supply)
        × Decided humanize token poll supply status msgs
        × (t.polls
            ≡ Ordered.save poll_id
                (record poll { status = status; supply_snapshot = some supply })
                s.polls)
  end_poll-Decided s t env poll_id msgs =
      rw (determined law) (end_at humanize canonicalize q s t env poll_id msgs)
