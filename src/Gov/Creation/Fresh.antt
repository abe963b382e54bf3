-- ===== src/Gov/Creation/Fresh.antt =====
-- A new poll gets an id of its own.
use prism_contracts.Prelude.{
  ℕ, ◌+◌, ◌≤◌, ◌≡◌, ◌≢◌, refl, ap, ◌∙◌, Option, none, some, List, String, arith, ok, bind-ok,
  fail_if, ltb,
}
use prism_contracts.Storage.Ordered
use prism_contracts.Storage.Ordered.{OrderedMap, load-save}
use prism_contracts.Messages.{load_item, generic_err, Env, CosmosMsg, Validator}
use prism_contracts.Gov.{in_progress, Poll, Store, Config}
use prism_contracts.Gov.Creation.{
  PollExecuteMsg, create_poll, canonical_data, pop_last_poll_id, validate_title,
  validate_description, validate_link,
}

-- No poll is stored from the next id on.
abbrev pub IsFresh : Store → Type 0
IsFresh s = (n : ℕ) × (s.last_poll_id ≡ some n) × ((i : ℕ) → n ≤ i → Ordered.load i s.polls ≡ none)

module _ (humanize canonicalize : Validator) where
  -- Where no poll is stored from the next id on, a poll that is created takes an unused id, starts in
  -- progress without votes and with at least the required deposit, ends after the voting period, and
  -- leaves all other polls alone; and no poll is stored from the then next id on.
  pub create_poll-IsFresh :
      (s t : Store) (env : Env) (proposer : String) (deposit : ℕ) (title description : String)
      (link : Option String) (msg : Option PollExecuteMsg) (msgs : List CosmosMsg)
      → IsFresh s
      → create_poll humanize canonicalize s env proposer deposit title description link msg
        ≡ ok (t, msgs)
      → IsFresh t
        × (cfg : Config) × (id : ℕ) × (poll : Poll) × (s.config ≡ some cfg)
        × (Ordered.load id s.polls ≡ none)
        × (Ordered.load id t.polls ≡ some poll)
        × (poll.id ≡ id)
        × (t.tmp_poll_id ≡ s.tmp_poll_id)
        × (t.config ≡ s.config)
        × (poll.status ≡ in_progress)
        × (poll.yes_votes + poll.no_votes + poll.abstain_votes ≡ 0)
        × (cfg.proposal_deposit ≤ poll.deposit_amount)
        × (poll.end_time ≡ env.seconds + cfg.voting_period)
        × ((j : ℕ) → j ≢ id → Ordered.load j t.polls ≡ Ordered.load j s.polls)
  unfolding create_poll pop_last_poll_id
  create_poll-IsFresh s t env proposer deposit title description link msg msgs (n, last, fresh) e =
      bind-ok (validate_title title) e λ u1 v1 k1.
        bind-ok (validate_description description) k1 λ u2 v2 k2.
          bind-ok (validate_link link) k2 λ u3 v3 k3. bind-ok (load_item s.config) k3 λ cfg e1 k4.
            bind-ok (fail_if (ltb deposit cfg.proposal_deposit) (generic_err "Must deposit more"))
              k4
              λ u4 v4 k5. bind-ok (canonical_data humanize canonicalize msg) k5 λ payload e2 k6.
                bind-ok (canonicalize proposer) k6 λ creator e3 k7.
                  let poll : Poll = record {
                    id = n;
                    creator = creator;
                    status = in_progress;
                    yes_votes = 0;
                    no_votes = 0;
                    abstain_votes = 0;
                    end_time = env.seconds + cfg.voting_period;
                    title = title;
                    description = description;
                    link = link;
                    execute_data = payload;
                    deposit_amount = deposit;
                    supply_snapshot = none;
                    required_quorum = cfg.quorum;
                    required_threshold = cfg.threshold;
                  } in
                  let polls : t.polls ≡ Ordered.save n poll s.polls = ground arith in
                  let load_new =
                    λ (j : ℕ). ap (Ordered.load j) polls ∙ load-save n j poll s.polls in
                  (
                    (n + 1, ground arith, λ i le. load_new i ∙ ground (arith, fresh i)),
                    cfg,
                    n,
                    poll,
                    ground arith,
                    fresh n (omega arith),
                    load_new n ∙ ground arith,
                    refl,
                    ground arith,
                    ground arith,
                    refl,
                    omega arith,
                    ground arith,
                    refl,
                    λ j other. load_new j ∙ ground arith,
                  )
