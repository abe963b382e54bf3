-- ===== src/Gov/Sample.antt =====
-- Data for the runs of the governance contract.
use prism_contracts.Prelude.{
  ℕ, ◌+◌, Option, none, some, [], ◌∷◌, true, Result, ok, err, panic, false,
}
use prism_contracts.Storage.{set_at, save}
use prism_contracts.Messages.{StdError, Env, Validator}
use prism_contracts.Querier.{Querier}
use prism_contracts.Gov.{
  Config, Store, in_progress, passed, VoteOption, VotingTokenManager, Poll, PollStatus,
}

abbrev pub config : Config
config = record {
  owner = "owner";
  prism_token = "prism";
  xprism_token = some "xprism";
  quorum = 100_000_000_000_000_000;
  threshold = 500_000_000_000_000_000;
  voting_period = 100;
  effective_delay = 10;
  proposal_deposit = 30;
  snapshot_period = 20;
  redemption_time = 100;
  poll_gas_limit = 0;
}

abbrev pub poll : ℕ → PollStatus → Poll
poll id status = record {
  id = id;
  creator = "carol";
  status = status;
  yes_votes = 70;
  no_votes = 20;
  abstain_votes = 10;
  end_time = 60;
  title = "Title";
  description = "Description";
  link = none;
  execute_data = some (record { contract = "target"; msg = "do it" });
  deposit_amount = 30;
  supply_snapshot = some 500;
  required_quorum = 100_000_000_000_000_000;
  required_threshold = 500_000_000_000_000_000;
}

-- Carol voted 70 of her 100.
abbrev pub carol : VotingTokenManager
carol = record {
  deposit = 100;
  locked_balance = (1, record { vote = VoteOption.yes; balance = 70 }) ∷ [];
}

-- Poll 1 is in progress, and poll 2 passed. Bob waits for one order that is due at 20 and one that is due at 90.
abbrev pub store : Store
store = record {
  config = some config;
  withdraw_orders =
      set_at "bob"
        ((20, record { xprism = 5; prism = 6 }) ∷ (90, record { xprism = 10; prism = 12 }) ∷ [])
        (λ _. []);
  total_pending = some (record { xprism = 15; prism = 18 });
  polls = (1, poll 1 in_progress) ∷ (2, poll 2 passed) ∷ [];
  poll_indexer = λ st. elim st [
    | PollStatus.in_progress ↦ (1, true) ∷ []
    | PollStatus.passed ↦ (2, true) ∷ []
    | PollStatus.rejected ↦ []
    | PollStatus.executed ↦ []
    | PollStatus.failed ↦ []
  ];
  poll_voter = λ _ _. none;
  bank =
      save "dave" (record { deposit = 50; locked_balance = [] }) (save "carol" carol (λ _. none));
  tmp_poll_id = none;
  last_poll_id = some 3;
}

abbrev pub at : ℕ → Env
at t = record { seconds = t; height = 1; address = "gov" }

abbrev pub human : Validator
human a = ok a

abbrev pub plus_seconds : Env → ℕ → Option ℕ
plus_seconds env d = some (env.seconds + d)

-- The contract holds 1018 PRISM, and 515 xPRISM are issued.
abbrev pub chain : Querier
chain = record {
  all_delegations = λ _. ok [];
  delegation = λ _ _. ok none;
  all_validators = ok [];
  validator_exists = λ _. ok false;
  balance = λ _ _. ok 0;
  token_supply = λ _. ok 515;
  token_balance = λ _ _. ok 1018;
}

abbrev pub fst_of : {B : Type 0} → Result StdError (Store × B) → Store
fst_of (ok s) = s.0
fst_of (err e) = store
fst_of panic = store

abbrev pub snd_of : {B : Type 0} → B → Result StdError (Store × B) → B
snd_of d (ok s) = s.1
snd_of d (err e) = d
snd_of d panic = d
