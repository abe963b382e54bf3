-- ===== src/Gov/Creation.antt =====
-- contracts/prism-gov/src/polls.rs: `create_poll`, with the checks of the texts.
pub mod Fresh
mod Tests
use Prim.Native.String.{len}
use prism_contracts.Prelude.{
  ℕ, Option, none, some, List, [], ◌∷◌, String, ltb, if◌then◌else◌, Result, ok, err, ◌>>=◌, ◌>>◌,
  fail_if, add_u64, true,
}
use prism_contracts.Storage.{Addr}
use prism_contracts.Storage.Ordered
use prism_contracts.Messages.{StdError, generic_err, Env, Validator, load_item}
use prism_contracts.Gov.{PollStatus, in_progress, ExecuteData, Poll, Store, Response}
use prism_contracts.Gov.Polls.{same_status, save_poll}

-- The error for a text whose length is out of bounds.
abbrev validate_length : ℕ → ℕ → String → String → String → Result StdError (Unit {0})
validate_length least most short long text =
    if ltb (len text) least
    then err (generic_err short)
    else if ltb most (len text)
    then err (generic_err long)
    else ok tt

pub validate_title : String → Result StdError (Unit {0})
validate_title title = validate_length 4 64 "Title too short" "Title too long" title

pub validate_description : String → Result StdError (Unit {0})
validate_description description =
    validate_length 4 256 "Description too short" "Description too long" description

pub validate_link : Option String → Result StdError (Unit {0})
validate_link none = ok tt
validate_link (some link) = validate_length 12 128 "Link too short" "Link too long" link

-- `PollExecuteMsg`
pub record PollExecuteMsg : Type 0 where
  pub contract : String
  pub msg : String

-- The id, and the store with the next.
pub pop_last_poll_id : Store → Result StdError (ℕ × Store)
pop_last_poll_id s = do
  last_id ← load_item s.last_poll_id
  next ← add_u64 last_id 1
  ok (last_id, record s { last_poll_id = some next })

module _ (humanize canonicalize : Validator) where
  pub canonical_data : Option PollExecuteMsg → Result StdError (Option ExecuteData)
  canonical_data none = ok none
  canonical_data (some m) =
      canonicalize m.contract >>= λ c. ok (some (record { contract = c; msg = m.msg }))

  -- The text of the error leaves out the amount. The last line is for the log, but it can fail.
  pub create_poll :
      Store
      → Env
      → String
      → ℕ
      → String
      → String
      → Option String
      → Option PollExecuteMsg
      → Result StdError Response
  unfolding canonical_data pop_last_poll_id
  create_poll s env proposer deposit_amount title description link execute_msg = do
    validate_title title
    validate_description description
    validate_link link
    cfg ← load_item s.config
    fail_if (ltb deposit_amount cfg.proposal_deposit) (generic_err "Must deposit more")
    execute_data ← canonical_data execute_msg
    creator ← canonicalize proposer
    (poll_id, s) ← pop_last_poll_id s
    end_time ← add_u64 env.seconds cfg.voting_period
    let new_poll : Poll = record {
      id = poll_id;
      creator = creator;
      status = in_progress;
      yes_votes = 0;
      no_votes = 0;
      abstain_votes = 0;
      end_time = end_time;
      title = title;
      description = description;
      link = link;
      execute_data = execute_data;
      deposit_amount = deposit_amount;
      supply_snapshot = none;
      required_quorum = cfg.quorum;
      required_threshold = cfg.threshold;
    }
    let s = save_poll poll_id new_poll s
    let s = record s {
      poll_indexer = λ st.
          if same_status st in_progress
          then Ordered.save poll_id true (s.poll_indexer st)
          else s.poll_indexer st;
    }
    log ← humanize creator
    ok (s, [])
