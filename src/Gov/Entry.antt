-- ===== src/Gov/Entry.antt =====
-- contracts/prism-gov/src/contract.rs: instantiation, all messages, the replies and the configuration.
pub mod Progress
pub mod Steps
pub mod Access
pub mod Reach
mod Tests
use prism_contracts.Prelude.{
  ℕ, Bool, true, false, not, Option, none, some, List, [], ◌∷◌, String, str_eq, ltb, ◌==◌,
  if◌then◌else◌, Result, ok, err, panic, ◌>>=◌, ◌>>◌, fail_if, or_panic, map_err, unwrap_or,
}
use prism_contracts.Cosmwasm.{Std, Decimal, decimal_one}
use prism_contracts.Storage.{Addr}
use prism_contracts.Messages.{
  StdError, generic_err, Env, CosmosMsg, TokenInstantiateMsg, instantiate_token, Cw20ReceiveMsg,
  Validator, load_item, when_some,
}
use prism_contracts.Querier.{Querier}
use prism_contracts.Gov.{Config, VoteOption, Store, Response}
use prism_contracts.Gov.Polls
use prism_contracts.Gov.Polls.{poll_execute_reply_id, failed_poll}
use prism_contracts.Gov.Creation
use prism_contracts.Gov.Creation.{PollExecuteMsg}
use prism_contracts.Gov.Voting
use prism_contracts.Gov.Xprism
use prism_contracts.Gov.Xprism.{claim_redeemed_prism}

abbrev pub instantiate_reply_id : ℕ
instantiate_reply_id = 2

abbrev pub min_poll_gas_limit : ℕ
min_poll_gas_limit = 1_000_000

pub record InstantiateMsg : Type 0 where
  pub prism_token : String
  pub quorum : Decimal
  pub threshold : Decimal
  pub voting_period : ℕ
  pub effective_delay : ℕ
  pub proposal_deposit : ℕ
  pub snapshot_period : ℕ
  pub redemption_time : ℕ
  pub poll_gas_limit : ℕ
  pub token_code_id : ℕ

-- The fields of `UpdateConfig`.
pub record Changes : Type 0 where
  pub owner : Option String
  pub quorum : Option Decimal
  pub threshold : Option Decimal
  pub voting_period : Option ℕ
  pub effective_delay : Option ℕ
  pub proposal_deposit : Option ℕ
  pub snapshot_period : Option ℕ
  pub redemption_time : Option ℕ
  pub poll_gas_limit : Option ℕ

pub data ExecuteMsg : Type 0 where
  receive : Cw20ReceiveMsg → ExecuteMsg
  update_config : Changes → ExecuteMsg
  withdraw_voting_tokens : Option ℕ → ExecuteMsg
  cast_vote : ℕ → VoteOption → ℕ → ExecuteMsg
  end_poll execute_poll snapshot_poll : ℕ → ExecuteMsg
  claim_redeemed_xprism : ExecuteMsg

pub data Cw20HookMsg : Type 0 where
  stake_voting_tokens redeem_xprism : Cw20HookMsg
  create_poll : String → String → Option String → Option PollExecuteMsg → Cw20HookMsg
  mint_xprism : Option String → Cw20HookMsg

pub validate_quorum : Decimal → Result StdError (Unit {0})
validate_quorum quorum =
    if ltb decimal_one quorum then err (generic_err "quorum must be 0 to 1") else ok tt

pub validate_threshold : Decimal → Result StdError (Unit {0})
validate_threshold threshold =
    if ltb decimal_one threshold then err (generic_err "threshold must be 0 to 1") else ok tt

pub validate_poll_gas_limit : ℕ → Result StdError (Unit {0})
validate_poll_gas_limit limit =
    if ltb limit min_poll_gas_limit
    then err (generic_err "gas limit can not be smaller than 1000000")
    else ok tt

abbrev invalid_hook : {A : Type 0} → Result StdError A
invalid_hook = err (generic_err "invalid cw20 hook message")

module _ (canonicalize : Validator) where
  pub instantiate : Env → Addr → InstantiateMsg → Result StdError Response
  unfolding validate_quorum validate_threshold validate_poll_gas_limit
  instantiate env sender msg = do
    validate_quorum msg.quorum
    validate_threshold msg.threshold
    validate_poll_gas_limit msg.poll_gas_limit
    prism ← canonicalize msg.prism_token
    owner ← canonicalize sender
    let cfg : Config = record {
      owner = owner;
      prism_token = prism;
      xprism_token = none;
      quorum = msg.quorum;
      threshold = msg.threshold;
      voting_period = msg.voting_period;
      effective_delay = msg.effective_delay;
      proposal_deposit = msg.proposal_deposit;
      snapshot_period = msg.snapshot_period;
      redemption_time = msg.redemption_time;
      poll_gas_limit = msg.poll_gas_limit;
    }
    let token : TokenInstantiateMsg = record {
      name = "Prism Governance Token";
      symbol = "xPRISM";
      initial_balance = none;
      minter = env.address;
    }
    ok (
      record {
        config = some cfg;
        withdraw_orders = λ _. [];
        total_pending = some (record { xprism = 0; prism = 0 });
        polls = [];
        poll_indexer = λ _. [];
        poll_voter = λ _ _. none;
        bank = λ _. none;
        tmp_poll_id = none;
        last_poll_id = some 1;
      },
      instantiate_token msg.token_code_id token none instantiate_reply_id ∷ [],
    )

  -- The changes that are given, in the order of the code.
  pub changed : Changes → Config → Result StdError Config
  unfolding validate_quorum validate_threshold validate_poll_gas_limit
  changed c cfg = do
    cfg ←
        when_some c.owner (λ o cfg. canonicalize o >>= λ owner. ok (record cfg { owner = owner }))
          cfg
    cfg ← when_some c.quorum (λ q cfg. validate_quorum q >> ok (record cfg { quorum = q })) cfg
    cfg ←
        when_some c.threshold (λ t cfg. validate_threshold t >> ok (record cfg { threshold = t }))
          cfg
    let cfg : Config = record cfg {
      voting_period = unwrap_or c.voting_period cfg.voting_period;
      effective_delay = unwrap_or c.effective_delay cfg.effective_delay;
      proposal_deposit = unwrap_or c.proposal_deposit cfg.proposal_deposit;
      snapshot_period = unwrap_or c.snapshot_period cfg.snapshot_period;
      redemption_time = unwrap_or c.redemption_time cfg.redemption_time;
    }
    when_some c.poll_gas_limit
        (λ l cfg. validate_poll_gas_limit l >> ok (record cfg { poll_gas_limit = l })) cfg

  pub set_config : Store → Addr → Changes → Result StdError Response
  unfolding changed
  set_config s sender c = do
    cfg ← load_item s.config
    key ← canonicalize sender
    fail_if (not (str_eq cfg.owner key)) (generic_err "unauthorized")
    cfg ← changed c cfg
    ok (record s { config = some cfg }, [])

  -- A `Reply`; `parse_reply_instantiate_data` gives the address of the new contract.
  module _ (Reply : Type 0) (reply_id : Reply → ℕ) (parse : Reply → Result StdError String)
      (addr_validate : Validator) where
    pub set_xprism_token : Store → Reply → Result StdError Response
    set_xprism_token s msg = do
      cfg ← load_item s.config
      fail_if (elim cfg.xprism_token [ none ↦ false | some _ ↦ true ])
          (generic_err "xprism token was already set")
      address ← map_err (λ _. generic_err "error parsing xprism instantiation reply") (parse msg)
      address ← addr_validate address
      token ← canonicalize address
      ok (record s { config = some (record cfg { xprism_token = some token }) }, [])

    pub reply : Store → Reply → Result StdError Response
    unfolding set_xprism_token
    reply s msg =
        if reply_id msg == poll_execute_reply_id
        then (load_item s.tmp_poll_id >>= λ poll_id. failed_poll s poll_id)
        else if reply_id msg == instantiate_reply_id
        then set_xprism_token s msg
        else err (generic_err "reply id is invalid")

module _ (ops : Std) (humanize canonicalize addr_validate : Validator)
    (plus_seconds : Env → ℕ → Option ℕ) (q : Querier)
    (from_binary : String → Result StdError Cw20HookMsg) where
  -- The messages that come with xPRISM.
  pub xprism_hook : Store → Env → Cw20ReceiveMsg → Cw20HookMsg → Result StdError Response
  xprism_hook s env m Cw20HookMsg.stake_voting_tokens =
      Voting.stake_voting_tokens ops humanize canonicalize s m.sender m.amount
  xprism_hook s env m (Cw20HookMsg.create_poll title description link execute_msg) =
      Creation.create_poll humanize canonicalize s env m.sender m.amount title description link
        execute_msg
  xprism_hook s env m Cw20HookMsg.redeem_xprism =
      Xprism.redeem_xprism ops humanize plus_seconds q s env m.sender m.amount
  xprism_hook s env m (Cw20HookMsg.mint_xprism receiver) = invalid_hook

  -- The message that comes with PRISM.
  pub prism_hook : Store → Env → Cw20ReceiveMsg → Cw20HookMsg → Result StdError Response
  prism_hook s env m (Cw20HookMsg.mint_xprism receiver) = do
    let receiver = unwrap_or receiver m.sender
    address ← addr_validate receiver
    Xprism.mint_xprism ops humanize plus_seconds q s env receiver m.amount
  prism_hook s env m _ = invalid_hook

  -- A message that does not decode is as invalid as one of the wrong kind.
  pub receive_cw20 : Store → Env → Addr → Cw20ReceiveMsg → Result StdError Response
  unfolding xprism_hook prism_hook
  receive_cw20 s env sender m = do
    cfg ← load_item s.config
    key ← canonicalize sender
    xprism ← or_panic cfg.xprism_token
    if str_eq xprism key
        then (elim (from_binary m.msg) [
          | ok hook ↦ xprism_hook s env m hook
          | err _ ↦ invalid_hook
          | panic ↦ panic
        ])
        else if str_eq cfg.prism_token key
        then (elim (from_binary m.msg) [
          | ok hook ↦ prism_hook s env m hook
          | err _ ↦ invalid_hook
          | panic ↦ panic
        ])
        else err (generic_err "unauthorized")

  pub execute : Store → Env → Addr → ExecuteMsg → Result StdError Response
  execute s env sender (ExecuteMsg.receive m) = receive_cw20 s env sender m
  execute s env sender (ExecuteMsg.update_config c) = set_config canonicalize s sender c
  execute s env sender (ExecuteMsg.withdraw_voting_tokens amount) =
      Voting.withdraw_voting_tokens ops humanize canonicalize s sender amount
  execute s env sender (ExecuteMsg.cast_vote poll_id vote amount) =
      Polls.cast_vote ops humanize canonicalize q s env sender poll_id vote amount
  execute s env sender (ExecuteMsg.end_poll poll_id) =
      Polls.end_poll ops humanize canonicalize q s env poll_id
  execute s env sender (ExecuteMsg.execute_poll poll_id) =
      Polls.execute_poll ops humanize canonicalize q s env poll_id
  execute s env sender (ExecuteMsg.snapshot_poll poll_id) =
      Polls.snapshot_poll ops humanize canonicalize q s env poll_id
  execute s env sender ExecuteMsg.claim_redeemed_xprism =
      claim_redeemed_prism ops humanize plus_seconds q s env sender
