-- ===== src/Gov.antt =====
-- contracts/prism-gov: PRISM is exchanged for xPRISM and back, with a delay, and staked xPRISM votes on
-- polls.
pub mod Sample
pub mod Frame
pub mod Xprism
pub mod Polls
pub mod Voting
pub mod Creation
pub mod Entry
use prism_contracts.Prelude.{ℕ, Bool, Option, List, String}
use prism_contracts.Cosmwasm.{Decimal}
use prism_contracts.Storage.{Addr, Map}
use prism_contracts.Storage.Ordered.{OrderedMap}
use prism_contracts.Messages.{CosmosMsg}

-- A `CanonicalAddr`.
abbrev pub CanonicalAddr : Type 0
CanonicalAddr = String

pub record Config : Type 0 where
  pub owner : CanonicalAddr
  pub prism_token : CanonicalAddr
  pub xprism_token : Option CanonicalAddr
  pub quorum : Decimal
  pub threshold : Decimal
  pub voting_period : ℕ
  pub effective_delay : ℕ
  pub proposal_deposit : ℕ
  pub snapshot_period : ℕ
  pub redemption_time : ℕ
  pub poll_gas_limit : ℕ

-- An order's amounts, or the total of all that are pending.
pub record Amounts : Type 0 where
  pub xprism : ℕ
  pub prism : ℕ

pub data PollStatus : Type 0 where
  in_progress passed rejected executed failed : PollStatus

pub data VoteOption : Type 0 where
  yes no abstain : VoteOption

pub record VoterInfo : Type 0 where
  pub vote : VoteOption
  pub balance : ℕ

-- `deposit` is the total staked balance, and `locked_balance` maps polls to the balance voted.
pub record VotingTokenManager : Type 0 where
  pub deposit : ℕ
  pub locked_balance : List (ℕ × VoterInfo)

pub record ExecuteData : Type 0 where
  pub contract : CanonicalAddr
  pub msg : String

pub record Poll : Type 0 where
  pub id : ℕ
  pub creator : CanonicalAddr
  pub status : PollStatus
  pub yes_votes : ℕ
  pub no_votes : ℕ
  pub abstain_votes : ℕ
  pub end_time : ℕ
  pub title : String
  pub description : String
  pub link : Option String
  pub execute_data : Option ExecuteData
  pub deposit_amount : ℕ
  pub supply_snapshot : Option ℕ
  pub required_quorum : Decimal
  pub required_threshold : Decimal

-- WITHDRAW_ORDERS are kept by owner, then by the time of return; `poll_indexer` by status; `poll_voter`
-- by poll.
pub record Store : Type 0 where
  pub config : Option Config
  pub withdraw_orders : Addr → OrderedMap Amounts
  pub total_pending : Option Amounts
  pub polls : OrderedMap Poll
  pub poll_indexer : PollStatus → OrderedMap Bool
  pub poll_voter : ℕ → Map VoterInfo
  pub bank : Map VotingTokenManager
  pub tmp_poll_id : Option ℕ
  pub last_poll_id : Option ℕ

abbrev pub Response : Type 0
Response = Store × List CosmosMsg
