-- ===== src/Gov/Voting/Frame.antt =====
-- The handlers of voting.rs leave the polls alone.
use prism_contracts.Prelude.{ℕ, ◌≡◌, Option, List, String, arith, ok}
use prism_contracts.Cosmwasm.{Std}
use prism_contracts.Storage.{Addr}
use prism_contracts.Messages.{CosmosMsg, Validator}
use prism_contracts.Gov.{Store}
use prism_contracts.Gov.Frame.{SamePolls}
use prism_contracts.Gov.Voting.{stake_voting_tokens, withdraw_voting_tokens, compute_locked_balance}

module _ (ops : Std) (humanize canonicalize : Validator) where
  pub stake_voting_tokens-SamePolls :
      (s t : Store) (sender : String) (amount : ℕ) (msgs : List CosmosMsg)
      → stake_voting_tokens ops humanize canonicalize s sender amount ≡ ok (t, msgs)
      → SamePolls s t
  unfolding stake_voting_tokens
  stake_voting_tokens-SamePolls s t sender amount msgs e = ground arith

  pub withdraw_voting_tokens-SamePolls :
      (s t : Store) (sender : Addr) (amount : Option ℕ) (msgs : List CosmosMsg)
      → withdraw_voting_tokens ops humanize canonicalize s sender amount ≡ ok (t, msgs)
      → SamePolls s t
  unfolding withdraw_voting_tokens compute_locked_balance
  withdraw_voting_tokens-SamePolls s t sender amount msgs e = ground arith
