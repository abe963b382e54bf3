-- ===== src/Gov/Voting/Tests.antt =====
-- Runs of voting.rs, and its theorems at concrete inputs.
use prism_contracts.Prelude.{none, List, Result}
use prism_contracts.Cosmwasm.{reference}
use prism_contracts.Messages.{StdError, CosmosMsg}
use prism_contracts.Gov.{Store}
use prism_contracts.Gov.Sample.{store, human}
use prism_contracts.Gov.Voting.{withdraw_voting_tokens}

-- Carol may withdraw what she has not voted with.
abbrev withdraw : Result StdError (Store × List CosmosMsg)
withdraw = withdraw_voting_tokens reference human human store "carol" none
