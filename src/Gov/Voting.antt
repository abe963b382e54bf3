-- ===== src/Gov/Voting.antt =====
-- contracts/prism-gov/src/voting.rs: xPRISM is staked for voting and withdrawn, less what is locked.
pub mod Locked
pub mod Frame
mod Tests
use prism_contracts.Prelude.{
  ℕ, Bool, true, false, max, Option, none, some, List, [], ◌∷◌, String, ltb, ◌==◌, if◌then◌else◌,
  Result, ok, err, panic, ◌>>=◌, ◌>>◌, fail_if, or_err, or_panic, unwrap_or,
}
use prism_contracts.Cosmwasm.{Std}
use prism_contracts.Storage.{Addr, Map, save, remove}
use prism_contracts.Storage.Ordered
use prism_contracts.Storage.Ordered.{OrderedMap}
use prism_contracts.Messages.{
  StdError, overflow, generic_err, CosmosMsg, cw20, Cw20Msg, Validator, load_item,
}
use prism_contracts.Gov.{
  in_progress, VoterInfo, VotingTokenManager, Poll, Store, Response, CanonicalAddr,
}
use prism_contracts.Gov.Polls.{same_status}

-- The votes in polls that are in progress, the greatest of them, and the other polls. A vote in a poll
-- that is not stored panics.
pub locked_votes :
    OrderedMap Poll → List (ℕ × VoterInfo) → Result StdError (List (ℕ × VoterInfo) × ℕ × List ℕ)
locked_votes polls [] = ok ([], 0, [])
locked_votes polls ((id, info) ∷ rest) = do
  poll ← or_panic (Ordered.load id polls)
  (kept, greatest, ended) ← locked_votes polls rest
  ok (
      if same_status poll.status in_progress
      then ((id, info) ∷ kept, max info.balance greatest, ended)
      else (kept, greatest, id ∷ ended))

-- The records of a voter in the given polls are removed.
pub remove_votes : CanonicalAddr → List ℕ → (ℕ → Map VoterInfo) → ℕ → Map VoterInfo
remove_votes voter [] m = m
remove_votes voter (id ∷ ids) m =
    remove_votes voter ids (λ i. if i == id then remove voter (m id) else m i)

-- The store, the manager without ended polls, and the locked balance.
pub compute_locked_balance :
    Store → VotingTokenManager → CanonicalAddr → Result StdError (Store × VotingTokenManager × ℕ)
unfolding locked_votes remove_votes
compute_locked_balance s manager voter = do
  (kept, greatest, ended) ← locked_votes s.polls manager.locked_balance
  ok (
    record s { poll_voter = remove_votes voter ended s.poll_voter },
    record manager { locked_balance = kept },
    greatest,
  )

module _ (ops : Std) (humanize canonicalize : Validator) where
  pub send_tokens : CanonicalAddr → CanonicalAddr → ℕ → Result StdError (List CosmosMsg)
  send_tokens token recipient amount = do
    contract ← humanize token
    human ← humanize recipient
    ok (cw20 contract (Cw20Msg.transfer human amount) ∷ [])

  unfoldable pub stake_voting_tokens : Store → String → ℕ → Result StdError Response
  stake_voting_tokens s sender amount = do
    fail_if (amount == 0) (generic_err "Insufficient funds sent")
    key ← canonicalize sender
    let manager : VotingTokenManager =
        unwrap_or (s.bank key) (record { deposit = 0; locked_balance = [] })
    deposit ← or_panic (ops.add manager.deposit amount)
    ok (record s { bank = save key (record manager { deposit = deposit }) s.bank }, [])

  pub withdraw_voting_tokens : Store → Addr → Option ℕ → Result StdError Response
  unfolding compute_locked_balance send_tokens
  withdraw_voting_tokens s sender amount = do
    cfg ← load_item s.config
    key ← canonicalize sender
    manager ← or_err (s.bank key) (generic_err "no voting information found for this address")
    (s, manager, locked) ← compute_locked_balance s manager key
    withdrawable ← or_err (ops.checked_sub manager.deposit locked) overflow
    let withdrawn = unwrap_or amount withdrawable
    fail_if (ltb withdrawable withdrawn) (generic_err "User is trying to withdraw too many tokens")
    deposit ← or_err (ops.checked_sub manager.deposit withdrawn) overflow
    token ← or_panic cfg.xprism_token
    msgs ← send_tokens token key withdrawn
    ok (record s { bank = save key (record manager { deposit = deposit }) s.bank }, msgs)
