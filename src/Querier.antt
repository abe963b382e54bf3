-- ===== src/Querier.antt =====
-- What the contracts ask of the chain: the functions of `QuerierWrapper` and the token queries of
-- packages/prismswap/src/querier.rs. The answers are a parameter.
use prism_contracts.Prelude.{ℕ, Bool, Option, List, String, Result, ok, err, panic, ◌>>=◌}
use prism_contracts.Storage.{Addr}
use prism_contracts.Messages.{StdError}

-- A `FullDelegation`, `can_redelegate` being its amount.
pub record Delegation : Type 0 where
  pub validator : Addr
  pub denom : String
  pub amount : ℕ
  pub can_redelegate : ℕ

pub record Querier : Type 0 where
  pub all_delegations : Addr → Result StdError (List Delegation)
  pub delegation : Addr → Addr → Result StdError (Option Delegation)
  pub all_validators : Result StdError (List Addr)
  pub validator_exists : Addr → Result StdError Bool
  pub balance : Addr → String → Result StdError ℕ
  -- `TokenInfo` and `Balance` of a cw20 contract
  pub token_supply : Addr → Result StdError ℕ
  pub token_balance : Addr → Addr → Result StdError ℕ

-- An unanswered balance query counts as zero.
unfoldable pub query_token_balance : Querier → Addr → Addr → Result StdError ℕ
query_token_balance q contract account = elim (q.token_balance contract account) [
  | ok n ↦ ok n
  | err _ ↦ ok 0
  | panic ↦ panic
]

unfoldable pub query_supply : Querier → Addr → Result StdError ℕ
query_supply q contract = q.token_supply contract >>= λ n. ok n
