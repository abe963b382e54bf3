-- ===== src/Vault/Exchange.antt =====
-- The exchange rate of the vault: `State::update_exchange_rate` of state.rs, math.rs, and `slashing` and
-- `query_total_issued` of contract.rs, in contracts/prism-vault/src.
pub mod Rate
mod Tests
use prism_contracts.Prelude.{
  ℕ, ◌+◌, ◌≡◌, Bool, true, false, ◌||◌, Option, none, some, List, [], ◌∷◌, String, str_eq, ltb, leb,
  ◌==◌, if◌then◌else◌, Result, ok, err, panic, ◌>>=◌, or_panic,
}
use prism_contracts.Cosmwasm.{Std, Decimal, decimal_one}
use prism_contracts.Storage.{Addr}
use prism_contracts.Messages.{StdError, Env, load_item}
use prism_contracts.Querier.{Querier, Delegation}
use prism_contracts.Vault.State.{State, Store, Parameters, CurrentBatch}

abbrev pub decimal_fractional : ℕ
decimal_fractional = 1_000_000_000

unfoldable pub query_total_issued : Querier → Store → Result StdError ℕ
query_total_issued q s = do cfg ← load_item s.config; q.token_supply cfg.cluna_contract

-- `query_total_issued(…).unwrap_or_default()`
unfoldable pub total_issued_or_zero : Querier → Store → Result StdError ℕ
total_issued_or_zero q s = elim (query_total_issued q s) [
  | ok n ↦ ok n
  | err _ ↦ ok 0
  | panic ↦ panic
]

module _ (ops : Std) where
  -- `decimal_division returns a / b. Panics if b is zero.`
  unfoldable pub decimal_division : ℕ → Decimal → Result StdError ℕ
  decimal_division a b = do
    scaled ← or_panic (ops.mul_decimal decimal_fractional b)
    decimal ← or_panic (ops.from_ratio a scaled)
    or_panic (ops.mul_decimal decimal_fractional decimal)

  unfoldable pub update_exchange_rate : State → ℕ → ℕ → Result StdError State
  update_exchange_rate st total_issued requested_with_fee = do
    supply ← or_panic (ops.add total_issued requested_with_fee)
    rate ← or_panic (
        if (st.total_bond_amount == 0) || (supply == 0)
        then some decimal_one
        else ops.from_ratio st.total_bond_amount supply)
    ok (record st { exchange_rate = rate })

  -- What is delegated in the given coin.
  unfoldable pub bonded_sum : String → List Delegation → ℕ → Result StdError ℕ
  bonded_sum denom [] acc = ok acc
  bonded_sum denom (d ∷ ds) acc =
      or_panic (if str_eq d.denom denom then ops.add acc d.amount else some acc) >>= λ acc'.
      bonded_sum denom ds acc'

  -- The stored amount is lowered to what is still delegated, and the rate follows.
  unfoldable pub apply_slashing : Querier → Store → State → ℕ → Result StdError (Store × State)
  unfolding update_exchange_rate
  apply_slashing q s st actual = do
    issued ← query_total_issued q s
    batch ← load_item s.current_batch
    st' ←
        update_exchange_rate (record st { total_bond_amount = actual }) issued
          batch.requested_with_fee
    ok (record s { state = some st' }, st')

  -- The state is a `&mut` argument; it is stored only if it changes.
  unfoldable pub slashing :
      Querier → Store → Env → State → Parameters → Result StdError (Store × State)
  slashing q s env st params = do
    delegations ← q.all_delegations env.address
    elim delegations [
      | [] ↦ ok (s, st)
      | d ∷ ds ↦ bonded_sum params.underlying_coin_denom (d ∷ ds) 0 >>= λ actual.
          (if ltb actual st.total_bond_amount then apply_slashing q s st actual else ok (s, st))
    ]

  -- `execute_slashing`
  pub check_slashing : Querier → Store → Env → Result StdError Store
  check_slashing q s env = do
    params ← load_item s.parameters
    st ← load_item s.state
    (s', _) ← slashing q s env st params
    ok s'
