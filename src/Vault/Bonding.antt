-- ===== src/Vault/Bonding.antt =====
-- contracts/prism-vault/src/bond.rs: Luna comes in, is delegated to a validator, and cLuna (or yLuna
-- and pLuna) is minted for it at the exchange rate.
pub mod Payment
pub mod Mint
mod Tests
use prism_contracts.Prelude.{
  ℕ, ◌+◌, ◌≡◌, Bool, true, false, Option, none, some, List, [], ◌∷◌, ◌++◌, String, ltb, ◌==◌,
  if◌then◌else◌, Result, ok, err, panic, ◌>>=◌, ◌>>◌, fail_if, or_err, or_panic, map_err, not, min,
}
use prism_contracts.Cosmwasm.{Std, Decimal}
use prism_contracts.Storage.{Addr}
use prism_contracts.Storage.Keys.{before}
use prism_contracts.Messages.{
  StdError, overflow, generic_err, Env, MessageInfo, MustPay, CosmosMsg, cw20, delegate, Cw20Msg,
  load_item,
}
use prism_contracts.Querier.{Querier, Delegation}
use prism_contracts.Vault.State.{
  State, Store, Response, Parameters, assert_initialized, is_valid_validator,
}
use prism_contracts.Vault.Exchange.{
  slashing, update_exchange_rate, total_issued_or_zero, decimal_division,
}

-- `Ord` of the pairs of an amount and a validator.
abbrev pair_before : ℕ × Addr → ℕ × Addr → Bool
pair_before (n, a) (m, b) = if ltb n m then true else if n == m then before a b else false

-- The first of the sorted list.
least : ℕ × Addr → List (ℕ × Addr) → ℕ × Addr
least p [] = p
least p (x ∷ xs) = least (if pair_before x p then x else p) xs

first_sorted : List (ℕ × Addr) → Result StdError Addr
unfolding least
first_sorted [] = err (generic_err "All validators are jailed")
first_sorted (p ∷ ps) = ok (least p ps).1

-- The loop: what is delegated to each active validator, or the first to whom nothing is.
pick_from : Querier → Addr → List Addr → List (ℕ × Addr) → Result StdError Addr
unfolding first_sorted
pick_from q contract_addr [] delegations = first_sorted delegations
pick_from q contract_addr (val ∷ vals) delegations = do
  exists ← q.validator_exists val
  elim exists [
    | false ↦ pick_from q contract_addr vals delegations
    | true ↦ q.delegation contract_addr val >>= λ d. elim d [
      | none ↦ ok val
      | some d ↦ pick_from q contract_addr vals (delegations ++ (d.amount, val) ∷ [])
    ]
  ]

pub pick_bond_validator : Querier → Addr → List Addr → Result StdError Addr
unfolding pick_from
pick_bond_validator q contract_addr [] = err (generic_err "There are not validators to pick from")
pick_bond_validator q contract_addr (v ∷ vs) = pick_from q contract_addr (v ∷ vs) []

pub select_validator : Querier → Store → Addr → Option String → Result StdError Addr
select_validator q s contract_addr none = pick_bond_validator q contract_addr s.validators
select_validator q s contract_addr (some v) =
    if is_valid_validator s v
    then ok v
    else err (generic_err "The chosen validator is currently not supported")

-- `Vec::pop`, whose result is dropped.
pub pop {ℓ} : {A : Type ℓ} → List A → List A
pop [] = []
pop (x ∷ []) = []
pop (x ∷ y ∷ ys) = x ∷ pop (y ∷ ys)

module _ (ops : Std) where
  -- The minted amount less the peg recovery fee, which applies below the threshold.
  pub mint_less_fee : Parameters → State → ℕ → ℕ → ℕ → ℕ → Result StdError ℕ
  mint_less_fee params st total_supply requested payment mint =
      if ltb st.exchange_rate params.er_threshold
      then (do
        max_peg_fee ← or_panic (ops.mul_decimal mint params.peg_recovery_fee)
        issued ← or_panic (ops.add total_supply mint)
        claims ← or_panic (ops.add issued requested)
        backing ← or_panic (ops.add st.total_bond_amount payment)
        required_peg_fee ← or_err (ops.checked_sub claims backing) overflow
        or_err (ops.checked_sub mint (min max_peg_fee required_peg_fee)) overflow)
      else ok mint

  module _ (must_pay : MustPay) (q : Querier) where
    -- `_execute_bond`: the new state, the minted amount, the messages and the payment.
    pub bond_payment :
        Store → Env → MessageInfo → Option String → Result StdError (Store × ℕ × List CosmosMsg × ℕ)
    bond_payment s env info validator = do
      selected ← select_validator q s env.address validator
      params ← load_item s.parameters
      batch ← load_item s.current_batch
      payment ← map_err generic_err (must_pay info params.underlying_coin_denom)
      st ← load_item s.state
      (s, st) ← slashing ops q s env st params
      supply ← total_issued_or_zero q s
      mint ← decimal_division ops payment st.exchange_rate
      minted ← mint_less_fee params st supply batch.requested_with_fee payment mint
      supply ← or_panic (ops.add supply minted)
      bonded ← or_panic (ops.add st.total_bond_amount payment)
      st ←
          update_exchange_rate ops (record st { total_bond_amount = bonded }) supply
            batch.requested_with_fee
      let s = record s { state = some st }
      cfg ← load_item s.config
      cfg ← assert_initialized cfg
      let msgs =
          delegate selected params.underlying_coin_denom payment
          ∷ cw20 cfg.cluna_contract (Cw20Msg.mint info.sender minted)
          ∷ []
      ok (s, minted, msgs, payment)

    pub execute_bond : Store → Env → MessageInfo → Option String → Result StdError Response
    execute_bond s env info validator = do
      (s, minted, msgs, payment) ← bond_payment s env info validator
      ok (s, msgs)

    -- The cLuna is minted for the vault in place of the sender, who gets yLuna and pLuna.
    pub execute_bond_split : Store → Env → MessageInfo → Option String → Result StdError Response
    unfolding pop
    execute_bond_split s env info validator = do
      cfg ← load_item s.config
      cfg ← assert_initialized cfg
      (s, minted, msgs, payment) ← bond_payment s env info validator
      ok (
        s,
        pop msgs
            ++ cw20 cfg.cluna_contract (Cw20Msg.mint env.address minted)
              ∷ cw20 cfg.yluna_contract (Cw20Msg.mint info.sender minted)
              ∷ cw20 cfg.pluna_contract (Cw20Msg.mint info.sender minted)
              ∷ [],
      )
