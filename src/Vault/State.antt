-- ===== src/Vault/State.antt =====
-- contracts/prism-vault/src/state.rs: what the vault stores, and its readers of the wait list and of
-- the history.
pub mod Requests
pub mod Frame
use prism_contracts.Prelude.{
  ℕ, ◌+◌, ◌≡◌, Bool, true, false, Option, none, some, List, [], ◌∷◌, String, ltb, leb, ◌==◌,
  if◌then◌else◌, Result, ok, err, panic, ◌>>=◌, ◌>>◌, fail_if, or_err, or_panic, unwrap_or, min,
}
use prism_contracts.Prelude.Lists.{take}
use prism_contracts.Cosmwasm.{Std, Decimal, decimal_one}
use prism_contracts.Storage.{Addr, set_at}
use prism_contracts.Storage.Keys.{add_key, remove_key, has_key}
use prism_contracts.Storage.Ordered
use prism_contracts.Storage.Ordered.{OrderedMap}
use prism_contracts.Messages.{StdError, generic_err, CosmosMsg, load_item}

pub record Parameters : Type 0 where
  pub epoch_period : ℕ
  pub underlying_coin_denom : String
  pub unbonding_period : ℕ
  pub peg_recovery_fee : Decimal
  pub er_threshold : Decimal

pub record CurrentBatch : Type 0 where
  pub id : ℕ
  pub requested_with_fee : ℕ

pub record State : Type 0 where
  pub exchange_rate : Decimal
  pub total_bond_amount : ℕ
  pub last_index_modification : ℕ
  pub prev_vault_balance : ℕ
  pub actual_unbonded_amount : ℕ
  pub last_unbonded_time : ℕ
  pub last_processed_batch : ℕ

pub record Config : Type 0 where
  pub owner : Addr
  pub yluna_staking : Addr
  pub cluna_contract : Addr
  pub yluna_contract : Addr
  pub pluna_contract : Addr
  pub airdrop_registry_contract : Addr
  pub initialized : Bool
  pub token_admin : Addr
  pub token_code_id : ℕ
  pub manager : Addr

pub record UnbondHistory : Type 0 where
  pub batch_id : ℕ
  pub time : ℕ
  pub amount : ℕ
  pub applied_exchange_rate : Decimal
  pub withdraw_rate : Decimal
  pub released : Bool

-- The items and maps at the end of the type definitions; `validators` lists the keys of VALIDATORS in
-- their order.
pub record Store : Type 0 where
  pub config : Option Config
  pub parameters : Option Parameters
  pub current_batch : Option CurrentBatch
  pub state : Option State
  pub unbond_waitlist : Addr → OrderedMap ℕ
  pub unbond_history : OrderedMap UnbondHistory
  pub validators : List Addr

-- A call's new state and its messages.
abbrev pub Response : Type 0
Response = Store × List CosmosMsg

unfoldable pub assert_initialized : Config → Result StdError Config
assert_initialized cfg =
    if cfg.initialized then ok cfg else err (generic_err "Contract initialization is not completed")

pub store_white_validators : Store → Addr → Store
store_white_validators s v = record s { validators = add_key v s.validators }

unfoldable pub remove_white_validators : Store → Addr → Store
remove_white_validators s v = record s { validators = remove_key v s.validators }

unfoldable pub is_valid_validator : Store → Addr → Bool
is_valid_validator s v = has_key v s.validators

abbrev pub default_unbond_waitlist_read_limit : ℕ
default_unbond_waitlist_read_limit = 30

abbrev pub max_limit : ℕ
max_limit = 100

abbrev pub default_limit : ℕ
default_limit = 10

abbrev pub read_limit : Option ℕ → ℕ
read_limit limit = min (unwrap_or limit default_unbond_waitlist_read_limit) max_limit

pub read_unbond_history : Store → ℕ → Result StdError UnbondHistory
read_unbond_history s id =
    or_err (Ordered.load id s.unbond_history)
      (generic_err "Burn requests not found for the specified time period")

unfoldable pub store_unbond_history : Store → ℕ → UnbondHistory → Store
store_unbond_history s id h = record s { unbond_history = Ordered.save id h s.unbond_history }

-- The entries above `start`, in ascending order.
pub above {ℓ} : {V : Type ℓ} → ℕ → List (ℕ × V) → List (ℕ × V)
above start [] = []
above start ((k, v) ∷ m) = let rest = above start m in if ltb start k then (k, v) ∷ rest else rest

pub get_unbond_requests : Store → Addr → Option ℕ → Option ℕ → List (ℕ × ℕ)
get_unbond_requests s sender start limit =
    take (read_limit limit) (above (unwrap_or start 0) (s.unbond_waitlist sender))

pub all_unbond_history : Store → Option ℕ → Option ℕ → List (ℕ × UnbondHistory)
all_unbond_history s start limit =
    take (min (unwrap_or limit default_limit) max_limit)
      (above (unwrap_or start 0) s.unbond_history)

-- The batches of the list that are released.
unfoldable pub released_batches : OrderedMap UnbondHistory → List (ℕ × ℕ) → List ℕ
released_batches hist [] = []
released_batches hist ((id, v) ∷ rest) =
    let later = released_batches hist rest in
    elim (Ordered.load id hist) [ none ↦ later | some h ↦ if h.released then id ∷ later else later ]

unfoldable pub get_unbond_batches : Store → Addr → Option ℕ → List ℕ
unfolding released_batches
get_unbond_batches s sender limit =
    released_batches s.unbond_history (take (read_limit limit) (s.unbond_waitlist sender))

unfoldable pub remove_all : List ℕ → OrderedMap ℕ → OrderedMap ℕ
remove_all [] m = m
remove_all (b ∷ bs) m = remove_all bs (Ordered.remove b m)

unfoldable pub remove_unbond_wait_list : Store → List ℕ → Addr → Store
unfolding remove_all
remove_unbond_wait_list s batches sender = record s {
  unbond_waitlist = set_at sender (remove_all batches (s.unbond_waitlist sender)) s.unbond_waitlist;
}

module _ (ops : Std) where
  unfoldable pub store_unbond_wait_list : Store → ℕ → Addr → ℕ → Result StdError Store
  store_unbond_wait_list s batch_id sender amount = do
    let old = unwrap_or (Ordered.load batch_id (s.unbond_waitlist sender)) 0
    total ← or_panic (ops.add old amount)
    ok (record s {
      unbond_waitlist =
          set_at sender (Ordered.save batch_id total (s.unbond_waitlist sender)) s.unbond_waitlist;
    })

  -- `acc + v * h.withdraw_rate` for an entry whose batch passes the test.
  unfoldable pub add_finished :
      (UnbondHistory → Bool) → OrderedMap UnbondHistory → ℕ → ℕ → ℕ → Result StdError ℕ
  add_finished test hist id v acc = elim (Ordered.load id hist) [
    | none ↦ ok acc
    | some h ↦
        if test h
        then (or_panic (ops.mul_decimal v h.withdraw_rate) >>= λ x. or_panic (ops.add acc x))
        else ok acc
  ]

  unfoldable pub finished_sum :
      (UnbondHistory → Bool) → OrderedMap UnbondHistory → List (ℕ × ℕ) → ℕ → Result StdError ℕ
  unfolding add_finished
  finished_sum test hist [] acc = ok acc
  finished_sum test hist ((id, v) ∷ rest) acc =
      add_finished test hist id v acc >>= λ acc'. finished_sum test hist rest acc'

  unfoldable pub get_finished_amount : Store → Addr → Option ℕ → Result StdError ℕ
  get_finished_amount s sender limit =
      finished_sum (λ h. h.released) s.unbond_history
        (take (read_limit limit) (s.unbond_waitlist sender)) 0

  pub query_get_finished_amount : Store → Addr → ℕ → Option ℕ → Result StdError ℕ
  query_get_finished_amount s sender block_time limit =
      finished_sum (λ h. ltb h.time block_time) s.unbond_history
        (take (read_limit limit) (s.unbond_waitlist sender)) 0
