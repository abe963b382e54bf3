-- ===== src/Vault/Sample.antt =====
-- Data for the runs of the vault: two batches that are due, two users that wait, two validators.
use prism_contracts.Prelude.{
  ℕ, some, List, [], ◌∷◌, true, false, Result, ok, err, panic, str_eq, if◌then◌else◌,
}
use prism_contracts.Cosmwasm.{decimal_one}
use prism_contracts.Storage.{Addr, set_at}
use prism_contracts.Messages.{StdError, Env, MessageInfo, MustPay, Validator}
use prism_contracts.Querier.{Querier, Delegation}
use prism_contracts.Vault.State.{Config, Parameters, CurrentBatch, State, UnbondHistory, Store}

abbrev pub config : Config
config = record {
  owner = "owner";
  yluna_staking = "staking";
  cluna_contract = "cluna";
  yluna_contract = "yluna";
  pluna_contract = "pluna";
  airdrop_registry_contract = "airdrop";
  initialized = true;
  token_admin = "admin";
  token_code_id = 7;
  manager = "manager";
}

-- A recovery fee of half a percent below a rate of one.
abbrev pub params : Parameters
params = record {
  epoch_period = 100;
  underlying_coin_denom = "uluna";
  unbonding_period = 1000;
  peg_recovery_fee = 5_000_000_000_000_000;
  er_threshold = decimal_one;
}

abbrev pub state : State
state = record {
  exchange_rate = 900_000_000_000_000_000;
  total_bond_amount = 900;
  last_index_modification = 0;
  prev_vault_balance = 0;
  actual_unbonded_amount = 0;
  last_unbonded_time = 0;
  last_processed_batch = 0;
}

abbrev pub batch : ℕ → ℕ → ℕ → UnbondHistory
batch id time amount = record {
  batch_id = id;
  time = time;
  amount = amount;
  applied_exchange_rate = decimal_one;
  withdraw_rate = decimal_one;
  released = false;
}

abbrev pub current : CurrentBatch
current = record { id = 3; requested_with_fee = 200 }

abbrev pub store : Store
store = record {
  config = some config;
  parameters = some params;
  current_batch = some current;
  state = some state;
  unbond_waitlist = set_at "alice" ((1, 60) ∷ []) (set_at "bob" ((1, 40) ∷ (2, 50) ∷ []) (λ _. []));
  unbond_history = (1, batch 1 500 100) ∷ (2, batch 2 600 50) ∷ [];
  validators = "val1" ∷ "val2" ∷ [];
}

abbrev pub at : ℕ → Env
at t = record { seconds = t; height = 10; address = "vault" }

abbrev pub delegation : Addr → ℕ → Delegation
delegation v n = record { validator = v; denom = "uluna"; amount = n; can_redelegate = n }

abbrev pub delegations : List Delegation
delegations = delegation "val1" 500 ∷ delegation "val2" 400 ∷ []

-- A chain whose balance query answers with the given amount.
abbrev pub chain : ℕ → Querier
chain balance = record {
  all_delegations = λ _. ok delegations;
  delegation =
      λ _ v. ok (if str_eq v "val1" then some (delegation v 500) else some (delegation v 400));
  all_validators = ok ("val1" ∷ "val2" ∷ "val3" ∷ []);
  validator_exists = λ _. ok true;
  balance = λ _ _. ok balance;
  token_supply = λ _. ok 800;
  token_balance = λ _ _. ok 0;
}

-- The generator that draws the first.
abbrev pub first : ℕ → ℕ → ℕ
first k n = 0

abbrev pub known : Validator
known a = if str_eq a "" then err (StdError.generic_err "empty") else ok a

abbrev pub pays : ℕ → MustPay
pays n info denom = ok n

abbrev pub from : Addr → MessageInfo
from a = record { sender = a; funds = [] }

abbrev pub store_of : Result StdError Store → Store
store_of (ok s) = s
store_of (err e) = store
store_of panic = store

abbrev pub fst_of : {B : Type 0} → Result StdError (Store × B) → Store
fst_of (ok s) = s.0
fst_of (err e) = store
fst_of panic = store

abbrev pub snd_of : {B : Type 0} → B → Result StdError (Store × B) → B
snd_of d (ok s) = s.1
snd_of d (err e) = d
snd_of d panic = d
