-- ===== src/Vault/State/Frame.antt =====
-- What an operation leaves alone: the configuration, the parameters and the validators.
use prism_contracts.Prelude.{ℕ, ◌≡◌, refl, List, arith, ok, ap, ◌∙◌}
use prism_contracts.Cosmwasm.{Std}
use prism_contracts.Storage.{Addr}
use prism_contracts.Storage.Keys.{add_key, remove_key, has_key}
use prism_contracts.Vault.State.{
  Store, UnbondHistory, store_unbond_wait_list, store_unbond_history, remove_unbond_wait_list,
  store_white_validators, remove_white_validators, is_valid_validator,
}

abbrev pub SameAdmin : Store → Store → Type 0
SameAdmin s t =
    (t.config ≡ s.config) × (t.parameters ≡ s.parameters) × (t.validators ≡ s.validators)

pub same_admin : (s t : Store) → t ≡ s → SameAdmin s t
same_admin s t e = (
  ap (λ (x : Store). x.config) e,
  ap (λ (x : Store). x.parameters) e,
  ap (λ (x : Store). x.validators) e,
)

pub store_unbond_wait_list-SameAdmin :
    (ops : Std) (s t : Store) (id : ℕ) (a : Addr) (n : ℕ)
    → store_unbond_wait_list ops s id a n ≡ ok t
    → SameAdmin s t
unfolding store_unbond_wait_list
store_unbond_wait_list-SameAdmin ops s t id a n e = (ground arith, ground arith, ground arith)

pub store_unbond_history-SameAdmin :
    (s : Store) (id : ℕ) (h : UnbondHistory) → SameAdmin s (store_unbond_history s id h)
unfolding store_unbond_history
store_unbond_history-SameAdmin s id h = (refl, refl, refl)

pub remove_unbond_wait_list-SameAdmin :
    (s : Store) (bs : List ℕ) (a : Addr) → SameAdmin s (remove_unbond_wait_list s bs a)
unfolding remove_unbond_wait_list
remove_unbond_wait_list-SameAdmin s bs a = (refl, refl, refl)

pub SameAdmin-trans : (s t u : Store) → SameAdmin s t → SameAdmin t u → SameAdmin s u
SameAdmin-trans s t u a b = (b.0 ∙ a.0, b.1 ∙ a.1, b.2 ∙ a.2)

pub store_white_validators_only :
    (s : Store) (v : Addr)
    → store_white_validators s v ≡ record s { validators = add_key v s.validators }
unfolding store_white_validators
store_white_validators_only s v = refl

pub remove_white_validators_only :
    (s : Store) (v : Addr)
    → remove_white_validators s v ≡ record s { validators = remove_key v s.validators }
unfolding remove_white_validators
remove_white_validators_only s v = refl

pub is_valid_validator_only :
    (s : Store) (v : Addr) → is_valid_validator s v ≡ has_key v s.validators
unfolding is_valid_validator
is_valid_validator_only s v = refl
