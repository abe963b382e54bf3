-- ===== src/Storage.antt =====
-- Contract storage: a `Map` of `cw_storage_plus` (or a `Bucket` of `cosmwasm_storage`) keyed by an
-- address, as a function.
pub mod Ordered
pub mod Keys
pub mod Named
pub mod Sums
use prism_contracts.Prelude.{
  ◌≡◌, refl, ◌≢◌, Bool, Option, none, some, String, arith, str_eq, str_eq_iff, if◌then◌else◌,
}

-- An `Addr` wraps a string.
abbrev pub Addr : Type 0
Addr = String

abbrev pub Map : Type 0 → Type 0
Map V = Addr → Option V

-- A value for one address, where every address has one.
abbrev pub set_at {ℓ} : {V : Type ℓ} → Addr → V → (Addr → V) → Addr → V
set_at k v m = λ j. if str_eq k j then v else m j

module _ {V : Type 0} where
  abbrev pub save : Addr → V → Map V → Map V
  save k v m = λ j. if str_eq k j then some v else m j

  abbrev pub remove : Addr → Map V → Map V
  remove k m = λ j. if str_eq k j then none else m j

  pub save_self : (k : Addr) (v : V) (m : Map V) → save k v m k ≡ some v
  save_self k v m = ground (arith, str_eq_iff k k)

  pub save_ne : (k j : Addr) (v : V) (m : Map V) → k ≢ j → save k v m j ≡ m j
  save_ne k j v m h = ground (arith, str_eq_iff k j)

  pub remove_self : (k : Addr) (m : Map V) → remove k m k ≡ none
  remove_self k m = ground (arith, str_eq_iff k k)

  pub remove_ne : (k j : Addr) (m : Map V) → k ≢ j → remove k m j ≡ m j
  remove_ne k j m h = ground (arith, str_eq_iff k j)
