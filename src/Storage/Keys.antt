-- ===== src/Storage/Keys.antt =====
-- The keys of a storage map keyed by an address whose values do not matter: in ascending order and
-- each once, as `range` lists them.
use Prim.Native.String.{compare}
use Prim.Native.Nat.{Ordering}
use prism_contracts.Prelude.Lists.{length}
use prism_contracts.Prelude.{
  ◌+◌, ◌≤◌, ◌≡◌, refl, Bool, true, false, List, [], ◌∷◌, String, arith, str_eq, str_eq_iff,
  if◌then◌else◌,
}

-- Whether the first comes before the second.
abbrev pub before : String → String → Bool
before a b = elim (compare a b) [ Ordering.lt ↦ true | Ordering.eq ↦ false | Ordering.gt ↦ false ]

unfoldable pub has_key : String → List String → Bool
has_key k [] = false
has_key k (j ∷ ks) = if str_eq k j then true else has_key k ks

unfoldable pub add_key : String → List String → List String
add_key k [] = k ∷ []
add_key k (j ∷ ks) =
    if str_eq k j then k ∷ ks else if before k j then k ∷ j ∷ ks else j ∷ add_key k ks

unfoldable pub remove_key : String → List String → List String
remove_key k [] = []
remove_key k (j ∷ ks) = if str_eq k j then ks else j ∷ remove_key k ks

pub has_key-add_key :
    (j k : String) (ks : List String)
    → has_key j (add_key k ks) ≡ (if str_eq j k then true else has_key j ks)
unfolding has_key add_key
has_key-add_key j k [] = refl
has_key-add_key j k (i ∷ ks) =
    ground (arith, has_key-add_key j k ks, str_eq_iff k i, str_eq_iff j k, str_eq_iff j i)

pub length-add_key : (k : String) (ks : List String) → length (add_key k ks) ≤ length ks + 1
unfolding add_key
length-add_key k [] = omega arith
length-add_key k (j ∷ ks) = ground (arith, length-add_key k ks)

pub length-remove_key : (k : String) (ks : List String) → length (remove_key k ks) ≤ length ks
unfolding remove_key
length-remove_key k [] = omega arith
length-remove_key k (j ∷ ks) = ground (arith, length-remove_key k ks)
