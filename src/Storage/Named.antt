-- ===== src/Storage/Named.antt =====
-- A storage map keyed by an address whose entries are listed by `range`: in ascending order of the
-- addresses, each once.
use prism_contracts.Prelude.{
  ◌≡◌, refl, Option, none, some, List, [], ◌∷◌, arith, str_eq, str_eq_iff, Option-cases, inl, inr,
  if◌then◌else◌,
}
use prism_contracts.Storage.{Addr}
use prism_contracts.Storage.Keys.{before}

abbrev pub NamedMap : Type 0 → Type 0
NamedMap V = List (Addr × V)

module _ {V : Type 0} where
  abbrev pub load : Addr → NamedMap V → Option V
  load k [] = none
  load k ((j, v) ∷ m) = if str_eq k j then some v else load k m

  abbrev replace : Addr → V → NamedMap V → NamedMap V
  replace k v [] = []
  replace k v ((j, w) ∷ m) = if str_eq k j then (k, v) ∷ m else (j, w) ∷ replace k v m

  abbrev insert : Addr → V → NamedMap V → NamedMap V
  insert k v [] = (k, v) ∷ []
  insert k v ((j, w) ∷ m) = if before k j then (k, v) ∷ (j, w) ∷ m else (j, w) ∷ insert k v m

  abbrev pub save : Addr → V → NamedMap V → NamedMap V
  save k v m = elim (load k m) [ none ↦ insert k v m | some _ ↦ replace k v m ]

  abbrev pub remove : Addr → NamedMap V → NamedMap V
  remove k [] = []
  remove k ((j, w) ∷ m) = if str_eq k j then remove k m else (j, w) ∷ remove k m

  -- Each key once.
  abbrev pub IsKeyed : NamedMap V → Type 0
  IsKeyed [] = Unit {0}
  IsKeyed ((k, v) ∷ m) = (load k m ≡ none) × IsKeyed m

  load-replace :
      (k j : Addr) (v w : V) (m : NamedMap V)
      → load k m ≡ some w
      → load j (replace k v m) ≡ (if str_eq j k then some v else load j m)
  load-replace k j v w [] e = ground arith
  load-replace k j v w ((i, x) ∷ m) e =
      ground (arith, load-replace k j v w m, str_eq_iff k i, str_eq_iff j k, str_eq_iff j i)

  load-insert :
      (k j : Addr) (v : V) (m : NamedMap V)
      → load k m ≡ none
      → load j (insert k v m) ≡ (if str_eq j k then some v else load j m)
  load-insert k j v [] e = refl
  load-insert k j v ((i, x) ∷ m) e =
      ground (arith, load-insert k j v m, str_eq_iff k i, str_eq_iff j k, str_eq_iff j i)

  pub load-save :
      (k j : Addr) (v : V) (m : NamedMap V)
      → load j (save k v m) ≡ (if str_eq j k then some v else load j m)
  load-save k j v m = elim (Option-cases (load k m)) [
    | inl none_yet ↦ ground (arith, load-insert k j v m)
    | inr (w, found) ↦ ground (arith, load-replace k j v w m)
  ]

  pub load-remove :
      (k j : Addr) (m : NamedMap V) → load j (remove k m) ≡ (if str_eq j k then none else load j m)
  load-remove k j [] = ground arith
  load-remove k j ((i, x) ∷ m) =
      ground (arith, load-remove k j m, str_eq_iff k i, str_eq_iff j k, str_eq_iff j i)

  replace-IsKeyed :
      (k : Addr) (v w : V) (m : NamedMap V)
      → load k m ≡ some w
      → IsKeyed m
      → IsKeyed (replace k v m)
  replace-IsKeyed k v w [] e h = tt
  replace-IsKeyed k v w ((i, x) ∷ m) e h =
      ground
        (arith, replace-IsKeyed k v w m, load-replace k i v w m, str_eq_iff k i, str_eq_iff i k)

  insert-IsKeyed :
      (k : Addr) (v : V) (m : NamedMap V) → load k m ≡ none → IsKeyed m → IsKeyed (insert k v m)
  insert-IsKeyed k v [] e h = (refl, tt)
  insert-IsKeyed k v ((i, x) ∷ m) e h =
      ground (arith, insert-IsKeyed k v m, load-insert k i v m, str_eq_iff k i, str_eq_iff i k)

  pub save-IsKeyed : (k : Addr) (v : V) (m : NamedMap V) → IsKeyed m → IsKeyed (save k v m)
  save-IsKeyed k v m h = elim (Option-cases (load k m)) [
    | inl none_yet ↦ ground (arith, insert-IsKeyed k v m)
    | inr (w, found) ↦ ground (arith, replace-IsKeyed k v w m)
  ]

  pub remove-IsKeyed : (k : Addr) (m : NamedMap V) → IsKeyed m → IsKeyed (remove k m)
  remove-IsKeyed k [] h = tt
  remove-IsKeyed k ((i, x) ∷ m) h = ground (arith, remove-IsKeyed k m, load-remove k i m)
