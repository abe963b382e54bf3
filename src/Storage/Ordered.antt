-- ===== src/Storage/Ordered.antt =====
-- A storage map keyed by a `u64`, in ascending order of the keys, as `range` lists it.
use prism_contracts.Prelude.{
  ℕ, ◌+◌, ◌≤◌, ◌<◌, ◌≡◌, refl, Option, none, some, List, [], ◌∷◌, arith, ltb, ◌==◌, if◌then◌else◌,
}

abbrev pub OrderedMap : Type 0 → Type 0
OrderedMap V = List (ℕ × V)

module _ {V : Type 0} where
  abbrev pub load : ℕ → OrderedMap V → Option V
  load k [] = none
  load k ((j, v) ∷ m) = if k == j then some v else load k m

  abbrev pub save : ℕ → V → OrderedMap V → OrderedMap V
  save k v [] = (k, v) ∷ []
  save k v ((j, w) ∷ m) =
      if k == j then (k, v) ∷ m else if ltb k j then (k, v) ∷ (j, w) ∷ m else (j, w) ∷ save k v m

  abbrev pub remove : ℕ → OrderedMap V → OrderedMap V
  remove k [] = []
  remove k ((j, w) ∷ m) = if k == j then m else (j, w) ∷ remove k m

  -- Keys at or above `n`, each above the one before.
  abbrev pub IsOrdered : ℕ → OrderedMap V → Type 0
  IsOrdered n [] = Unit {0}
  IsOrdered n ((j, w) ∷ m) = (n ≤ j) × IsOrdered (j + 1) m

  pub load-save :
      (k j : ℕ) (v : V) (m : OrderedMap V)
      → load j (save k v m) ≡ (if j == k then some v else load j m)
  load-save k j v [] = refl
  load-save k j v ((i, w) ∷ m) = ground (arith, load-save k j v m)

  pub load_below : (k n : ℕ) (m : OrderedMap V) → IsOrdered n m → k < n → load k m ≡ none
  load_below k n [] h lt = refl
  load_below k n ((i, w) ∷ m) h lt = ground (arith, load_below k (i + 1) m h.1)

  pub load-remove :
      (k j n : ℕ) (m : OrderedMap V)
      → IsOrdered n m
      → load j (remove k m) ≡ (if j == k then none else load j m)
  load-remove k j n [] h = ground arith
  load-remove k j n ((i, w) ∷ m) h =
      ground (arith, load-remove k j (i + 1) m h.1, load_below j (i + 1) m h.1)

  pub save-IsOrdered :
      (k n : ℕ) (v : V) (m : OrderedMap V) → IsOrdered n m → n ≤ k → IsOrdered n (save k v m)
  save-IsOrdered k n v [] h le = (le, tt)
  save-IsOrdered k n v ((i, w) ∷ m) h le = ground (arith, save-IsOrdered k (i + 1) v m h.1)

  pub IsOrdered-mono : (a b : ℕ) (m : OrderedMap V) → a ≤ b → IsOrdered b m → IsOrdered a m
  IsOrdered-mono a b [] le h = tt
  IsOrdered-mono a b ((i, w) ∷ m) le h = (omega arith, h.1)

  pub remove-IsOrdered : (k n : ℕ) (m : OrderedMap V) → IsOrdered n m → IsOrdered n (remove k m)
  remove-IsOrdered k n [] h = tt
  remove-IsOrdered k n ((i, w) ∷ m) h =
      ground (arith, remove-IsOrdered k (i + 1) m h.1, IsOrdered-mono n (i + 1) m)
