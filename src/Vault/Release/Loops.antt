-- ===== src/Vault/Release/Loops.antt =====
-- What the two loops of `process_withdraw_rate` do, and that their fuel suffices.
use prism_contracts.Prelude.{
  ℕ, zero, suc, ◌+◌, ◌*◌, ◌/◌, ◌≤◌, ◌<◌, ◌≡◌, ◌∙◌, refl, none, some, List, [], ◌∷◌, arith, leb,
  if◌then◌else◌, ok, Option-cases, Result-cases, inl, inr, u64_size,
}
use prism_contracts.Prelude.Lists.{length}
use prism_contracts.Cosmwasm.{reference, u128_size, decimal_one}
use prism_contracts.Storage.Ordered
use prism_contracts.Storage.Ordered.{OrderedMap, load-save}
use prism_contracts.SignedInt.{SignedInt}
use prism_contracts.Vault.State.{UnbondHistory}
use prism_contracts.Vault.Release.{releasable, sum_loop, release_batch, release_loop}

-- The batches from `i` on that a loop visits before it breaks.
abbrev pub Pending : OrderedMap UnbondHistory → ℕ → ℕ → List UnbondHistory → Type 0
Pending hist t i [] = releasable hist t i ≡ none
Pending hist t i (h ∷ hs) = (releasable hist t i ≡ some h) × Pending hist t (i + 1) hs

-- What a batch should bring, and all of them.
abbrev pub expected : UnbondHistory → ℕ
expected h = h.amount * h.withdraw_rate / decimal_one

abbrev pub total_expected : List UnbondHistory → ℕ
total_expected [] = 0
total_expected (h ∷ hs) = expected h + total_expected hs

-- How many entries stand at `i` or above.
abbrev size_from {ℓ} : {V : Type ℓ} → ℕ → List (ℕ × V) → ℕ
size_from i [] = 0
size_from i ((k, v) ∷ m) = (if leb i k then 1 else 0) + size_from i m

size_from-le {ℓ} : {V : Type ℓ} (i : ℕ) (m : List (ℕ × V)) → size_from i m ≤ length m
size_from-le i [] = omega arith
size_from-le i ((k, v) ∷ m) = ground (arith, size_from-le i m)

size_from-step {ℓ} : {V : Type ℓ} (i : ℕ) (m : List (ℕ × V)) → size_from (i + 1) m ≤ size_from i m
size_from-step i [] = omega arith
size_from-step i ((k, v) ∷ m) = ground (arith, size_from-step i m)

size_from-load :
    (i : ℕ) (m : OrderedMap UnbondHistory) (h : UnbondHistory)
    → Ordered.load i m ≡ some h
    → size_from (i + 1) m < size_from i m
size_from-load i [] h e = cc
size_from-load i ((k, v) ∷ m) h e = ground (arith, size_from-load i m h, size_from-step i m)

releasable-load :
    (hist : OrderedMap UnbondHistory) (t i : ℕ) (h : UnbondHistory)
    → releasable hist t i ≡ some h
    → Ordered.load i hist ≡ some h
unfolding releasable
releasable-load hist t i h e = ground arith

Pending-within :
    (hist : OrderedMap UnbondHistory) (t n i : ℕ)
    → size_from i hist ≤ n
    → (hs : List UnbondHistory) × Pending hist t i hs × (length hs ≤ n)
Pending-within hist t zero i le = elim (Option-cases (releasable hist t i)) [
  | inl e ↦ ([], e, omega arith)
  | inr (h, e) ↦ absurd (omega (arith, size_from-load i hist h (releasable-load hist t i h e)))
]
Pending-within hist t (suc n) i le = elim (Option-cases (releasable hist t i)) [
  | inl e ↦ ([], e, omega arith)
  | inr (h, e) ↦
      let (hs, p, short) =
        Pending-within hist t n (i + 1)
          (omega (arith, size_from-load i hist h (releasable-load hist t i h e))) in
      (h ∷ hs, (e, p), omega arith)
]

-- A loop comes to its end after no more rounds than there are batches.
pub Pending-run :
    (hist : OrderedMap UnbondHistory) (t i : ℕ)
    → (hs : List UnbondHistory) × Pending hist t i hs × (length hs ≤ length hist)
Pending-run hist t i = Pending-within hist t (length hist) i (size_from-le i hist)

-- The run is determined.
pub Pending-unique :
    (hist : OrderedMap UnbondHistory) (t i : ℕ) (xs ys : List UnbondHistory)
    → Pending hist t i xs
    → Pending hist t i ys
    → xs ≡ ys
Pending-unique hist t i [] [] p q = refl
Pending-unique hist t i [] (y ∷ ys) p q = cc
Pending-unique hist t i (x ∷ xs) [] p q = cc
Pending-unique hist t i (x ∷ xs) (y ∷ ys) p q = cc (Pending-unique hist t (i + 1) xs ys p.1 q.1)

-- It is no longer than the history.
pub Pending-length :
    (hist : OrderedMap UnbondHistory) (t i : ℕ) (hs : List UnbondHistory)
    → Pending hist t i hs
    → length hs ≤ length hist
Pending-length hist t i hs p =
    let (xs, q, short) = Pending-run hist t i in rw (Pending-unique hist t i hs xs p q) short

-- A write below the run does not change it.
pub Pending-save :
    (hist : OrderedMap UnbondHistory) (t i k : ℕ) (v : UnbondHistory) (hs : List UnbondHistory)
    → k < i
    → Pending hist t i hs
    → Pending (Ordered.save k v hist) t i hs
unfolding releasable
Pending-save hist t i k v [] lt p = ground (arith, load-save k i v hist)
Pending-save hist t i k v (h ∷ hs) lt p =
    (ground (arith, load-save k i v hist), Pending-save hist t (i + 1) k v hs (omega arith) p.1)

pub sum_exact :
    (hist : OrderedMap UnbondHistory) (t fuel i total count : ℕ) (hs : List UnbondHistory)
    → Pending hist t i hs
    → length hs < fuel
    → i + length hs < u64_size
    → count + length hs < u64_size
    → total + total_expected hs < u128_size
    → sum_loop reference hist t fuel i total count
      ≡ ok (total + total_expected hs, count + length hs)
unfolding sum_loop
sum_exact hist t zero i total count hs p f a b c = elim f [ ]
sum_exact hist t (suc fuel) i total count [] p f a b c = rw (p, sum_loop) (ground arith)
sum_exact hist t (suc fuel) i total count (h ∷ hs) p f a b c =
    let ih =
      sum_exact hist t fuel (i + 1) (total + expected h) (count + 1) hs p.1 (omega arith)
        (omega arith) (omega arith) (omega arith) in
    ground (arith, ih)

-- Whenever the first loop succeeds it has this sum.
pub sum_value :
    (hist : OrderedMap UnbondHistory) (t fuel i total count : ℕ) (hs : List UnbondHistory)
    (r : ℕ × ℕ)
    → Pending hist t i hs
    → sum_loop reference hist t fuel i total count ≡ ok r
    → r ≡ (total + total_expected hs, count + length hs)
unfolding sum_loop
sum_value hist t zero i total count hs r p e = cc
sum_value hist t (suc fuel) i total count [] r p e = ground arith
sum_value hist t (suc fuel) i total count (h ∷ hs) r p e =
    ground (arith, sum_value hist t fuel (i + 1) (total + expected h) (count + 1) hs r p.1)

-- Two lists that go together batch by batch.
abbrev pub Releases : SignedInt → ℕ → List UnbondHistory → List UnbondHistory → Type 0
Releases slashed total [] [] = Unit {0}
Releases slashed total [] (h' ∷ hs') = ⊥
Releases slashed total (h ∷ hs) [] = ⊥
Releases slashed total (h ∷ hs) (h' ∷ hs') =
    (release_batch reference slashed total h ≡ ok h') × Releases slashed total hs hs'

-- The history after the batches from `i` on are stored.
unfoldable pub write : ℕ → List UnbondHistory → OrderedMap UnbondHistory → OrderedMap UnbondHistory
write i [] m = m
write i (h ∷ hs) m = write (i + 1) hs (Ordered.save i h m)

-- The last batch stored, or the one before.
abbrev pub last_written : ℕ → List UnbondHistory → ℕ → ℕ
last_written i [] last = last
last_written i (h ∷ hs) last = last_written (i + 1) hs i

pub last_written-eq :
    (i last : ℕ) (hs : List UnbondHistory)
    → i ≡ last + 1
    → last_written i hs last ≡ last + length hs
last_written-eq i last [] e = omega arith
last_written-eq i last (h ∷ hs) e = omega (arith, last_written-eq (i + 1) i hs refl)

pub load-write_below :
    (i j : ℕ) (hs : List UnbondHistory) (m : OrderedMap UnbondHistory)
    → j < i
    → Ordered.load j (write i hs m) ≡ Ordered.load j m
unfolding write
load-write_below i j [] m lt = refl
load-write_below i j (h ∷ hs) m lt =
    load-write_below (i + 1) j hs (Ordered.save i h m) (omega arith)
    ∙ ground (arith, load-save i j h m)

pub load-write_above :
    (i j : ℕ) (hs : List UnbondHistory) (m : OrderedMap UnbondHistory)
    → i + length hs ≤ j
    → Ordered.load j (write i hs m) ≡ Ordered.load j m
unfolding write
load-write_above i j [] m le = refl
load-write_above i j (h ∷ hs) m le =
    load-write_above (i + 1) j hs (Ordered.save i h m) (omega arith)
    ∙ ground (arith, load-save i j h m)

pub load-write_head :
    (i : ℕ) (h : UnbondHistory) (hs : List UnbondHistory) (m : OrderedMap UnbondHistory)
    → Ordered.load i (write i (h ∷ hs) m) ≡ some h
unfolding write
load-write_head i h hs m =
    load-write_below (i + 1) i hs (Ordered.save i h m) (omega arith)
    ∙ ground (arith, load-save i i h m)

-- Whenever the second loop succeeds, it has stored a released version of each batch of the run.
pub release_value :
    (slashed : SignedInt) (total t fuel : ℕ) (hist : OrderedMap UnbondHistory) (i last : ℕ)
    (hs : List UnbondHistory) (r : OrderedMap UnbondHistory × ℕ)
    → Pending hist t i hs
    → release_loop reference slashed total t fuel hist i last ≡ ok r
    → (hs' : List UnbondHistory) × Releases slashed total hs hs'
      × (r ≡ (write i hs' hist, last_written i hs' last))
unfolding release_loop write
release_value slashed total t zero hist i last hs r p e = absurd (cc)
release_value slashed total t (suc fuel) hist i last [] r p e = ([], tt, ground arith)
release_value slashed total t (suc fuel) hist i last (h ∷ hs) r p e =
    elim (Result-cases (release_batch reference slashed total h)) [
      | inr bad ↦ absurd (ground arith)
      | inl (h', done) ↦
          let (hs', rel, eq) =
            release_value slashed total t fuel (Ordered.save i h' hist) (i + 1) i hs r
              (Pending-save hist t (i + 1) i h' hs (omega arith) p.1) (ground arith) in
          (h' ∷ hs', (done, rel), eq)
    ]
