-- ===== src/Vault/Release/Correct.antt =====
-- The release of batches: which change and how, and when the released ones are paid for.
use native.Mathlib.Nat.{add-zero}
use native.Mathlib.Decide.{dec_lt, dec_le}
use prism_contracts.Prelude.{
  ℕ, suc, ◌+◌, ◌-◌, ◌*◌, ◌≤◌, ◌<◌, ◌≡◌, ◌∙◌, ap, ◌⊎◌, inl, inr, Option-cases, true, false, some,
  none, List, [], ◌∷◌, arith, ok,
}
use prism_contracts.Prelude.Lists.{length}
use prism_contracts.Cosmwasm.{Std, IsStd, reference, determined, decimal_one}
use prism_contracts.Storage.Ordered
use prism_contracts.Storage.Ordered.{OrderedMap}
use prism_contracts.SignedInt.{SignedInt, signed_difference}
use prism_contracts.Vault.State.{State, Store, UnbondHistory}
use prism_contracts.Vault.State.Frame.{SameAdmin}
use prism_contracts.Vault.Release.{releasable, release_batch, process_withdraw_rate}
use prism_contracts.Vault.Release.Loops.{
  Pending, Pending-unique, total_expected, Releases, write, load-write_below, load-write_above,
  load-write_head,
}
use prism_contracts.Vault.Release.Rates.{payouts, Covers, payouts-le}
use prism_contracts.Vault.Release.Shape.{received, process-Release, length-Releases}

releasable-ok :
    (hist : OrderedMap UnbondHistory) (t i : ℕ) (h : UnbondHistory)
    → releasable hist t i ≡ some h
    → (Ordered.load i hist ≡ some h) × (h.released ≡ false) × (h.time ≤ t)
unfolding releasable
releasable-ok hist t i h e = ground arith

release_batch-ok :
    (slashed : SignedInt) (total : ℕ) (h h' : UnbondHistory)
    → release_batch reference slashed total h ≡ ok h'
    → (h' ≡ record h { withdraw_rate = h'.withdraw_rate; released = true })
unfolding release_batch
release_batch-ok slashed total h h' e = ground arith

-- What a release does to batch `j`, where the batches after `last` up to `upto` were due at `time`:
-- it leaves it alone, or it was due and is now released, with a new rate and nothing else changed.
abbrev pub Outcome : OrderedMap UnbondHistory → OrderedMap UnbondHistory → ℕ → ℕ → ℕ → ℕ → Type 0
Outcome hist hist' time last upto j =
    ((Ordered.load j hist' ≡ Ordered.load j hist) × ((j ≤ last) ⊎ (upto < j)))
    ⊎ ((h : UnbondHistory) × (rate : ℕ) × (last < j)
        × (j ≤ upto)
        × (Ordered.load j hist ≡ some h)
        × (h.released ≡ false)
        × (h.time ≤ time)
        × (Ordered.load j hist' ≡ some (record h { withdraw_rate = rate; released = true })))

load-write_run :
    (slashed : SignedInt) (total t i j : ℕ) (hist m : OrderedMap UnbondHistory)
    (hs hs' : List UnbondHistory)
    → Pending hist t i hs
    → Releases slashed total hs hs'
    → i ≤ j
    → j < i + length hs
    → (h : UnbondHistory) × (rate : ℕ) × (Ordered.load j hist ≡ some h)
      × (h.released ≡ false)
      × (h.time ≤ t)
      × (Ordered.load j (write i hs' m) ≡ some (record h { withdraw_rate = rate; released = true }))
unfolding write
load-write_run slashed total t i j hist m [] [] p r lo hi = absurd (omega arith)
load-write_run slashed total t i j hist m [] (h' ∷ hs') p r lo hi = absurd r
load-write_run slashed total t i j hist m (h ∷ hs) [] p r lo hi = absurd r
load-write_run slashed total t i j hist m (h ∷ hs) (h' ∷ hs') p r lo hi = elim (dec_lt i j) [
  | yes lt ↦
      load-write_run slashed total t (i + 1) j hist (Ordered.save i h' m) hs hs' p.1 r.1
        (omega arith) (omega arith)
  | no ge ↦
      let e : j ≡ i = omega arith in
      let (found, fresh, old) = releasable-ok hist t i h p.0 in
      rw e (
        h,
        h'.withdraw_rate,
        found,
        fresh,
        old,
        load-write_head i h' hs' m ∙ ap some (release_batch-ok slashed total h h' r.0),
      )
]

Pending-end :
    (hist : OrderedMap UnbondHistory) (t i : ℕ) (hs : List UnbondHistory)
    → Pending hist t i hs
    → releasable hist t (i + length hs) ≡ none
Pending-end hist t i [] p = rw add-zero p
Pending-end hist t i (h ∷ hs) p =
    let e : i + suc (length hs) ≡ i + 1 + length hs = omega arith in
    rw e (Pending-end hist t (i + 1) hs p.1)

write-Outcome :
    (slashed : SignedInt) (total t last j : ℕ) (hist : OrderedMap UnbondHistory)
    (hs hs' : List UnbondHistory)
    → Pending hist t (last + 1) hs
    → Releases slashed total hs hs'
    → Outcome hist (write (last + 1) hs' hist) t last (last + length hs) j
write-Outcome slashed total t last j hist hs hs' p r = elim (dec_le j last) [
  | yes low ↦ inl (load-write_below (last + 1) j hs' hist (omega arith), inl low)
  | no above ↦ elim (dec_le j (last + length hs)) [
    | no high ↦ inl (
      load-write_above (last + 1) j hs' hist
          (omega (arith, length-Releases slashed total hs hs' r)),
      inr (omega arith),
    )
    | yes inside ↦
        let (h, rate, found, fresh, old, stored) =
          load-write_run slashed total t (last + 1) j hist hist hs hs' p r (omega arith)
            (omega arith) in
        inr (h, rate, omega arith, inside, found, fresh, old, stored)
  ]
]

module _ (ops : Std) (law : IsStd ops) where
  -- A release that succeeds releases exactly the batches that follow the last processed one up to
  -- the first that is missing, too young or released; it gives each a new rate and leaves every
  -- other batch, and what else the vault stores, alone.
  pub process-Outcome :
      (s t : Store) (st : State) (time balance : ℕ)
      → s.state ≡ some st
      → process_withdraw_rate ops s time balance ≡ ok t
      → (n : ℕ) × (releasable s.unbond_history time (st.last_processed_batch + 1 + n) ≡ none)
        × ((j : ℕ)
            → Outcome s.unbond_history t.unbond_history time st.last_processed_batch
                (st.last_processed_batch + n)
                j)
        × (t ≡ record s {
          unbond_history = t.unbond_history;
          state = some (record st {
            last_processed_batch = st.last_processed_batch + n;
            actual_unbonded_amount = 0;
          });
        })
  process-Outcome s t st time balance = rw (determined law) λ e r.
      let rel = process-Release s t st time balance e r in
      let last = st.last_processed_batch in
      (
        length rel.before,
        Pending-end s.unbond_history time (last + 1) rel.before rel.pending,
        λ j. rw (ap (λ (x : Store). x.unbond_history) rel.stored) (
            write-Outcome (signed_difference (total_expected rel.before) (received st balance))
              (total_expected rel.before) time last j s.unbond_history rel.before rel.after
              rel.pending rel.released),
        ground (arith, rel.stored),
      )

  -- A release that succeeds promises no more than was received for the batches: if more was
  -- received than they should bring, or as much, or if every batch can bear its share of the loss
  -- and the loss times the number of batches is at most 10^18.
  pub process-solvent :
      (s t : Store) (st : State) (time balance : ℕ) (hs : List UnbondHistory)
      → s.state ≡ some st
      → Pending s.unbond_history time (st.last_processed_batch + 1) hs
      → 0 < length hs
      → 0 < total_expected hs
      → (let loss = total_expected hs - received st balance in
          0 < loss → Covers loss (total_expected hs) hs × (loss * length hs ≤ decimal_one))
      → process_withdraw_rate ops s time balance ≡ ok t
      → (hs' : List UnbondHistory) × (length hs' ≡ length hs)
        × (t.unbond_history ≡ write (st.last_processed_batch + 1) hs' s.unbond_history)
        × (payouts hs' ≤ received st balance)
  process-solvent s t st time balance hs e p n pos bear = rw (determined law) λ r.
      let rel = process-Release s t st time balance e r in
      let same : rel.before ≡ hs =
        Pending-unique s.unbond_history time (st.last_processed_batch + 1) rel.before hs rel.pending
          p in
      let released : Releases (signed_difference (total_expected hs) (received st balance))
          (total_expected hs) hs rel.after =
        rw same at rel.released in
      (
        rel.after,
        length-Releases (signed_difference (total_expected hs) (received st balance))
            (total_expected hs) hs rel.after released,
        ap (λ (x : Store). x.unbond_history) rel.stored,
        payouts-le (received st balance) hs rel.after pos n bear released,
      )

-- A release leaves the rest of the store alone.
process-store :
    (ops : Std) (law : IsStd ops) (s t : Store) (time balance : ℕ)
    → process_withdraw_rate ops s time balance ≡ ok t
    → t ≡ record s { unbond_history = t.unbond_history; state = t.state }
unfolding process_withdraw_rate
process-store ops law s t time balance e = elim (Option-cases s.state) [
  | inl bad ↦ absurd (ground arith)
  | inr (st, found) ↦
      let (n, stop, outcome, eq) = process-Outcome ops law s t st time balance found e in
      ground (arith, eq)
]

pub waitlist-process :
    (ops : Std) (law : IsStd ops) (s t : Store) (time balance : ℕ)
    → process_withdraw_rate ops s time balance ≡ ok t
    → t.unbond_waitlist ≡ s.unbond_waitlist
waitlist-process ops law s t time balance e =
    ap (λ (x : Store). x.unbond_waitlist) (process-store ops law s t time balance e)

pub process-SameAdmin :
    (ops : Std) (law : IsStd ops) (s t : Store) (time balance : ℕ)
    → process_withdraw_rate ops s time balance ≡ ok t
    → SameAdmin s t
process-SameAdmin ops law s t time balance e =
    let same = process-store ops law s t time balance e in
    (
      ap (λ (x : Store). x.config) same,
      ap (λ (x : Store). x.parameters) same,
      ap (λ (x : Store). x.validators) same,
    )
