-- ===== src/Gov/Entry/Progress.antt =====
-- The life of a poll as an abstract machine, and what a handler must do to follow it.
use prism_contracts.Prelude.{
  ℕ, ◌≡◌, ◌≢◌, ◌⊎◌, refl, ap, sym, subst, ◌∙◌, Option, none, some, arith, inl, inr, ◌==◌,
  if◌then◌else◌, Bool-cases,
}
use prism_contracts.Storage.Ordered
use prism_contracts.Storage.Ordered.{OrderedMap, load-save}
use prism_contracts.Gov.{PollStatus, in_progress, passed, rejected, executed, failed, Poll, Store}
use prism_contracts.Gov.Creation.Fresh.{IsFresh}

-- The machine: `none` is a poll that does not exist yet.
pub data Step : Option PollStatus → Option PollStatus → Type 0 where
  stay : {st : Option PollStatus} → Step st st
  create : Step none (some in_progress)
  pass : Step (some in_progress) (some passed)
  reject : Step (some in_progress) (some rejected)
  run : Step (some passed) (some executed)
  fail : Step (some executed) (some failed)

abbrev pub status_in : OrderedMap Poll → ℕ → Option PollStatus
status_in m i = elim (Ordered.load i m) [ none ↦ none | some poll ↦ some poll.status ]

abbrev pub status_of : Store → ℕ → Option PollStatus
status_of s = status_in s.polls

abbrev pub HasRun : Option PollStatus → Type 0
HasRun o = (o ≡ some executed) ⊎ (o ≡ some failed)

-- No poll is stored from the next id on, each is stored under its id, and the one whose failure
-- would be reported has been run.
pub record IsTracked (s : Store) : Type 0 where
  pub fresh : IsFresh s
  pub ids : (i : ℕ) (poll : Poll) → Ordered.load i s.polls ≡ some poll → poll.id ≡ i
  pub reported : (i : ℕ) → s.tmp_poll_id ≡ some i → HasRun (status_of s i)

pub Step-on : {a b c d : Option PollStatus} → a ≡ c → b ≡ d → Step c d → Step a b
Step-on {b = b} {c = c} p q h = subst (λ x. Step x b) (sym p) (subst (Step c) (sym q) h)

pub HasRun-Step : {a b : Option PollStatus} → Step a b → HasRun a → HasRun b
HasRun-Step stay h = h
HasRun-Step create h = absurd (ground arith)
HasRun-Step pass h = absurd (ground arith)
HasRun-Step reject h = absurd (ground arith)
HasRun-Step run h = absurd (ground arith)
HasRun-Step fail h = inr refl

-- What holds of the store after a call.
abbrev pub Follows : Store → Store → Type 0
Follows s t = IsTracked t × ((i : ℕ) → Step (status_of s i) (status_of t i))

pub same-Follows :
    (s t : Store)
    → t.polls ≡ s.polls
    → t.last_poll_id ≡ s.last_poll_id
    → t.tmp_poll_id ≡ s.tmp_poll_id
    → IsTracked s
    → Follows s t
same-Follows s t polls last tmp h =
    let loads = λ (i : ℕ). ap (Ordered.load i) polls in
    let statuses = λ (i : ℕ). ap (λ (m : OrderedMap Poll). status_in m i) polls in
    let (n, next, free) = h.fresh in
    (
      record {
        fresh = (n, last ∙ next, λ i le. loads i ∙ free i le);
        ids = λ i poll e. h.ids i poll (sym (loads i) ∙ e);
        reported = λ i e. subst HasRun (sym (statuses i)) (h.reported i (sym tmp ∙ e));
      },
      λ i. Step-on refl (statuses i) stay,
    )

status_saved :
    (m : OrderedMap Poll) (id i : ℕ) (poll : Poll)
    → status_in (Ordered.save id poll m) i ≡ (if i == id then some poll.status else status_in m i)
status_saved m id i poll = ground (arith, load-save id i poll m)

-- A handler that saves a stored poll with a status that may come next.
pub save-Follows :
    (s t : Store) (id : ℕ) (old new : Poll)
    → Ordered.load id s.polls ≡ some old
    → Step (some old.status) (some new.status)
    → new.id ≡ old.id
    → t.polls ≡ Ordered.save id new s.polls
    → t.last_poll_id ≡ s.last_poll_id
    → ((i : ℕ)
        → t.tmp_poll_id ≡ some i
        → (s.tmp_poll_id ≡ some i) ⊎ ((i ≡ id) × (new.status ≡ executed)))
    → IsTracked s
    → Follows s t
save-Follows s t id old new found step same polls last tmp h =
    let loads = λ (i : ℕ). ap (Ordered.load i) polls ∙ load-save id i new s.polls in
    let statuses = λ (i : ℕ).
      ap (λ (m : OrderedMap Poll). status_in m i) polls ∙ status_saved s.polls id i new in
    let steps : (i : ℕ) → Step (status_of s i) (status_of t i) = λ i. elim (Bool-cases (i == id)) [
      | inl eq ↦ Step-on (ground (arith, found)) (statuses i ∙ ground arith) step
      | inr ne ↦ Step-on refl (statuses i ∙ ground arith) (stay {st = status_of s i})
    ] in
    let (n, next, free) = h.fresh in
    (
      record {
        fresh = (n, last ∙ next, λ i le. loads i ∙ ground (arith, free i le, free id));
        ids = λ i poll e. ground (arith, loads i, h.ids i poll, h.ids id old found);
        reported = λ i e. elim (tmp i e) [
          | inl before ↦ HasRun-Step (steps i) (h.reported i before)
          | inr (here, now) ↦ inl (statuses i ∙ ground arith)
        ];
      },
      steps,
    )

-- A poll in progress is added under the next id.
pub create-Follows :
    (s t : Store) (id : ℕ) (new : Poll)
    → Ordered.load id s.polls ≡ none
    → Ordered.load id t.polls ≡ some new
    → new.status ≡ in_progress
    → new.id ≡ id
    → ((j : ℕ) → j ≢ id → Ordered.load j t.polls ≡ Ordered.load j s.polls)
    → t.tmp_poll_id ≡ s.tmp_poll_id
    → IsFresh t
    → IsTracked s
    → Follows s t
create-Follows s t id new before after going own others tmp fresh h =
    let steps : (i : ℕ) → Step (status_of s i) (status_of t i) = λ i. elim (Bool-cases (i == id)) [
      | inl eq ↦ Step-on (ground arith) (ground arith) create
      | inr ne ↦ Step-on refl (ground (arith, others i)) (stay {st = status_of s i})
    ] in
    (
      record {
        fresh = fresh;
        ids = λ i poll e. elim (Bool-cases (i == id)) [
          | inl eq ↦ ground arith
          | inr ne ↦ h.ids i poll (sym (others i (ground arith)) ∙ e)
        ];
        reported = λ i e. HasRun-Step (steps i) (h.reported i (sym tmp ∙ e));
      },
      steps,
    )
