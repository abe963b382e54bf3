-- ===== src/Vault/State/Requests.antt =====
-- The wait list of a user: what is removed from it, and that what is left pays nothing.
use prism_contracts.Prelude.{
  ℕ, ◌+◌, ◌≤◌, ◌≡◌, refl, ◌∙◌, subst, sym, Bool, true, false, none, some, List, [], ◌∷◌, arith, ok,
  err, if◌then◌else◌, inl, inr, Bool-cases, str_eq, str_eq_iff, str_eq_refl,
}
use prism_contracts.Prelude.Lists.{length, take_all}
use prism_contracts.Cosmwasm.{Std}
use prism_contracts.Storage.{Addr}
use prism_contracts.Storage.Ordered
use prism_contracts.Storage.Ordered.{OrderedMap, IsOrdered}
use prism_contracts.Messages.{generic_err}
use prism_contracts.Vault.State.{
  UnbondHistory, Store, Config, assert_initialized, released_batches, remove_unbond_wait_list,
  get_unbond_batches, get_finished_amount, remove_all, finished_sum, add_finished,
}

-- Whether the batch is released.
abbrev pub is_released : OrderedMap UnbondHistory → ℕ → Bool
is_released hist id = elim (Ordered.load id hist) [ none ↦ false | some h ↦ h.released ]

abbrev pub unreleased : OrderedMap UnbondHistory → OrderedMap ℕ → OrderedMap ℕ
unreleased hist [] = []
unreleased hist ((id, v) ∷ rest) =
    let later = unreleased hist rest in if is_released hist id then later else (id, v) ∷ later

abbrev AllAbove : ℕ → List ℕ → Type 0
AllAbove n [] = Unit {0}
AllAbove n (b ∷ bs) = (n ≤ b) × AllAbove n bs

AllAbove-mono : (n m : ℕ) (bs : List ℕ) → n ≤ m → AllAbove m bs → AllAbove n bs
AllAbove-mono n m [] le a = a
AllAbove-mono n m (b ∷ bs) le a = (omega arith, AllAbove-mono n m bs le a.1)

released_batches_yes :
    (hist : OrderedMap UnbondHistory) (id v : ℕ) (m : OrderedMap ℕ)
    → is_released hist id ≡ true
    → released_batches hist ((id, v) ∷ m) ≡ id ∷ released_batches hist m
unfolding released_batches
released_batches_yes hist id v m e = ground arith

released_batches_no :
    (hist : OrderedMap UnbondHistory) (id v : ℕ) (m : OrderedMap ℕ)
    → is_released hist id ≡ false
    → released_batches hist ((id, v) ∷ m) ≡ released_batches hist m
unfolding released_batches
released_batches_no hist id v m e = ground arith

released_batches-AllAbove :
    (n : ℕ) (hist : OrderedMap UnbondHistory) (m : OrderedMap ℕ)
    → IsOrdered n m
    → AllAbove n (released_batches hist m)
unfolding released_batches
released_batches-AllAbove n hist [] h = tt
released_batches-AllAbove n hist ((id, v) ∷ rest) h =
    let later =
      AllAbove-mono n (id + 1) (released_batches hist rest) (omega arith)
        (released_batches-AllAbove (id + 1) hist rest h.1) in
    elim (Bool-cases (is_released hist id)) [
      | inl e ↦ subst (AllAbove n) (sym (released_batches_yes hist id v rest e)) (h.0, later)
      | inr e ↦ subst (AllAbove n) (sym (released_batches_no hist id v rest e)) later
    ]

remove_all_skip :
    (id v : ℕ) (bs : List ℕ) (m : OrderedMap ℕ)
    → AllAbove (id + 1) bs
    → remove_all bs ((id, v) ∷ m) ≡ (id, v) ∷ remove_all bs m
unfolding remove_all
remove_all_skip id v [] m a = refl
remove_all_skip id v (b ∷ bs) m a = ground (arith, remove_all_skip id v bs (Ordered.remove b m) a.1)

-- Removing the released batches leaves the others.
pub remove_all-released_batches :
    (n : ℕ) (hist : OrderedMap UnbondHistory) (m : OrderedMap ℕ)
    → IsOrdered n m
    → remove_all (released_batches hist m) m ≡ unreleased hist m
unfolding remove_all released_batches
remove_all-released_batches n hist [] h = refl
remove_all-released_batches n hist ((id, v) ∷ rest) h = ground (
  arith,
  remove_all-released_batches (id + 1) hist rest h.1,
  remove_all_skip id v (released_batches hist rest) rest
      (released_batches-AllAbove (id + 1) hist rest h.1),
)

pub finished_sum-unreleased :
    (ops : Std) (hist : OrderedMap UnbondHistory) (m : OrderedMap ℕ) (acc : ℕ)
    → finished_sum ops (λ h. h.released) hist (unreleased hist m) acc ≡ ok acc
unfolding finished_sum add_finished
finished_sum-unreleased ops hist [] acc = refl
finished_sum-unreleased ops hist ((id, v) ∷ rest) acc =
    ground (arith, finished_sum-unreleased ops hist rest acc)

pub length-unreleased :
    (hist : OrderedMap UnbondHistory) (m : OrderedMap ℕ) → length (unreleased hist m) ≤ length m
length-unreleased hist [] = omega arith
length-unreleased hist ((id, v) ∷ rest) = ground (arith, length-unreleased hist rest)

pub state-remove_unbond_wait_list :
    (s : Store) (bs : List ℕ) (a : Addr) → (remove_unbond_wait_list s bs a).state ≡ s.state
unfolding remove_unbond_wait_list
state-remove_unbond_wait_list s bs a = refl

pub history-remove_unbond_wait_list :
    (s : Store) (bs : List ℕ) (a : Addr)
    → (remove_unbond_wait_list s bs a).unbond_history ≡ s.unbond_history
unfolding remove_unbond_wait_list
history-remove_unbond_wait_list s bs a = refl

pub waitlist-remove_unbond_wait_list :
    (s : Store) (bs : List ℕ) (a j : Addr)
    → (remove_unbond_wait_list s bs a).unbond_waitlist j
      ≡ (if str_eq j a then remove_all bs (s.unbond_waitlist a) else s.unbond_waitlist j)
unfolding remove_unbond_wait_list
waitlist-remove_unbond_wait_list s bs a j = ground (arith, str_eq_iff j a, str_eq_iff a j)

-- What a withdrawal leaves of a short wait list is what is not released.
pub waitlist_after :
    (s : Store) (a : Addr)
    → IsOrdered 0 (s.unbond_waitlist a)
    → length (s.unbond_waitlist a) ≤ 30
    → (remove_unbond_wait_list s (get_unbond_batches s a none) a).unbond_waitlist a
      ≡ unreleased s.unbond_history (s.unbond_waitlist a)
unfolding get_unbond_batches
waitlist_after s a o le = ground (
  arith,
  waitlist-remove_unbond_wait_list s (get_unbond_batches s a none) a a,
  str_eq_refl a,
  take_all 30 (s.unbond_waitlist a) le,
  remove_all-released_batches 0 s.unbond_history (s.unbond_waitlist a) o,
)

-- Once the released requests of a short wait list are removed, nothing is finished.
pub finished-after :
    (ops : Std) (s t : Store) (a : Addr)
    → IsOrdered 0 (s.unbond_waitlist a)
    → length (s.unbond_waitlist a) ≤ 30
    → t.unbond_history ≡ s.unbond_history
    → t.unbond_waitlist a
      ≡ (remove_unbond_wait_list s (get_unbond_batches s a none) a).unbond_waitlist a
    → get_finished_amount ops t a none ≡ ok 0
unfolding get_finished_amount
finished-after ops s t a o le same left =
    let short : t.unbond_waitlist a ≡ unreleased s.unbond_history (s.unbond_waitlist a) =
      left ∙ waitlist_after s a o le in
    rw same (
      rw short (
        rw
          (take_all 30 (unreleased s.unbond_history (s.unbond_waitlist a))
            (omega (arith, le, length-unreleased s.unbond_history (s.unbond_waitlist a))))
          (finished_sum-unreleased ops s.unbond_history (s.unbond_waitlist a) 0)))

pub initialized_only :
    (cfg : Config)
    → assert_initialized cfg ≡ (
        if cfg.initialized
        then ok cfg
        else err (generic_err "Contract initialization is not completed"))
unfolding assert_initialized
initialized_only cfg = refl
