-- ===== src/Vault/Release/Shape.antt =====
-- The result of `process_withdraw_rate` in terms of the run of batches that it releases.
use prism_contracts.Prelude.{
  ℕ, suc, ◌+◌, ◌≡◌, refl, ap, some, List, [], ◌∷◌, arith, ok, Result-cases, inl, inr,
}
use prism_contracts.Prelude.Lists.{length}
use prism_contracts.Cosmwasm.{reference, reference-IsStd}
use prism_contracts.Storage.Ordered.{OrderedMap}
use prism_contracts.Messages.{StdError}
use prism_contracts.SignedInt.{
  SignedInt, signed_difference, from_subtraction, from_subtraction-total,
}
use prism_contracts.Vault.State.{State, Store, UnbondHistory}
use prism_contracts.Vault.Release.{sum_loop, release_loop, release_run, process_withdraw_rate}
use prism_contracts.Vault.Release.Loops.{
  Pending, total_expected, Releases, write, last_written, last_written-eq, Pending-run, sum_value,
  release_value,
}

-- What the vault received for the batches: the change of its balance, and what was left over.
abbrev pub received : State → ℕ → ℕ
received st balance =
    st.actual_unbonded_amount + (signed_difference balance st.prev_vault_balance).magnitude

-- The batches `hs` that are released, and `hs'` as they are stored.
pub record Release (s t : Store) (st : State) (time balance : ℕ) : Type 0 where
  pub before : List UnbondHistory
  pub after : List UnbondHistory
  pub pending : Pending s.unbond_history time (st.last_processed_batch + 1) before
  pub released :
      Releases
        (signed_difference (total_expected before) (received st balance))
        (total_expected before)
        before
        after
  pub stored : t ≡ record s {
    unbond_history = write (st.last_processed_batch + 1) after s.unbond_history;
    state = some (record st {
      last_processed_batch = st.last_processed_batch + length before;
      actual_unbonded_amount = 0;
    });
  }

pub length-Releases :
    (slashed : SignedInt) (total : ℕ) (hs hs' : List UnbondHistory)
    → Releases slashed total hs hs'
    → length hs' ≡ length hs
length-Releases slashed total [] [] r = refl
length-Releases slashed total [] (h' ∷ hs') r = absurd r
length-Releases slashed total (h ∷ hs) [] r = absurd r
length-Releases slashed total (h ∷ hs) (h' ∷ hs') r =
    ap suc (length-Releases slashed total hs hs' r.1)

run_value :
    (hist : OrderedMap UnbondHistory) (t fuel first last actual : ℕ) (hs : List UnbondHistory)
    (r : OrderedMap UnbondHistory × ℕ)
    → Pending hist t first hs
    → release_run reference hist t fuel first last actual ≡ ok r
    → (hs' : List UnbondHistory) × Releases
        (signed_difference (total_expected hs) actual)
        (total_expected hs)
        hs
        hs'
      × (r ≡ (write first hs' hist, last_written first hs' last))
unfolding release_run write
run_value hist t fuel first last actual [] r p e =
    elim (Result-cases (sum_loop reference hist t fuel first 0 0)) [
      | inr bad ↦ absurd (ground arith)
      | inl (sum, q) ↦ ([], tt, ground (arith, sum_value hist t fuel first 0 0 [] sum p q))
    ]
run_value hist t fuel first last actual (h ∷ hs) r p e =
    elim (Result-cases (sum_loop reference hist t fuel first 0 0)) [
      | inr bad ↦ absurd (ground arith)
      | inl (sum, q) ↦
          let total = total_expected (h ∷ hs) in
          let loop : release_loop reference (signed_difference total actual) total t fuel hist first
                last
              ≡ ok r =
            ground (
              arith,
              sum_value hist t fuel first 0 0 (h ∷ hs) sum p q,
              from_subtraction-total reference reference-IsStd {E = StdError} total actual,
            ) in
          release_value (signed_difference total actual) total t fuel hist first last (h ∷ hs) r p
            loop
    ]

-- A call that succeeds has released the whole run of batches that were due.
pub process-Release :
    (s t : Store) (st : State) (time balance : ℕ)
    → s.state ≡ some st
    → process_withdraw_rate reference s time balance ≡ ok t
    → Release s t st time balance
unfolding process_withdraw_rate
process-Release s t st time balance e r =
    elim (Result-cases (release_run reference hist time fuel first last (received st balance))) [
      | inr bad ↦ absurd (ground (arith, change))
      | inl (out, run) ↦
          let (hs, p, short) = Pending-run hist time first in
          let (hs', rel, eq) =
            run_value hist time fuel first last (received st balance) hs out p run in
          record {
            before = hs;
            after = hs';
            pending = p;
            released = rel;
            stored = ground (
              arith,
              change,
              last_written-eq first last hs' refl,
              length-Releases (signed_difference (total_expected hs) (received st balance))
                  (total_expected hs) hs hs' rel,
            );
          }
    ]
  where
    hist : OrderedMap UnbondHistory
    hist = s.unbond_history

    last : ℕ
    last = st.last_processed_batch

    first : ℕ
    first = last + 1

    fuel : ℕ
    fuel = suc (length hist)

    change :
        from_subtraction reference {E = StdError} balance st.prev_vault_balance
        ≡ ok (signed_difference balance st.prev_vault_balance)
    change = from_subtraction-total reference reference-IsStd balance st.prev_vault_balance
