-- ===== src/Vault/Release/Totality.antt =====
-- When a release goes through, and a surplus that stops it.
use native.Mathlib.Nat.{div-le_of_le-mul, div-mul-le_self}
use prism_contracts.Prelude.{
  ℕ, zero, suc, ◌+◌, ◌-◌, ◌*◌, ◌/◌, ◌≤◌, ◌<◌, ◌≡◌, true, false, some, List, [], ◌∷◌, arith, ok, err,
  u64_size,
}
use prism_contracts.Prelude.Lists.{length}
use prism_contracts.Cosmwasm.{
  Std, IsStd, reference, reference-IsStd, determined, u128_size, decimal_one,
}
use prism_contracts.Storage.Ordered
use prism_contracts.Storage.Ordered.{OrderedMap}
use prism_contracts.Messages.{StdError, overflow}
use prism_contracts.SignedInt.{SignedInt, from_subtraction, from_subtraction-total}
use prism_contracts.Vault.State.{State, Store, UnbondHistory}
use prism_contracts.Vault.Release.{release_batch, release_loop, release_run, process_withdraw_rate}
use prism_contracts.Vault.Release.Loops.{
  Pending, Pending-save, expected, total_expected, sum_exact, Pending-length,
}
use prism_contracts.Vault.Release.Rates.{share_of}
use prism_contracts.Vault.Release.Shape.{received}

abbrev pub no_difference : SignedInt
no_difference = record { magnitude = 0; is_negative = false }

-- Nothing is empty, and the rates are 128-bit numbers.
abbrev pub AreBatches : List UnbondHistory → Type 0
AreBatches [] = Unit {0}
AreBatches (h ∷ hs) = (0 < h.amount) × (h.withdraw_rate < u128_size) × AreBatches hs

-- The rate of a batch that gains and loses nothing: the one before, rounded down once more.
abbrev pub even_release : UnbondHistory → UnbondHistory
even_release h = record h { withdraw_rate = expected h * decimal_one / h.amount; released = true }

even_rate-le : (h : UnbondHistory) → expected h * decimal_one / h.amount ≤ h.withdraw_rate
even_rate-le h =
    div-le_of_le-mul h.amount
      (omega (arith, div-mul-le_self (h.amount * h.withdraw_rate) decimal_one))

release_batch-even :
    (total : ℕ) (h : UnbondHistory)
    → 0 < h.amount
    → h.withdraw_rate < u128_size
    → expected h ≤ total
    → 0 < total
    → total < u128_size
    → release_batch reference no_difference total h ≡ ok (even_release h)
unfolding release_batch from_subtraction
release_batch-even total h a r le pos range = ground (
  arith,
  even_rate-le h,
  div-le_of_le-mul total {m = expected h * decimal_one} {n = decimal_one} (omega arith),
)

release_loop-even :
    (total t fuel : ℕ) (hist : OrderedMap UnbondHistory) (i last : ℕ) (hs : List UnbondHistory)
    → Pending hist t i hs
    → length hs < fuel
    → i + length hs < u64_size
    → AreBatches hs
    → total_expected hs ≤ total
    → 0 < total
    → total < u128_size
    → (r : OrderedMap UnbondHistory × ℕ) × (release_loop reference no_difference total t fuel hist i
          last
        ≡ ok r)
unfolding release_loop
release_loop-even total t zero hist i last hs p f b a le pos range = elim f [ ]
release_loop-even total t (suc fuel) hist i last [] p f b a le pos range =
    ((hist, last), ground arith)
release_loop-even total t (suc fuel) hist i last (h ∷ hs) p f b a le pos range =
    let (r, e) =
      release_loop-even total t fuel (Ordered.save i (even_release h) hist) (i + 1) i hs
        (Pending-save hist t (i + 1) i (even_release h) hs (omega arith) p.1) (omega arith)
        (omega arith) a.2 (omega arith) pos range in
    (r, ground (arith, e, release_batch-even total h a.0 a.1))

module _ (ops : Std) (law : IsStd ops) where
  -- A release of one or more due batches goes through where they should bring more than nothing,
  -- exactly this was received, none of them is empty, and the numbers fit into their types.
  pub process-even :
      (s : Store) (st : State) (time balance : ℕ) (h : UnbondHistory) (hs : List UnbondHistory)
      → s.state ≡ some st
      → Pending s.unbond_history time (st.last_processed_batch + 1) (h ∷ hs)
      → AreBatches (h ∷ hs)
      → 0 < total_expected (h ∷ hs)
      → total_expected (h ∷ hs) < u128_size
      → received st balance ≡ total_expected (h ∷ hs)
      → st.last_processed_batch + 2 + length hs < u64_size
      → (t : Store) × (process_withdraw_rate ops s time balance ≡ ok t)
  unfolding process_withdraw_rate release_run
  process-even s st time balance h hs e p a pos range same bound =
      rw (determined law)
        let first = st.last_processed_batch + 1 in
          let total = total_expected (h ∷ hs) in
          let fuel = suc (length s.unbond_history) in
          let short : length (h ∷ hs) < fuel =
            omega (arith, Pending-length s.unbond_history time first (h ∷ hs) p) in
          let (r, loop) =
            release_loop-even total time fuel s.unbond_history first st.last_processed_batch
              (h ∷ hs) p short (omega arith) a (omega arith) pos range in
          (
            record s {
              unbond_history = r.0;
              state = some (record st { last_processed_batch = r.1; actual_unbonded_amount = 0 });
            },
            ground (
              arith,
              loop,
              sum_exact s.unbond_history time fuel first 0 0 (h ∷ hs) p short (omega arith)
                  (omega arith) (omega arith),
              from_subtraction-total reference reference-IsStd {E = StdError} balance
                  st.prev_vault_balance,
              from_subtraction-total reference reference-IsStd {E = StdError} total total,
            ),
          )

  -- If more was received than the due batches should bring, so little more that the share of the
  -- first of them rounds down to nothing, then the release fails with an overflow error.
  pub process_dust :
      (s : Store) (st : State) (time balance : ℕ) (h : UnbondHistory) (hs : List UnbondHistory)
      → s.state ≡ some st
      → Pending s.unbond_history time (st.last_processed_batch + 1) (h ∷ hs)
      → let total = total_expected (h ∷ hs) in
        0 < total
        → total < received st balance
        → received st balance < u128_size
        → share_of (received st balance - total) total h ≡ 0
        → st.last_processed_batch + 2 + length hs < u64_size
        → process_withdraw_rate ops s time balance ≡ err overflow
  unfolding process_withdraw_rate release_run release_loop release_batch
  process_dust s st time balance h hs e p pos more range dust bound =
      rw (determined law)
        let first = st.last_processed_batch + 1 in
          let total = total_expected (h ∷ hs) in
          let fuel = suc (length s.unbond_history) in
          ground (
            arith,
            sum_exact s.unbond_history time fuel first 0 0 (h ∷ hs) p
                (omega (arith, Pending-length s.unbond_history time first (h ∷ hs) p)) (omega arith)
                (omega arith) (omega arith),
            from_subtraction-total reference reference-IsStd {E = StdError} balance
                st.prev_vault_balance,
            from_subtraction-total reference reference-IsStd {E = StdError} total
                (received st balance),
            div-le_of_le-mul total {m = expected h * decimal_one} {n = decimal_one} (omega arith),
          )
