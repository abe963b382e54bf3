-- ===== src/Vault/Unbonding/Pick.antt =====
-- What `pick_unbond_validator` undelegates, in all and from each validator.
use prism_contracts.Prelude.{
  ℕ, zero, suc, ◌+◌, ◌-◌, ◌≤◌, ◌<◌, ◌≡◌, refl, ◌∙◌, some, List, [], ◌∷◌, ◌++◌, String, arith, ok,
  str_eq, str_eq_refl, u64_size, ltb, if◌then◌else◌,
}
use prism_contracts.Prelude.Lists.{length}
use prism_contracts.Cosmwasm.{Std, IsStd, reference, determined}
use prism_contracts.Storage.{Addr}
use prism_contracts.Messages.{CosmosMsg}
use prism_contracts.Querier.{Querier, Delegation}
use prism_contracts.Vault.Unbonding.{remove_at, undelegate_msg, pick_loop, pick_unbond_validator}

-- What the messages undelegate in a coin, in all and from one validator.
abbrev pub undelegated : String → List CosmosMsg → ℕ
undelegated denom [] = 0
undelegated denom (CosmosMsg.undelegate v d n ∷ ms) =
    let rest = undelegated denom ms in if str_eq d denom then n + rest else rest
undelegated denom (m ∷ ms) = undelegated denom ms

abbrev pub undelegated_from : Addr → List CosmosMsg → ℕ
undelegated_from a [] = 0
undelegated_from a (CosmosMsg.undelegate v d n ∷ ms) =
    let rest = undelegated_from a ms in if str_eq v a then n + rest else rest
undelegated_from a (m ∷ ms) = undelegated_from a ms

abbrev pub delegated : List Delegation → ℕ
delegated [] = 0
delegated (d ∷ ds) = d.amount + delegated ds

abbrev pub delegated_to : Addr → List Delegation → ℕ
delegated_to a [] = 0
delegated_to a (d ∷ ds) =
    let rest = delegated_to a ds in if str_eq d.validator a then d.amount + rest else rest

-- The claim is undelegated, from each validator at most what is delegated to it.
abbrev pub IsMet : String → ℕ → List Delegation → List CosmosMsg → Type 0
IsMet denom claim ds msgs =
    (undelegated denom msgs ≡ claim) × ((a : Addr) → undelegated_from a msgs ≤ delegated_to a ds)

remove_at-some :
    (i : ℕ) (ds : List Delegation)
    → i < length ds
    → (d : Delegation) × (rest : List Delegation) × (remove_at i ds ≡ some (d, rest))
      × (length ds ≡ suc (length rest))
      × (delegated ds ≡ d.amount + delegated rest)
      × ((a : Addr) → delegated_to a ds ≡ delegated_to a (d ∷ rest))
unfolding remove_at
remove_at-some i [] h = elim h [ ]
remove_at-some zero (x ∷ xs) h = (x, xs, refl, refl, refl, λ a. refl)
remove_at-some (suc i) (x ∷ xs) h =
    let (d, rest, e, len, sum, each) = remove_at-some i xs (omega arith) in
    (d, x ∷ rest, ground (arith, e), omega arith, omega arith, λ a. ground (arith, each a))

undelegated-undelegate_msg :
    (v : Addr) (d : String) (n : ℕ) (ms : List CosmosMsg)
    → undelegated d (undelegate_msg v d n ++ ms) ≡ n + undelegated d ms
undelegated-undelegate_msg v d zero ms = omega arith
undelegated-undelegate_msg v d (suc n) ms = ground (arith, str_eq_refl d)

from-undelegate_msg :
    (v a : Addr) (d : String) (n m : ℕ) (ms : List CosmosMsg) (rest : ℕ)
    → n ≤ m
    → undelegated_from a ms ≤ rest
    → undelegated_from a (undelegate_msg v d n ++ ms) ≤ (if str_eq v a then m + rest else rest)
from-undelegate_msg v a d zero m ms rest le h = ground arith
from-undelegate_msg v a d (suc n) m ms rest le h = ground arith

-- The loop meets the claim whatever the generator draws.
loop-meets :
    (rng : ℕ → ℕ → ℕ) (denom : String) (fuel height index claimed : ℕ) (ds : List Delegation)
    → ((k n : ℕ) → 0 < n → rng k n < n)
    → length ds ≡ fuel
    → claimed ≤ delegated ds
    → height + index + length ds < u64_size
    → (msgs : List CosmosMsg) × (pick_loop reference rng fuel denom height index claimed ds
        ≡ ok msgs)
      × IsMet denom claimed ds msgs
unfolding pick_loop
loop-meets rng denom zero height index claimed [] fair len le bound =
    ([], ground arith, (omega arith, λ a. omega arith))
loop-meets rng denom zero height index claimed (d ∷ ds) fair len le bound = absurd (omega arith)
loop-meets rng denom (suc fuel) height index zero ds fair len le bound =
    ([], refl, (refl, λ a. omega arith))
loop-meets rng denom (suc fuel) height index (suc c) ds fair len le bound =
    let (d, rest, e, shorter, sum, each) =
      remove_at-some (rng (height + index) (length ds)) ds
        (fair (height + index) (length ds) (omega arith)) in
    let left = if ltb (suc c) d.amount then 0 else suc c - d.amount in
    let (msgs, run, (met, most)) =
      loop-meets rng denom fuel height (index + 1) left rest fair (omega arith) (ground arith)
        (omega arith) in
    let amount = if ltb (suc c) d.amount then suc c else d.amount in
    (
      undelegate_msg d.validator denom amount ++ msgs,
      ground (arith, e, run),
      (
        undelegated-undelegate_msg d.validator denom amount msgs ∙ ground (arith, met),
        λ a. rw (each a) (
            from-undelegate_msg d.validator a denom amount d.amount msgs (delegated_to a rest)
              (ground arith) (most a)),
      ),
    )

module _ (ops : Std) (law : IsStd ops) (rng : ℕ → ℕ → ℕ)
    (fair : (k n : ℕ) → 0 < n → rng k n < n) where
  -- Whatever the generator draws below its bound, a claim that the delegations cover is undelegated
  -- exactly, in the given coin and from each validator at most what is delegated to it, as long as
  -- the block height and the number of delegations stay below 2^64.
  pub pick_unbond_validator-meets :
      (q : Querier) (denom : String) (claim height : ℕ) (delegator : Addr) (ds : List Delegation)
      → q.all_delegations delegator ≡ ok ds
      → claim ≤ delegated ds
      → height + length ds < u64_size
      → (msgs : List CosmosMsg) × (pick_unbond_validator ops rng q denom claim delegator height
          ≡ ok msgs)
        × IsMet denom claim ds msgs
  unfolding pick_unbond_validator
  pick_unbond_validator-meets q denom claim height delegator ds e le bound =
      rw (determined law)
        let (msgs, run, met) =
            loop-meets rng denom (length ds) height 0 claim ds fair refl le (omega arith) in
          (msgs, ground (arith, e, run), met)
