-- ===== src/LpStaking/Rewards/Bounds.antt =====
-- A pool's rewards come out of the schedule in proportion to the time that passed, and a staker's do
-- not depend on when they are computed.
use native.Mathlib.Nat.{lt-div-mul-add, div-mul-le_self, mul-le-mul_left, mul-le-mul_right}
use prism_contracts.Prelude.{
  ℕ, ◌+◌, ◌-◌, ◌*◌, ◌/◌, ◌≤◌, ◌<◌, ◌≡◌, refl, subst, ◌⊎◌, ◌||◌, min, max, List, [], ◌∷◌, arith, ok,
  inl, inr, Result-cases, Bool-cases, ltb, ◌==◌,
}
use prism_contracts.Cosmwasm.{Std, IsStd, reference, determined, decimal_one}
use prism_contracts.LpStaking.{Config, Schedule, PoolInfo, RewardInfo}
use prism_contracts.LpStaking.Rewards.{
  add_schedule, distribute, compute_pool_reward, compute_staker_reward,
}

-- From a share, rounded down, to the parts: `b` times the part is at most `a` times the whole.
part-le :
    (amount weight total : ℕ)
    → amount * (weight * decimal_one / total) / decimal_one * total ≤ amount * weight
part-le amount weight total =
    let share = weight * decimal_one / total in
    let part = amount * share / decimal_one in
    let one = div-mul-le_self (amount * share) decimal_one in
    let two = div-mul-le_self (weight * decimal_one) total in
    let three = mul-le-mul_left amount two in
    let four = mul-le-mul_left total one in grind (arith, three, four)

-- The seconds of a distribution between the last one of a pool and now; none outside of it.
abbrev pub seconds_due : PoolInfo → ℕ → Schedule → ℕ
seconds_due pool now (start, finish, amount) = min finish now - max start pool.last_distributed

-- What a distribution gives the pool in a second: the share of its weight in the amount, for each of
-- the seconds of the distribution.
abbrev pub rate_of : Config → PoolInfo → Schedule → ℕ
rate_of cfg pool (start, finish, amount) =
    let share = pool.weight * decimal_one / cfg.total_weight in
    amount * share / decimal_one * decimal_one / (finish - start)

-- The sum of a part for each distribution: what is earned in the seconds that are due, which is at
-- most the share of the pool's weight in the amount, in proportion to these seconds.
abbrev pub AreParts : Config → PoolInfo → ℕ → List Schedule → ℕ → Type 0
AreParts cfg pool now [] distributed = distributed ≡ 0
AreParts cfg pool now ((start, finish, amount) ∷ rest) distributed =
    (part : ℕ) × (others : ℕ) × (distributed ≡ part + others)
    × (part
        ≡ seconds_due pool now (start, finish, amount)
          * rate_of cfg pool (start, finish, amount)
          / decimal_one)
    × (part * (finish - start) * cfg.total_weight
        ≤ seconds_due pool now (start, finish, amount) * (amount * pool.weight))
    × AreParts cfg pool now rest others

-- What is earned in some of the seconds, with two roundings.
earned-le :
    (whole seconds num : ℕ)
    → seconds * (whole * decimal_one / num) / decimal_one * num ≤ seconds * whole
earned-le whole seconds num =
    let per_second = whole * decimal_one / num in
    let earned = seconds * per_second / decimal_one in
    let one = mul-le-mul_right num (div-mul-le_self (seconds * per_second) decimal_one) in
    let two = mul-le-mul_left seconds (div-mul-le_self (whole * decimal_one) num) in
    grind (arith, one, two)

nothing_due : (seconds rate : ℕ) → seconds ≡ 0 → 0 ≡ seconds * rate / decimal_one
nothing_due seconds rate e = rw e (omega arith)

-- One distribution adds its part.
add_schedule-part :
    (cfg : Config) (pool : PoolInfo) (now start finish amount d d' : ℕ)
    → add_schedule reference cfg pool now (start, finish, amount) d ≡ ok d'
    → (part : ℕ) × (d' ≡ d + part)
      × (part
          ≡ seconds_due pool now (start, finish, amount)
            * rate_of cfg pool (start, finish, amount)
            / decimal_one)
      × (part * (finish - start) * cfg.total_weight
          ≤ seconds_due pool now (start, finish, amount) * (amount * pool.weight))
unfolding add_schedule
add_schedule-part cfg pool now start finish amount d d' e =
    elim (Bool-cases (ltb now start || ltb finish pool.last_distributed)) [
      | inl skipped ↦
          let none_due : min finish now - max start pool.last_distributed ≡ 0 = ground arith in
          let rate = rate_of cfg pool (start, finish, amount) in
          (
            0,
            ground arith,
            nothing_due (min finish now - max start pool.last_distributed) rate none_due,
            grind arith,
          )
      | inr counted ↦
          let seconds = min finish now - max start pool.last_distributed in
          let share = pool.weight * decimal_one / cfg.total_weight in
          let of_pool = amount * share / decimal_one in
          let per_second = of_pool * decimal_one / (finish - start) in
          let earned = seconds * per_second / decimal_one in
          let sum : d' ≡ d + earned = ground arith in
          let small =
            mul-le-mul_right cfg.total_weight (earned-le of_pool seconds (finish - start)) in
          let whole = mul-le-mul_left seconds (part-le amount pool.weight cfg.total_weight) in
          (earned, sum, refl, grind (arith, small, whole))
    ]

distribute-parts :
    (cfg : Config) (pool : PoolInfo) (now : ℕ) (schedule : List Schedule) (d d' : ℕ)
    → distribute reference cfg pool now schedule d ≡ ok d'
    → (sum : ℕ) × (d' ≡ d + sum) × AreParts cfg pool now schedule sum
unfolding distribute
distribute-parts cfg pool now [] d d' e = (0, ground arith, refl)
distribute-parts cfg pool now ((start, finish, amount) ∷ rest) d d' e =
    elim (Result-cases (add_schedule reference cfg pool now (start, finish, amount) d)) [
      | inr bad ↦ absurd (ground arith)
      | inl (d1, e1) ↦
          let (part, here, exact, le) =
            add_schedule-part cfg pool now start finish amount d d1 e1 in
          let (sum, there, parts) = distribute-parts cfg pool now rest d1 d' (ground arith) in
          (part + sum, omega (arith, here, there), (part, sum, refl, exact, le, parts))
    ]

-- What becomes of the rewards of a pool: they are kept while nothing is staked, and otherwise the
-- index grows by what they are for each staked unit, rounded down.
abbrev pub Credited : PoolInfo → PoolInfo → ℕ → Type 0
Credited pool after distributed =
    ((pool.total_bond_amount ≡ 0)
      × (after.reward_index ≡ pool.reward_index)
      × (after.pending_reward ≡ pool.pending_reward + distributed))
    ⊎ ((0 < pool.total_bond_amount)
        × (after.pending_reward ≡ 0)
        × (growth : ℕ) × (after.reward_index ≡ pool.reward_index + growth)
        × (growth * pool.total_bond_amount ≤ (pool.pending_reward + distributed) * decimal_one)
        × ((pool.pending_reward + distributed) * decimal_one
            < growth * pool.total_bond_amount + pool.total_bond_amount))

pool_reward_at :
    (cfg : Config) (pool after : PoolInfo) (now : ℕ)
    → compute_pool_reward reference cfg pool now ≡ ok after
    → (distributed : ℕ) × AreParts cfg pool now cfg.distribution_schedule distributed
      × (after.last_distributed ≡ now)
      × Credited pool after distributed
unfolding compute_pool_reward
pool_reward_at cfg pool after now e =
    elim (Result-cases (distribute reference cfg pool now cfg.distribution_schedule 0)) [
      | inr bad ↦ absurd (ground arith)
      | inl (d, e1) ↦
          let (d', same, parts) = distribute-parts cfg pool now cfg.distribution_schedule 0 d e1 in
          let parted : AreParts cfg pool now cfg.distribution_schedule d =
            subst (AreParts cfg pool now cfg.distribution_schedule) (omega (arith, same)) parts in
          elim (Bool-cases (pool.total_bond_amount == 0)) [
            | inl nothing ↦
                (d, parted, ground arith, inl (ground arith, ground arith, ground arith))
            | inr staked ↦
                let total = pool.pending_reward + d in
                let growth = total * decimal_one / pool.total_bond_amount in
                (
                  d,
                  parted,
                  ground arith,
                  inr (
                    ground arith,
                    ground arith,
                    growth,
                    ground arith,
                    div-mul-le_self (total * decimal_one) pool.total_bond_amount,
                    lt-div-mul-add (ground arith),
                  ),
                )
          ]
    ]

staker_twice_at :
    (first second : PoolInfo) (info mid after : RewardInfo)
    → compute_staker_reward reference first info ≡ ok mid
    → compute_staker_reward reference second mid ≡ ok after
    → compute_staker_reward reference second info ≡ ok after
unfolding compute_staker_reward
staker_twice_at first second info mid after e1 e2 = ground arith

module _ (ops : Std) (law : IsStd ops) where
  -- A pool is credited with a part of each distribution: what its weight earns in the seconds of the
  -- distribution since the pool was last computed, rounded down. These rewards wait while nothing is
  -- staked; otherwise the index grows by what they and those that wait are for each staked unit,
  -- rounded down.
  pub compute_pool_reward-Credited :
      (cfg : Config) (pool after : PoolInfo) (now : ℕ)
      → compute_pool_reward ops cfg pool now ≡ ok after
      → (distributed : ℕ) × AreParts cfg pool now cfg.distribution_schedule distributed
        × (after.last_distributed ≡ now)
        × Credited pool after distributed
  compute_pool_reward-Credited cfg pool after now =
      rw (determined law) (pool_reward_at cfg pool after now)

  -- A staker's rewards do not depend on when they are computed: to compute them at one index and
  -- then at a later one leads to the same record as to compute them at the later one alone.
  pub compute_staker_reward-twice :
      (first second : PoolInfo) (info mid after : RewardInfo)
      → compute_staker_reward ops first info ≡ ok mid
      → compute_staker_reward ops second mid ≡ ok after
      → compute_staker_reward ops second info ≡ ok after
  compute_staker_reward-twice first second info mid after =
      rw (determined law) (staker_twice_at first second info mid after)
