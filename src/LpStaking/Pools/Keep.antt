-- ===== src/LpStaking/Pools/Keep.antt =====
-- The messages of the owner keep what the pools' totals cover.
use prism_contracts.Prelude.{
  ℕ, ◌+◌, ◌-◌, ◌≡◌, ◌≢◌, refl, sym, ◌∙◌, ap, subst, Bool, true, none, some, [], ◌∷◌, arith, ok, inl,
  inr, Result-cases, Bool-cases, str_eq, str_eq_iff, str_eq_refl,
}
use prism_contracts.Cosmwasm.{Std}
use prism_contracts.Storage.{Addr}
use prism_contracts.Storage.Named
use prism_contracts.Storage.Named.{NamedMap, IsKeyed, load-save, save-IsKeyed}
use prism_contracts.LpStaking.{Config, State, PoolInfo, RewardInfo}
use prism_contracts.Storage.Ordered.{OrderedMap, IsOrdered}
use prism_contracts.LpStaking.Orders.Pull.{total_of}
use prism_contracts.LpStaking.Rewards.{compute_pool_reward}
use prism_contracts.LpStaking.Rewards.Frame.{compute_pool_reward-same}
use prism_contracts.Storage.Sums.{IsBounded-same}
use prism_contracts.LpStaking.Stakes.{save_pool}
use prism_contracts.LpStaking.Backed.{
  IsBacked, total_bond, total_pending, total_bond_in, total_pending_in, bond_in, withdrawable_in,
  staked, owed,
}
use prism_contracts.LpStaking.Pools.{refresh_pools, reweigh_pools}

abbrev Rewards : Type 0
Rewards = Addr → NamedMap RewardInfo

-- The totals of every pool stay, as do the stakers.
pub record SameTotals (s t : State) : Type 0 where
  pub keyed : IsKeyed s.pools → IsKeyed t.pools
  pub bonds : (k : Addr) → total_bond t k ≡ total_bond s k
  pub debts : (k : Addr) → total_pending t k ≡ total_pending s k
  pub rewards : t.reward_info ≡ s.reward_info
  pub orders : t.unbond_orders ≡ s.unbond_orders

pub SameTotals-IsBacked : (s t : State) → SameTotals s t → IsBacked s → IsBacked t
SameTotals-IsBacked s t m h = record {
  keyed = m.keyed h.keyed;
  filed = λ a. subst (λ (r : Rewards). IsKeyed (r a)) (sym m.rewards) (h.filed a);
  ordered = λ a k.
      subst (λ (o : Addr → Addr → OrderedMap ℕ). IsOrdered 0 (o a k)) (sym m.orders)
        (h.ordered a k);
  bonds = λ k.
      IsBounded-same (staked s k) (staked t k) (total_bond s k) (total_bond t k)
        (λ a. ap (λ (r : Rewards). bond_in (Named.load k (r a))) m.rewards) (sym (m.bonds k))
        (h.bonds k);
  debts = λ k.
      IsBounded-same (owed s k) (owed t k) (total_pending s k) (total_pending t k)
        (λ a. omega (
          arith,
          ap (λ (r : Rewards). withdrawable_in (Named.load k (r a))) m.rewards,
          ap (λ (o : Addr → Addr → OrderedMap ℕ). total_of (o a k)) m.orders,
        ))
        (sym (m.debts k)) (h.debts k);
}

pub SameTotals-refl : (s : State) → SameTotals s s
SameTotals-refl s = record {
  keyed = λ h. h;
  bonds = λ k. refl;
  debts = λ k. refl;
  rewards = refl;
  orders = refl;
}

pub SameTotals-trans : (s t u : State) → SameTotals s t → SameTotals t u → SameTotals s u
SameTotals-trans s t u a b = record {
  keyed = λ h. b.keyed (a.keyed h);
  bonds = λ k. b.bonds k ∙ a.bonds k;
  debts = λ k. b.debts k ∙ a.debts k;
  rewards = b.rewards ∙ a.rewards;
  orders = b.orders ∙ a.orders;
}

-- A pool is stored with its totals as they were; nothing stored counts as nothing staked.
pub save_pool-SameTotals :
    (s : State) (token : Addr) (pool : PoolInfo)
    → pool.total_bond_amount ≡ total_bond s token
    → pool.total_pending_withdraw ≡ total_pending s token
    → SameTotals s (save_pool token pool s)
save_pool-SameTotals s token pool bond debt = record {
  keyed = save-IsKeyed token pool s.pools;
  bonds = λ k. ground (arith, load-save token k pool s.pools, str_eq_iff k token);
  debts = λ k. ground (arith, load-save token k pool s.pools, str_eq_iff k token);
  rewards = refl;
  orders = refl;
}

-- The entries of the first are those of the second.
abbrev IsPart : NamedMap PoolInfo → NamedMap PoolInfo → Type 0
IsPart l m = (k : Addr) (p : PoolInfo) → Named.load k l ≡ some p → Named.load k m ≡ some p

-- After the first pool of a list is stored, the rest is still as it is stored.
IsPart-rest :
    (k : Addr) (pool after : PoolInfo) (l m : NamedMap PoolInfo)
    → Named.load k l ≡ none
    → IsPart ((k, pool) ∷ l) m
    → IsPart l (Named.save k after m)
IsPart-rest k pool after l m fresh part j p found =
    let apart : j ≢ k = λ eq. absurd (ground (arith, fresh)) in
    load-save k j after m ∙ ground (arith, str_eq_iff j k, part j p)

module _ (ops : Std) where
  -- A pool of the list whose rewards are computed.
  stored-SameTotals :
      (cfg : Config) (now : ℕ) (s : State) (k : Addr) (pool after : PoolInfo) (weight : ℕ)
      → Named.load k s.pools ≡ some pool
      → compute_pool_reward ops cfg pool now ≡ ok after
      → SameTotals s (save_pool k (record after { weight = weight }) s)
  stored-SameTotals cfg now s k pool after weight found e =
      let (bond, debt, period, same) = compute_pool_reward-same ops cfg pool after now e in
      save_pool-SameTotals s k (record after { weight = weight })
        (bond ∙ sym (ap total_bond_in found)) (debt ∙ sym (ap total_pending_in found))

  pub refresh_pools-SameTotals :
      (cfg : Config) (now : ℕ) (token : Addr) (l : NamedMap PoolInfo) (s t : State)
      → IsKeyed l
      → IsPart l s.pools
      → refresh_pools ops cfg now token l s ≡ ok t
      → SameTotals s t × (Named.load token l ≡ none)
  unfolding refresh_pools
  refresh_pools-SameTotals cfg now token [] s t keyed part e =
      let same : t ≡ s = ground arith in (subst (SameTotals s) (sym same) (SameTotals-refl s), refl)
  refresh_pools-SameTotals cfg now token ((k, pool) ∷ l) s t keyed part e =
      elim (Bool-cases (str_eq k token)) [
        | inl bad ↦ absurd (ground arith)
        | inr other ↦ elim (Result-cases (compute_pool_reward ops cfg pool now)) [
          | inr bad ↦ absurd (ground arith)
          | inl (after, e1) ↦
              let found = part k pool (ground (arith, str_eq_refl k)) in
              let u = save_pool k after s in
              let here = stored-SameTotals cfg now s k pool after after.weight found e1 in
              let (rest, fresh) =
                refresh_pools-SameTotals cfg now token l u t keyed.1
                  (IsPart-rest k pool after l s.pools keyed.0 part) (ground arith) in
              (
                SameTotals-trans s u t here rest,
                ground (arith, fresh, str_eq_iff k token, str_eq_iff token k),
              )
        ]
      ]

  pub reweigh_pools-SameTotals :
      (now : ℕ) (token : Addr) (weight : ℕ) (l : NamedMap PoolInfo) (cfg cfg' : Config)
      (found found' : Bool) (s t : State)
      → IsKeyed l
      → IsPart l s.pools
      → reweigh_pools ops now token weight l cfg found s ≡ ok (cfg', found', t)
      → SameTotals s t
  unfolding reweigh_pools
  reweigh_pools-SameTotals now token weight [] cfg cfg' found found' s t keyed part e =
      let same : t ≡ s = ground arith in subst (SameTotals s) (sym same) (SameTotals-refl s)
  reweigh_pools-SameTotals now token weight ((k, pool) ∷ l) cfg cfg' found found' s t keyed part e =
      elim (Result-cases (compute_pool_reward ops cfg pool now)) [
        | inr bad ↦ absurd (ground arith)
        | inl (after, e1) ↦
            let stored = part k pool (ground (arith, str_eq_refl k)) in
            elim (Bool-cases (str_eq k token)) [
              | inl eq ↦
                  let less = cfg.total_weight - after.weight in
                  let changed : Config = record cfg { total_weight = less + weight } in
                  let p : PoolInfo = record after { weight = weight } in
                  let u = save_pool k p s in
                  SameTotals-trans s u t (stored-SameTotals cfg now s k pool after weight stored e1)
                    (reweigh_pools-SameTotals now token weight l changed cfg' true found' u t
                      keyed.1 (IsPart-rest k pool p l s.pools keyed.0 part) (ground arith))
              | inr ne ↦
                  let u = save_pool k after s in
                  SameTotals-trans s u t
                    (stored-SameTotals cfg now s k pool after after.weight stored e1)
                    (reweigh_pools-SameTotals now token weight l cfg cfg' found found' u t keyed.1
                      (IsPart-rest k pool after l s.pools keyed.0 part) (ground arith))
            ]
      ]
