-- ===== src/LpStaking/Backed.antt =====
-- What a pool's totals must cover: the stakes of all stakers, and all that waits for a withdrawal.
use prism_contracts.Prelude.{
  ℕ, ◌+◌, ◌≡◌, ◌≢◌, sym, subst, Option, none, some, arith, inl, inr, Bool-cases, str_eq, str_eq_iff,
}
use prism_contracts.Storage.{Addr}
use prism_contracts.Storage.Ordered.{IsOrdered}
use prism_contracts.Storage.Named
use prism_contracts.Storage.Named.{NamedMap, load-save, load-remove, IsKeyed, save-IsKeyed}
use prism_contracts.LpStaking.{State, PoolInfo, RewardInfo}
use prism_contracts.Storage.Sums.{IsBounded, IsBounded-change, IsBounded-same}
use prism_contracts.LpStaking.Orders.Pull.{total_of}

abbrev pub bond_in : Option RewardInfo → ℕ
bond_in o = elim o [ none ↦ 0 | some info ↦ info.bond_amount ]

abbrev pub withdrawable_in : Option RewardInfo → ℕ
withdrawable_in o = elim o [ none ↦ 0 | some info ↦ info.withdrawable_amount ]

abbrev pub total_bond_in : Option PoolInfo → ℕ
total_bond_in o = elim o [ none ↦ 0 | some pool ↦ pool.total_bond_amount ]

abbrev pub total_pending_in : Option PoolInfo → ℕ
total_pending_in o = elim o [ none ↦ 0 | some pool ↦ pool.total_pending_withdraw ]

-- What a staker has staked, and what waits for the staker's withdrawal.
abbrev pub staked : State → Addr → Addr → ℕ
staked s token a = bond_in (Named.load token (s.reward_info a))

abbrev pub owed : State → Addr → Addr → ℕ
owed s token a =
    withdrawable_in (Named.load token (s.reward_info a)) + total_of (s.unbond_orders a token)

abbrev pub total_bond : State → Addr → ℕ
total_bond s token = total_bond_in (Named.load token s.pools)

abbrev pub total_pending : State → Addr → ℕ
total_pending s token = total_pending_in (Named.load token s.pools)

pub record IsBacked (s : State) : Type 0 where
  pub keyed : IsKeyed s.pools
  pub filed : (a : Addr) → IsKeyed (s.reward_info a)
  pub ordered : (a token : Addr) → IsOrdered 0 (s.unbond_orders a token)
  pub bonds : (token : Addr) → IsBounded (staked s token) (total_bond s token)
  pub debts : (token : Addr) → IsBounded (owed s token) (total_pending s token)

-- A change for one staker of one token: the pool's totals change by as much as the staker's amounts.
pub record Moves (s t : State) (token staker : Addr) : Type 0 where
  pub keyed : IsKeyed s.pools → IsKeyed t.pools
  pub filed : ((a : Addr) → IsKeyed (s.reward_info a)) → (a : Addr) → IsKeyed (t.reward_info a)
  pub ordered :
      ((a k : Addr) → IsOrdered 0 (s.unbond_orders a k))
      → (a k : Addr) → IsOrdered 0 (t.unbond_orders a k)
  pub other_pools :
      (k : Addr)
      → k ≢ token
      → (total_bond t k ≡ total_bond s k) × (total_pending t k ≡ total_pending s k)
  pub other_tokens :
      (k a : Addr) → k ≢ token → (staked t k a ≡ staked s k a) × (owed t k a ≡ owed s k a)
  pub other_stakers :
      (a : Addr)
      → a ≢ staker
      → (staked t token a ≡ staked s token a) × (owed t token a ≡ owed s token a)
  pub bond : total_bond t token + staked s token staker ≡ total_bond s token + staked t token staker
  pub debt :
      total_pending t token + owed s token staker ≡ total_pending s token + owed t token staker

pub Moves-IsBacked :
    (s t : State) (token staker : Addr) → Moves s t token staker → IsBacked s → IsBacked t
Moves-IsBacked s t token staker m h = record {
  keyed = m.keyed h.keyed;
  filed = m.filed h.filed;
  ordered = m.ordered h.ordered;
  bonds = λ k. elim (Bool-cases (str_eq k token)) [
    | inl eq ↦
        subst (λ j. IsBounded (staked t j) (total_bond t j)) (sym ((str_eq_iff k token).0 eq))
          (IsBounded-change (staked s token) (staked t token) staker
            (λ a ne. (m.other_stakers a ne).0) (total_bond s token) (total_bond t token) m.bond
            (h.bonds token))
    | inr ne ↦
        let other : k ≢ token = λ e. absurd (ground (arith, (str_eq_iff k token).1 e)) in
        IsBounded-same (staked s k) (staked t k) (total_bond s k) (total_bond t k)
          (λ a. (m.other_tokens k a other).0) (sym (m.other_pools k other).0) (h.bonds k)
  ];
  debts = λ k. elim (Bool-cases (str_eq k token)) [
    | inl eq ↦
        subst (λ j. IsBounded (owed t j) (total_pending t j)) (sym ((str_eq_iff k token).0 eq))
          (IsBounded-change (owed s token) (owed t token) staker (λ a ne. (m.other_stakers a ne).1)
            (total_pending s token) (total_pending t token) m.debt (h.debts token))
    | inr ne ↦
        let other : k ≢ token = λ e. absurd (ground (arith, (str_eq_iff k token).1 e)) in
        IsBounded-same (owed s k) (owed t k) (total_pending s k) (total_pending t k)
          (λ a. (m.other_tokens k a other).1) (sym (m.other_pools k other).1) (h.debts k)
  ];
}
