-- ===== src/LpStaking/Effect.antt =====
-- The change that a handler makes for one staker of one token, and that the totals follow it.
use prism_contracts.Prelude.{
  ℕ, ◌+◌, ◌≡◌, ◌≢◌, ◌⊎◌, sym, ◌∙◌, ap, subst, Bool, some, arith, inl, inr, str_eq, str_eq_iff,
  str_eq_refl, if◌then◌else◌,
}
use prism_contracts.Storage.{Addr}
use prism_contracts.Storage.Ordered.{OrderedMap, IsOrdered}
use prism_contracts.Storage.Named
use prism_contracts.Storage.Named.{
  NamedMap, load-save, load-remove, IsKeyed, save-IsKeyed, remove-IsKeyed,
}
use prism_contracts.LpStaking.{State, PoolInfo, RewardInfo}
use prism_contracts.LpStaking.Orders.{set_orders, save_reward, update_or_remove_staker_rewards}
use prism_contracts.LpStaking.Orders.Pull.{total_of}
use prism_contracts.LpStaking.Backed.{
  bond_in, withdrawable_in, total_bond_in, total_pending_in, staked, owed, Moves, Moves-IsBacked,
  IsBacked,
}

-- Only the orders of one staker of one token change, to the given ones.
abbrev pub SetsOrders : State → State → Addr → Addr → OrderedMap ℕ → Type 0
SetsOrders s t token staker orders =
    (t.unbond_orders staker token ≡ orders)
    × ((a k : Addr) → (a ≢ staker) ⊎ (k ≢ token) → t.unbond_orders a k ≡ s.unbond_orders a k)

-- Only the record of one staker of one token changes, and has the given amounts.
abbrev pub SetsReward : State → State → Addr → Addr → RewardInfo → Type 0
SetsReward s t token staker info =
    (bond_in (Named.load token (t.reward_info staker)) ≡ info.bond_amount)
    × (withdrawable_in (Named.load token (t.reward_info staker)) ≡ info.withdrawable_amount)
    × ((a k : Addr)
        → (a ≢ staker) ⊎ (k ≢ token)
        → Named.load k (t.reward_info a) ≡ Named.load k (s.reward_info a))
    × (((a : Addr) → IsKeyed (s.reward_info a)) → (a : Addr) → IsKeyed (t.reward_info a))

pub set_orders-SetsOrders :
    (s : State) (token staker : Addr) (orders : OrderedMap ℕ)
    → SetsOrders s (set_orders staker token orders s) token staker orders
set_orders-SetsOrders s token staker orders = (
  ground (arith, str_eq_refl staker, str_eq_refl token),
  λ a k ne. ground (arith, str_eq_iff staker a, str_eq_iff token k),
)

pub SetsOrders-again :
    (s t : State) (token staker : Addr) (first second : OrderedMap ℕ)
    → SetsOrders s t token staker first
    → SetsOrders s (set_orders staker token second t) token staker second
SetsOrders-again s t token staker first second h =
    let again = set_orders-SetsOrders t token staker second in
    (again.0, λ a k ne. again.1 a k ne ∙ h.1 a k ne)

pub SetsOrders-eq :
    (s u t : State) (token staker : Addr) (orders : OrderedMap ℕ)
    → t.unbond_orders ≡ u.unbond_orders
    → SetsOrders s u token staker orders
    → SetsOrders s t token staker orders
SetsOrders-eq s u t token staker orders e h =
    let look = λ (a k : Addr) (m : Addr → Addr → OrderedMap ℕ). m a k in
    (ap (look staker token) e ∙ h.0, λ a k ne. ap (look a k) e ∙ h.1 a k ne)

pub save_reward-SetsReward :
    (s : State) (token staker : Addr) (info : RewardInfo)
    → SetsReward s (save_reward staker token info s) token staker info
save_reward-SetsReward s token staker info =
    let m = s.reward_info staker in
    (
      ground (arith, str_eq_refl staker, str_eq_refl token, load-save token token info m),
      ground (arith, str_eq_refl staker, str_eq_refl token, load-save token token info m),
      λ a k ne. ground (arith, str_eq_iff staker a, str_eq_iff k token, load-save token k info m),
      λ h a. ground (arith, save-IsKeyed token info m, h a, h staker),
    )

pub update-SetsReward :
    (s : State) (token staker : Addr) (info : RewardInfo) (pending : Bool)
    → SetsReward s (update_or_remove_staker_rewards s staker token info pending) token staker info
unfolding update_or_remove_staker_rewards
update-SetsReward s token staker info pending =
    let m = s.reward_info staker in
    let saved = load-save token token info m in
    let removed = load-remove token token m in
    (
      ground (arith, str_eq_refl staker, str_eq_refl token, saved, removed),
      ground (arith, str_eq_refl staker, str_eq_refl token, saved, removed),
      λ a k ne. ground (
        arith,
        str_eq_iff staker a,
        str_eq_iff k token,
        load-save token k info m,
        load-remove token k m,
      ),
      λ h a. ground (arith, save-IsKeyed token info m, remove-IsKeyed token m, h a, h staker),
    )

pub update-frame :
    (s : State) (token staker : Addr) (info : RewardInfo) (pending : Bool)
    → let t = update_or_remove_staker_rewards s staker token info pending in
      (t.pools ≡ s.pools) × (t.unbond_orders ≡ s.unbond_orders) × (t.config ≡ s.config)
unfolding update_or_remove_staker_rewards
update-frame s token staker info pending = ground arith

same_or_other : (a b k l : Addr) → ((a ≡ b) × (k ≡ l)) ⊎ ((a ≢ b) ⊎ (k ≢ l))
same_or_other a b k l = ground (arith, str_eq_iff a b, str_eq_iff k l)

pub effect-Moves :
    (s t : State) (token staker : Addr) (pool after : PoolInfo) (info : RewardInfo)
    (orders : OrderedMap ℕ)
    → Named.load token s.pools ≡ some pool
    → t.pools ≡ Named.save token after s.pools
    → SetsReward s t token staker info
    → SetsOrders s t token staker orders
    → IsOrdered 0 orders
    → after.total_bond_amount + staked s token staker ≡ pool.total_bond_amount + info.bond_amount
    → after.total_pending_withdraw + owed s token staker
      ≡ pool.total_pending_withdraw + (info.withdrawable_amount + total_of orders)
    → Moves s t token staker
effect-Moves s t token staker pool after info orders found pools reward kept ordered bond debt =
    let (in_bond, in_debt, others, filed) = reward in
    let (now, elsewhere) = kept in
    let loads : (k : Addr)
        → Named.load k t.pools ≡ (if str_eq k token then some after else Named.load k s.pools) =
      λ k. ap (Named.load k) pools ∙ load-save token k after s.pools in
    let there : Named.load token t.pools ≡ some after =
      loads token ∙ ground (arith, str_eq_refl token) in
    record {
      keyed = λ h. subst IsKeyed (sym pools) (save-IsKeyed token after s.pools h);
      filed = filed;
      ordered = λ h a k. elim (same_or_other a staker k token) [
        | inl (p, q) ↦ ground (arith, now)
        | inr ne ↦ subst (IsOrdered 0) (sym (elsewhere a k ne)) (h a k)
      ];
      other_pools = λ k ne.
          let same : Named.load k t.pools ≡ Named.load k s.pools =
            loads k ∙ ground (arith, str_eq_iff k token) in
          (ap total_bond_in same, ap total_pending_in same);
      other_tokens = λ k a ne.
          let same = others a k (inr ne) in
          (
            ap bond_in same,
            omega (arith, ap withdrawable_in same, ap total_of (elsewhere a k (inr ne))),
          );
      other_stakers = λ a ne.
          let same = others a token (inl ne) in
          (
            ap bond_in same,
            omega (arith, ap withdrawable_in same, ap total_of (elsewhere a token (inl ne))),
          );
      bond = omega (arith, ap total_bond_in there, ap total_bond_in found, in_bond, bond);
      debt = omega (
        arith,
        ap total_pending_in there,
        ap total_pending_in found,
        in_debt,
        debt,
        ap total_of now,
      );
    }

-- A handler that ends in the storing of one record and one pool.
pub store-IsBacked :
    (s u x t : State) (token staker : Addr) (pool after : PoolInfo) (info : RewardInfo)
    (orders : OrderedMap ℕ)
    → Named.load token s.pools ≡ some pool
    → t.pools ≡ Named.save token after s.pools
    → SetsReward u x token staker info
    → t.reward_info ≡ x.reward_info
    → u.reward_info ≡ s.reward_info
    → SetsOrders s t token staker orders
    → IsOrdered 0 orders
    → after.total_bond_amount + staked s token staker ≡ pool.total_bond_amount + info.bond_amount
    → after.total_pending_withdraw + owed s token staker
      ≡ pool.total_pending_withdraw + (info.withdrawable_amount + total_of orders)
    → IsBacked s
    → IsBacked t
store-IsBacked s u x t token staker pool after info orders found pools sets set same kept ordered
      bond debt =
    let (in_bond, in_debt, others, filed) = sets in
    let look = λ (a k : Addr) (m : Addr → NamedMap RewardInfo). Named.load k (m a) in
    let reward : SetsReward s t token staker info = (
      ap bond_in (ap (look staker token) set) ∙ in_bond,
      ap withdrawable_in (ap (look staker token) set) ∙ in_debt,
      λ a k ne. ap (look a k) set ∙ others a k ne ∙ ap (look a k) same,
      λ h a.
          subst (λ (m : Addr → NamedMap RewardInfo). IsKeyed (m a)) (sym set)
            (filed (λ b. subst (λ (m : Addr → NamedMap RewardInfo). IsKeyed (m b)) (sym same) (h b))
              a),
    ) in
    Moves-IsBacked s t token staker (
      effect-Moves s t token staker pool after info orders found pools reward kept ordered bond
        debt)

-- A handler that ends in `update_or_remove_staker_rewards` and the storing of the pool.
pub settle-IsBacked :
    (s u t : State) (token staker : Addr) (pool after : PoolInfo) (info : RewardInfo)
    (orders : OrderedMap ℕ) (pending : Bool)
    → Named.load token s.pools ≡ some pool
    → t.pools ≡ Named.save token after s.pools
    → t.reward_info ≡ (update_or_remove_staker_rewards u staker token info pending).reward_info
    → u.reward_info ≡ s.reward_info
    → SetsOrders s t token staker orders
    → IsOrdered 0 orders
    → after.total_bond_amount + staked s token staker ≡ pool.total_bond_amount + info.bond_amount
    → after.total_pending_withdraw + owed s token staker
      ≡ pool.total_pending_withdraw + (info.withdrawable_amount + total_of orders)
    → IsBacked s
    → IsBacked t
settle-IsBacked s u t token staker pool after info orders pending found pools =
    let x = update_or_remove_staker_rewards u staker token info pending in
    store-IsBacked s u x t token staker pool after info orders found pools
      (update-SetsReward u token staker info pending)
