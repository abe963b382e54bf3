-- ===== src/LpStaking/Stakes/Unbonds.antt =====
-- Unbonding keeps what a pool's totals cover.
use prism_contracts.Prelude.{
  ℕ, ◌+◌, ◌≡◌, refl, sym, ◌∙◌, ap, subst, Bool, Option, some, List, arith, Result, ok, fail_if,
  ◌>>=◌, ◌>>◌, inl, inr, Result-cases, bind-ok, Option-cases, Bool-cases, ◌==◌,
}
use prism_contracts.Cosmwasm.{Std, IsStd}
use prism_contracts.Storage.{Addr}
use prism_contracts.Storage.Ordered
use prism_contracts.Storage.Ordered.{OrderedMap, IsOrdered, save-IsOrdered}
use prism_contracts.Storage.Named
use prism_contracts.Storage.Named.{load-save}
use prism_contracts.Messages.{Env, CosmosMsg}
use prism_contracts.LpStaking.{
  Response, ContractError, nothing_available_to_unbond, Config, State, PoolInfo, RewardInfo,
}
use prism_contracts.LpStaking.Rewards.{compute_pool_reward, compute_staker_reward}
use prism_contracts.LpStaking.Rewards.Frame.{compute_pool_reward-same, compute_staker_reward-same}
use prism_contracts.LpStaking.Orders.{
  pull_expired_withdraw_orders, set_orders, update_or_remove_staker_rewards,
}
use prism_contracts.LpStaking.Orders.Pull.{total_of, total_of-save, pull_expired-moves}
use prism_contracts.LpStaking.Backed.{IsBacked, bond_in, withdrawable_in}
use prism_contracts.LpStaking.Effect.{
  SetsOrders, SetsOrders-eq, set_orders-SetsOrders, update-frame, settle-IsBacked,
}
use prism_contracts.LpStaking.Stakes.{
  save_pool, decrease_bond_amount, amount_to_unbond, pay_or_order, unbond,
}

module _ (ops : Std) (law : IsStd ops) where
  -- What is taken from the stake, and what leaves or waits.
  pay_or_order-sets :
      (s t : State) (env : Env) (sender token : Addr) (pool after : PoolInfo) (amount : ℕ)
      (pending pending' : Bool) (msgs : List CosmosMsg)
      → IsOrdered 0 (s.unbond_orders sender token)
      → pay_or_order ops s env sender token pool amount pending ≡ ok (t, after, pending', msgs)
      → (orders : OrderedMap ℕ) × SetsOrders s t token sender orders
        × (t.pools ≡ s.pools)
        × (t.reward_info ≡ s.reward_info)
        × IsOrdered 0 orders
        × (after.total_pending_withdraw + total_of (s.unbond_orders sender token)
            ≡ pool.total_pending_withdraw + total_of orders)
        × (after.total_bond_amount ≡ pool.total_bond_amount)
  unfolding pay_or_order
  pay_or_order-sets s t env sender token pool after amount pending pending' msgs sorted e =
      let m = s.unbond_orders sender token in
      elim (Bool-cases (pool.unbond_period == 0)) [
        | inl at_once ↦
            let same : t ≡ s = ground arith in
            (
              m,
              subst (λ x. SetsOrders s x token sender m) (sym same) (refl, λ a k ne. refl),
              ap (λ (x : State). x.pools) same,
              ap (λ (x : State). x.reward_info) same,
              sorted,
              ground arith,
              ground arith,
            )
        | inr later ↦ elim (Option-cases (Ordered.load env.seconds m)) [
          | inr (order, bad) ↦ absurd (ground arith)
          | inl free ↦
              let orders = Ordered.save env.seconds amount m in
              let add = law.add_eq pool.total_pending_withdraw amount in
              let new : t ≡ set_orders sender token orders s = ground (arith, add) in
              (
                orders,
                subst (λ x. SetsOrders s x token sender orders) (sym new)
                    (set_orders-SetsOrders s token sender orders),
                ap (λ (x : State). x.pools) new,
                ap (λ (x : State). x.reward_info) new,
                save-IsOrdered env.seconds 0 amount m sorted (omega arith),
                ground (arith, add, total_of-save env.seconds amount m free),
                ground (arith, add),
              )
        ]
      ]

  decrease-moves :
      (pool pool' : PoolInfo) (info info' : RewardInfo) (amount : ℕ)
      → decrease_bond_amount ops pool info amount ≡ ok (pool', info')
      → (pool'.total_bond_amount + amount ≡ pool.total_bond_amount)
        × (info'.bond_amount + amount ≡ info.bond_amount)
        × (pool'.total_pending_withdraw ≡ pool.total_pending_withdraw)
        × (info'.withdrawable_amount ≡ info.withdrawable_amount)
  unfolding decrease_bond_amount
  decrease-moves pool pool' info info' amount e =
      ground (arith, law.sub_eq pool.total_bond_amount amount, law.sub_eq info.bond_amount amount)

  -- The rest of an unbonding, once the orders that are over have been pulled.
  unbond_pulled :
      State
      → Config
      → Env
      → Addr
      → Addr
      → PoolInfo
      → RewardInfo
      → Option ℕ
      → Bool
      → Result ContractError Response
  unbond_pulled s cfg env sender token pool info amount orders_pending = do
    fail_if (info.bond_amount == 0) nothing_available_to_unbond
    amount ← amount_to_unbond ops info amount
    pool ← compute_pool_reward ops cfg pool env.seconds
    info ← compute_staker_reward ops pool info
    (pool, info) ← decrease_bond_amount ops pool info amount
    (s, pool, orders_pending, msgs) ← pay_or_order ops s env sender token pool amount orders_pending
    let s = save_pool token pool s
    ok (update_or_remove_staker_rewards s sender token info orders_pending, msgs)

  unbond_pulled-IsBacked :
      (s s1 t : State) (cfg : Config) (env : Env) (sender token : Addr) (pool : PoolInfo)
      (info info1 : RewardInfo) (orders : OrderedMap ℕ) (amount : Option ℕ) (pending : Bool)
      (msgs : List CosmosMsg)
      → Named.load token s.pools ≡ some pool
      → Named.load token (s.reward_info sender) ≡ some info
      → SetsOrders s s1 token sender orders
      → s1.pools ≡ s.pools
      → s1.reward_info ≡ s.reward_info
      → IsOrdered 0 orders
      → info1.withdrawable_amount + total_of orders
        ≡ info.withdrawable_amount + total_of (s.unbond_orders sender token)
      → info1.bond_amount ≡ info.bond_amount
      → unbond_pulled s1 cfg env sender token pool info1 amount pending ≡ ok (t, msgs)
      → IsBacked s
      → IsBacked t
  unfolding unbond_pulled
  unbond_pulled-IsBacked s s1 t cfg env sender token pool info info1 orders amount pending msgs e1
        e2 pulled same_pools same_rewards sorted debt same e h =
      bind-ok (fail_if (info1.bond_amount == 0) nothing_available_to_unbond) e λ u0 e0 k0.
        bind-ok (amount_to_unbond ops info1 amount) k0 λ d e3 k3.
          bind-ok (compute_pool_reward ops cfg pool env.seconds) k3 λ pool2 e4 k4.
            bind-ok (compute_staker_reward ops pool2 info1) k4 λ info2 e5 k5.
              bind-ok (decrease_bond_amount ops pool2 info2 d) k5 λ (pool3, info3) e6 k6.
                bind-ok (pay_or_order ops s1 env sender token pool3 d pending) k6
                  λ (s2, pool4, pending2, out) e7 k7.
                    let (bonded, waiting, period, weight) =
                      compute_pool_reward-same ops cfg pool pool2 env.seconds e4 in
                    let (own, mine) = compute_staker_reward-same ops pool2 info1 info2 e5 in
                    let (less, own_less, waiting2, mine2) =
                      decrease-moves pool2 pool3 info2 info3 d e6 in
                    let (orders2, kept, pools2, rewards2, sorted2, debt2, bonded2) =
                      pay_or_order-sets s1 s2 env sender token pool3 pool4 d pending pending2 out
                        (subst (IsOrdered 0) (sym pulled.0) sorted) e7 in
                    let u = save_pool token pool4 s2 in
                    let frame = update-frame u token sender info3 pending2 in
                    let result : t ≡ update_or_remove_staker_rewards u sender token info3 pending2 =
                      ground arith in
                    settle-IsBacked s u t token sender pool pool4 info3 orders2 pending2 e1
                      (ap (λ (x : State). x.pools) result
                        ∙ frame.0
                        ∙ ap (Named.save token pool4) (pools2 ∙ same_pools))
                      (ap (λ (x : State). x.reward_info) result) (rewards2 ∙ same_rewards)
                      (SetsOrders-eq s s2 t token sender orders2
                        (ap (λ (x : State). x.unbond_orders) result ∙ frame.1)
                        (kept.0, λ a k ne. kept.1 a k ne ∙ pulled.1 a k ne))
                      sorted2
                      (omega (arith, ap bond_in e2, same, bonded, own, less, own_less, bonded2))
                      (omega (
                        arith,
                        ap withdrawable_in e2,
                        ap total_of pulled.0,
                        debt,
                        waiting,
                        mine,
                        waiting2,
                        mine2,
                        debt2,
                      ))
                      h

  pub unbond-IsBacked :
      (s t : State) (env : Env) (sender token : Addr) (amount : Option ℕ) (msgs : List CosmosMsg)
      → unbond ops s env sender token amount ≡ ok (t, msgs)
      → IsBacked s
      → IsBacked t
  unfolding unbond unbond_pulled
  unbond-IsBacked s t env sender token amount msgs e h = elim (Option-cases s.config) [
    | inl bad ↦ absurd (ground arith)
    | inr (cfg, e0) ↦ elim (Option-cases (Named.load token s.pools)) [
      | inl bad ↦ absurd (ground arith)
      | inr (pool, e1) ↦ elim (Option-cases (Named.load token (s.reward_info sender))) [
        | inl bad ↦ absurd (ground arith)
        | inr (info, e2) ↦
            let period = pool.unbond_period in
            elim (Result-cases
              (pull_expired_withdraw_orders ops s sender token info env.seconds period)) [
                | inr bad ↦ absurd (ground arith)
                | inl ((s1, info1, pending), e3) ↦
                    let (orders, new, sorted, debt, same) =
                      pull_expired-moves ops law s s1 sender token info info1 env.seconds period
                        pending (h.ordered sender token) e3 in
                    let pulled : SetsOrders s s1 token sender orders =
                      subst (λ x. SetsOrders s x token sender orders) (sym new)
                        (set_orders-SetsOrders s token sender orders) in
                    unbond_pulled-IsBacked s s1 t cfg env sender token pool info info1 orders amount
                      pending msgs e1 e2 pulled (ap (λ (x : State). x.pools) new)
                      (ap (λ (x : State). x.reward_info) new) sorted debt same (ground arith) h
              ]
      ]
    ]
  ]
