-- ===== src/LpStaking/Stakes/Keep.antt =====
-- The claims keep what a pool's totals cover.
use prism_contracts.Prelude.{
  ℕ, ◌-◌, ◌≤◌, ◌≡◌, ◌≢◌, refl, str_eq_refl, str_eq_iff, sym, ◌∙◌, ap, subst, Option, none, some,
  List, [], ◌∷◌, arith, ok, inl, inr, Result-cases, bind-ok, map_err, Option-cases,
}
use prism_contracts.Cosmwasm.{Std, IsStd}
use prism_contracts.Storage.{Addr}
use prism_contracts.Storage.Named
use prism_contracts.Storage.Named.{NamedMap, IsKeyed}
use prism_contracts.Messages.{load_item, Env, CosmosMsg}
use prism_contracts.LpStaking.{std, Config, State, PoolInfo, RewardInfo}
use prism_contracts.LpStaking.Rewards.{compute_pool_reward, compute_staker_reward}
use prism_contracts.LpStaking.Rewards.Frame.{compute_pool_reward-same, compute_staker_reward-same}
use prism_contracts.LpStaking.Orders.{
  pull_expired_withdraw_orders, set_orders, update_or_remove_staker_rewards,
}
use prism_contracts.LpStaking.Orders.Pull.{pull_expired-moves}
use prism_contracts.LpStaking.Backed.{IsBacked, bond_in, withdrawable_in}
use prism_contracts.LpStaking.Effect.{
  SetsOrders-eq, set_orders-SetsOrders, update-SetsReward, update-frame, settle-IsBacked,
}
use prism_contracts.LpStaking.Stakes.{
  save_pool, bond, claim_unbonded, claim_reward, rewards_of, claim_all, claim_rewards,
}

module _ (ops : Std) (law : IsStd ops) where
  pub claim_unbonded-IsBacked :
      (s t : State) (env : Env) (sender token : Addr) (msgs : List CosmosMsg)
      → claim_unbonded ops s env sender token ≡ ok (t, msgs)
      → IsBacked s
      → IsBacked t
  unfolding claim_unbonded
  claim_unbonded-IsBacked s t env sender token msgs e h =
      elim (Option-cases (Named.load token s.pools)) [
        | inl bad ↦ absurd (ground arith)
        | inr (pool, e1) ↦ elim (Option-cases (Named.load token (s.reward_info sender))) [
          | inl bad ↦ absurd (ground arith)
          | inr (info, e2) ↦
              elim (Result-cases (
                pull_expired_withdraw_orders ops s sender token info env.seconds
                  pool.unbond_period)) [
                    | inr bad ↦ absurd (ground arith)
                    | inl ((s1, info1, pending), e3) ↦
                        let (orders, new, sorted, debt, same) =
                          pull_expired-moves ops law s s1 sender token info info1 env.seconds
                            pool.unbond_period pending (h.ordered sender token) e3 in
                        let amount = info1.withdrawable_amount in
                        let info2 : RewardInfo = record info1 { withdrawable_amount = 0 } in
                        let pool2 : PoolInfo = record pool {
                          total_pending_withdraw = pool.total_pending_withdraw - amount;
                        } in
                        let u = save_pool token pool2 s1 in
                        let sub = law.sub_eq pool.total_pending_withdraw amount in
                        let result : t
                            ≡ update_or_remove_staker_rewards u sender token info2 pending =
                          ground (arith, sub) in
                        let small : amount ≤ pool.total_pending_withdraw = ground (arith, sub) in
                        let frame = update-frame u token sender info2 pending in
                        settle-IsBacked s u t token sender pool pool2 info2 orders pending e1
                          (ap (λ (x : State). x.pools) result
                            ∙ frame.0
                            ∙ ap (λ (x : State). Named.save token pool2 x.pools) new)
                          (ap (λ (x : State). x.reward_info) result)
                          (ap (λ (x : State). x.reward_info) new)
                          (SetsOrders-eq s (set_orders sender token orders s) t token sender orders
                            (ap (λ (x : State). x.unbond_orders) result
                              ∙ frame.1
                              ∙ ap (λ (x : State). x.unbond_orders) new)
                            (set_orders-SetsOrders s token sender orders))
                          sorted (omega (arith, ap bond_in e2, same))
                          (omega (arith, ap withdrawable_in e2, debt, small)) h
                  ]
        ]
      ]

  -- A round of the claim leaves the records of the other tokens alone.
  claim_reward-IsBacked :
      (s t : State) (cfg : Config) (env : Env) (sender token : Addr) (info : RewardInfo)
      (claimed total : ℕ)
      → Named.load token (s.reward_info sender) ≡ some info
      → claim_reward ops cfg env sender s claimed token info ≡ ok (t, total)
      → IsBacked s
      → IsBacked t
        × ((k : Addr)
            → k ≢ token
            → Named.load k (t.reward_info sender) ≡ Named.load k (s.reward_info sender))
  unfolding claim_reward
  claim_reward-IsBacked s t cfg env sender token info claimed total e2 e h =
      bind-ok (map_err std (load_item (Named.load token s.pools))) e λ pool e1 k1.
        bind-ok
          (pull_expired_withdraw_orders ops s sender token info env.seconds pool.unbond_period) k1
          λ (s1, info1, pending) e3 k3.
            bind-ok (compute_pool_reward ops cfg pool env.seconds) k3 λ pool2 e4 k4.
              bind-ok (compute_staker_reward ops pool2 info1) k4 λ info2 e5 k5.
                let (orders, new, sorted, debt, same) =
                  pull_expired-moves ops law s s1 sender token info info1 env.seconds
                    pool.unbond_period pending (h.ordered sender token) e3 in
                let (bond, waiting, period, weight) =
                  compute_pool_reward-same ops cfg pool pool2 env.seconds e4 in
                let (own, withdrawable) = compute_staker_reward-same ops pool2 info1 info2 e5 in
                let info3 : RewardInfo = record info2 { pending_reward = 0 } in
                let u = update_or_remove_staker_rewards s1 sender token info3 pending in
                let result : t ≡ save_pool token pool2 u =
                  ground (arith, law.add_eq claimed info2.pending_reward) in
                let frame = update-frame s1 token sender info3 pending in
                let reward = update-SetsReward s1 token sender info3 pending in
                (
                  settle-IsBacked s s1 t token sender pool pool2 info3 orders pending (ground arith)
                      (ap (λ (x : State). x.pools) result
                        ∙ ap (Named.save token pool2) frame.0
                        ∙ ap (λ (x : State). Named.save token pool2 x.pools) new)
                      (ap (λ (x : State). x.reward_info) result)
                      (ap (λ (x : State). x.reward_info) new)
                      (SetsOrders-eq s (set_orders sender token orders s) t token sender orders
                        (ap (λ (x : State). x.unbond_orders) result
                          ∙ frame.1
                          ∙ ap (λ (x : State). x.unbond_orders) new)
                        (set_orders-SetsOrders s token sender orders))
                      sorted (omega (arith, ap bond_in e2, same, bond, own))
                      (omega (arith, ap withdrawable_in e2, debt, waiting, withdrawable)) h,
                  λ k ne.
                      ap (λ (x : State). Named.load k (x.reward_info sender)) result
                      ∙ reward.2 sender k (inr ne)
                      ∙ ap (λ (x : State). Named.load k (x.reward_info sender)) new,
                )

  claim_all-IsBacked :
      (cfg : Config) (env : Env) (sender : Addr) (infos : NamedMap RewardInfo) (s t : State)
      (claimed total : ℕ)
      → IsKeyed infos
      → ((k : Addr) (info : RewardInfo)
          → Named.load k infos ≡ some info
          → Named.load k (s.reward_info sender) ≡ some info)
      → claim_all ops cfg env sender s claimed infos ≡ ok (t, total)
      → IsBacked s
      → IsBacked t
  unfolding claim_all
  claim_all-IsBacked cfg env sender [] s t claimed total keyed part e h =
      let same : t ≡ s = ground arith in subst IsBacked (sym same) h
  claim_all-IsBacked cfg env sender ((token, info) ∷ rest) s t claimed total keyed part e h =
      elim (Result-cases (claim_reward ops cfg env sender s claimed token info)) [
        | inr bad ↦ absurd (ground arith)
        | inl ((u, sum), e1) ↦
            let (backed, others) =
              claim_reward-IsBacked s u cfg env sender token info claimed sum
                (part token info (ground (arith, str_eq_refl token))) e1 h in
            claim_all-IsBacked cfg env sender rest u t sum total keyed.1
              (λ k w found.
                let apart : k ≢ token = λ eq. absurd (ground (arith, keyed.0)) in
                others k apart ∙ part k w (ground (arith, str_eq_iff k token)))
              (ground arith) backed
      ]

  pub claim_rewards-IsBacked :
      (s t : State) (env : Env) (sender : Addr) (token : Option Addr) (msgs : List CosmosMsg)
      → claim_rewards ops s env sender token ≡ ok (t, msgs)
      → IsBacked s
      → IsBacked t
  unfolding claim_rewards rewards_of
  claim_rewards-IsBacked s t env sender none msgs e h = elim (Option-cases s.config) [
    | inl bad ↦ absurd (ground arith)
    | inr (cfg, e1) ↦
        elim (Result-cases (claim_all ops cfg env sender s 0 (s.reward_info sender))) [
          | inr bad ↦ absurd (ground arith)
          | inl ((u, total), e2) ↦
              let same : t ≡ u = ground arith in
              subst IsBacked (sym same) (
                claim_all-IsBacked cfg env sender (s.reward_info sender) s u 0 total
                  (h.filed sender) (λ k w found. found) e2 h)
        ]
  ]
  claim_rewards-IsBacked s t env sender (some token) msgs e h = elim (Option-cases s.config) [
    | inl bad ↦ absurd (ground arith)
    | inr (cfg, e1) ↦ elim (Option-cases (Named.load token (s.reward_info sender))) [
      | inl bad ↦ absurd (ground arith)
      | inr (info, e2) ↦
          elim (Result-cases (claim_all ops cfg env sender s 0 ((token, info) ∷ []))) [
            | inr bad ↦ absurd (ground arith)
            | inl ((u, total), e3) ↦
                let same : t ≡ u = ground arith in
                subst IsBacked (sym same) (
                  claim_all-IsBacked cfg env sender ((token, info) ∷ []) s u 0 total (refl, tt)
                    (λ k w found. ground (arith, str_eq_iff k token)) e3 h)
          ]
    ]
  ]
