-- ===== src/LpStaking/Stakes/Bonds.antt =====
-- Bonding keeps what a pool's totals cover.
use prism_contracts.Prelude.{
  ℕ, ◌+◌, ◌≤◌, ◌≡◌, ◌⊎◌, refl, str_eq_refl, sym, ◌∙◌, ap, Option, none, some, List, [], arith,
  Result, ok, ◌>>=◌, inl, inr, Result-cases, bind-ok, Option-cases, unwrap_or,
}
use prism_contracts.Cosmwasm.{Std, IsStd}
use prism_contracts.Storage.{Addr, set_at}
use prism_contracts.Storage.Keys.{add_key}
use prism_contracts.Storage.Named
use prism_contracts.Storage.Named.{load-save}
use prism_contracts.Messages.{Env, CosmosMsg}
use prism_contracts.Querier.{Querier, query_token_balance}
use prism_contracts.LpStaking.{
  Response, ContractError, Config, State, PoolInfo, RewardInfo, default_reward,
}
use prism_contracts.LpStaking.Rewards.{compute_pool_reward, compute_staker_reward}
use prism_contracts.LpStaking.Rewards.Frame.{compute_pool_reward-same, compute_staker_reward-same}
use prism_contracts.LpStaking.Orders.{pull_expired_withdraw_orders, set_orders, save_reward}
use prism_contracts.LpStaking.Orders.Pull.{pull_expired-moves}
use prism_contracts.LpStaking.Backed.{
  IsBacked, bond_in, withdrawable_in, total_bond, total_pending, total_bond_in, total_pending_in,
}
use prism_contracts.LpStaking.Effect.{
  SetsOrders-eq, set_orders-SetsOrders, save_reward-SetsReward, store-IsBacked,
}
use prism_contracts.LpStaking.Stakes.{save_pool, bond, increase_bond_amount, auto_stake_hook}

module _ (ops : Std) (law : IsStd ops) where
  increase-moves :
      (pool pool' : PoolInfo) (info info' : RewardInfo) (amount : ℕ)
      → increase_bond_amount ops pool info amount ≡ ok (pool', info')
      → (pool'.total_bond_amount ≡ pool.total_bond_amount + amount)
        × (info'.bond_amount ≡ info.bond_amount + amount)
        × (pool'.total_pending_withdraw ≡ pool.total_pending_withdraw)
        × (info'.withdrawable_amount ≡ info.withdrawable_amount)
  unfolding increase_bond_amount
  increase-moves pool pool' info info' amount e =
      ground (arith, law.add_eq pool.total_bond_amount amount, law.add_eq info.bond_amount amount)

  -- The rest of a bonding, once the pool is known.
  bond_pooled : State → Config → Env → Addr → Addr → ℕ → PoolInfo → Result ContractError Response
  bond_pooled s cfg env token sender amount pool = do
    let info = unwrap_or (Named.load token (s.reward_info sender)) default_reward
    (s, info, _) ←
        pull_expired_withdraw_orders ops s sender token info env.seconds pool.unbond_period
    pool ← compute_pool_reward ops cfg pool env.seconds
    info ← compute_staker_reward ops pool info
    (pool, info) ← increase_bond_amount ops pool info amount
    let s = save_reward sender token info s
    let s = record s {
      staker_by_token = set_at token (add_key sender (s.staker_by_token token)) s.staker_by_token;
    }
    ok (save_pool token pool s, [])

  in_default :
      (o : Option RewardInfo)
      → (bond_in o ≡ (unwrap_or o default_reward).bond_amount)
        × (withdrawable_in o ≡ (unwrap_or o default_reward).withdrawable_amount)
  in_default none = (refl, refl)
  in_default (some info) = (refl, refl)

  bond_pooled-IsBacked :
      (s t : State) (cfg : Config) (env : Env) (sender token : Addr) (amount : ℕ) (pool : PoolInfo)
      (msgs : List CosmosMsg)
      → Named.load token s.pools ≡ some pool
      → bond_pooled s cfg env token sender amount pool ≡ ok (t, msgs)
      → IsBacked s
      → IsBacked t
        × (total_bond t token ≡ pool.total_bond_amount + amount)
        × (total_pending t token ≡ pool.total_pending_withdraw)
  unfolding bond_pooled
  bond_pooled-IsBacked s t cfg env sender token amount pool msgs e1 e h =
      let info = unwrap_or (Named.load token (s.reward_info sender)) default_reward in
      let period = pool.unbond_period in
      bind-ok (pull_expired_withdraw_orders ops s sender token info env.seconds period) e
        λ (s1, info1, pending) e3 k3.
          bind-ok (compute_pool_reward ops cfg pool env.seconds) k3 λ pool2 e4 k4.
            bind-ok (compute_staker_reward ops pool2 info1) k4 λ info2 e5 k5.
              bind-ok (increase_bond_amount ops pool2 info2 amount) k5 λ (pool3, info3) e6 k6.
                let (orders, new, sorted, debt, same) =
                  pull_expired-moves ops law s s1 sender token info info1 env.seconds period pending
                    (h.ordered sender token) e3 in
                let (bonded, waiting, _, _) =
                  compute_pool_reward-same ops cfg pool pool2 env.seconds e4 in
                let (own, mine) = compute_staker_reward-same ops pool2 info1 info2 e5 in
                let (more, own_more, waiting2, mine2) =
                  increase-moves pool2 pool3 info2 info3 amount e6 in
                let (own0, mine0) = in_default (Named.load token (s.reward_info sender)) in
                let x = save_reward sender token info3 s1 in
                let pools : t.pools ≡ Named.save token pool3 s1.pools = ground arith in
                let rewards : t.reward_info ≡ x.reward_info = ground arith in
                let kept : t.unbond_orders ≡ s1.unbond_orders = ground arith in
                let there : Named.load token t.pools ≡ some pool3 =
                  ap (Named.load token) pools
                  ∙ load-save token token pool3 s1.pools
                  ∙ ground (arith, str_eq_refl token) in
                (
                  store-IsBacked s s1 x t token sender pool pool3 info3 orders e1
                      (pools ∙ ap (λ (y : State). Named.save token pool3 y.pools) new)
                      (save_reward-SetsReward s1 token sender info3) rewards
                      (ap (λ (y : State). y.reward_info) new)
                      (SetsOrders-eq s (set_orders sender token orders s) t token sender orders
                        (kept ∙ ap (λ (y : State). y.unbond_orders) new)
                        (set_orders-SetsOrders s token sender orders))
                      sorted (omega (arith, own0, same, bonded, own, more, own_more))
                      (omega (arith, mine0, debt, waiting, mine, waiting2, mine2)) h,
                  omega (arith, ap total_bond_in there, bonded, more),
                  omega (arith, ap total_pending_in there, waiting, waiting2),
                )

  pub bond-IsBacked :
      (s t : State) (env : Env) (sender token : Addr) (amount : ℕ) (given : Option PoolInfo)
      (msgs : List CosmosMsg)
      → (given ≡ none) ⊎ (given ≡ Named.load token s.pools)
      → bond ops s env token sender amount given ≡ ok (t, msgs)
      → IsBacked s
      → IsBacked t
        × (total_bond t token ≡ total_bond s token + amount)
        × (total_pending t token ≡ total_pending s token)
  unfolding bond bond_pooled
  bond-IsBacked s t env sender token amount given msgs from e h = elim (Option-cases s.config) [
    | inl bad ↦ absurd (ground arith)
    | inr (cfg, e0) ↦ elim (Option-cases (Named.load token s.pools)) [
      | inl bad ↦ absurd (ground arith)
      | inr (pool, e1) ↦ elim from [
        | inl none_given ↦
            let run : bond ops s env token sender amount none ≡ ok (t, msgs) =
              ap (λ g. bond ops s env token sender amount g) (sym none_given) ∙ e in
            let (backed, bonded, waiting) =
              bond_pooled-IsBacked s t cfg env sender token amount pool msgs e1 (ground arith) h in
            (
              backed,
              omega (arith, bonded, ap total_bond_in e1),
              omega (arith, waiting, ap total_pending_in e1),
            )
        | inr loaded ↦
            let run : bond ops s env token sender amount (some pool) ≡ ok (t, msgs) =
              ap (λ g. bond ops s env token sender amount g) (sym (loaded ∙ e1)) ∙ e in
            let (backed, bonded, waiting) =
              bond_pooled-IsBacked s t cfg env sender token amount pool msgs e1 (ground arith) h in
            (
              backed,
              omega (arith, bonded, ap total_bond_in e1),
              omega (arith, waiting, ap total_pending_in e1),
            )
      ]
    ]
  ]

  -- To stake what the contract holds beyond its debts keeps what the totals cover, and leaves
  -- nothing over: stakes and debts are then as much as the contract holds.
  pub auto_stake_hook-sweeps :
      (q : Querier) (s t : State) (env : Env) (token sender : Addr) (msgs : List CosmosMsg)
      → auto_stake_hook ops q s env token sender ≡ ok (t, msgs)
      → IsBacked s
      → IsBacked t
        × (query_token_balance q token env.address
            ≡ ok (total_bond t token + total_pending t token))
        × (total_bond s token ≤ total_bond t token)
  unfolding auto_stake_hook
  auto_stake_hook-sweeps q s t env token sender msgs e h =
      elim (Result-cases (query_token_balance q token env.address)) [
        | inr bad ↦ absurd (ground arith)
        | inl (balance, e1) ↦ elim (Option-cases (Named.load token s.pools)) [
          | inl bad ↦ absurd (ground arith)
          | inr (pool, e2) ↦
              let sub1 = law.sub_eq balance pool.total_bond_amount in
              elim (Option-cases (ops.sub balance pool.total_bond_amount)) [
                | inl bad ↦ absurd (ground arith)
                | inr (rest, e3) ↦
                    let sub2 = law.sub_eq rest pool.total_pending_withdraw in
                    elim (Option-cases (ops.sub rest pool.total_pending_withdraw)) [
                      | inl bad ↦ absurd (ground arith)
                      | inr (amount, e4) ↦
                          let (backed, bonded, waiting) =
                            bond-IsBacked s t env sender token amount (some pool) msgs
                              (inr (sym e2)) (ground arith) h in
                          let first : balance ≡ rest + pool.total_bond_amount = ground arith in
                          let second : rest ≡ amount + pool.total_pending_withdraw = ground arith in
                          let all : balance ≡ total_bond t token + total_pending t token = omega (
                            arith,
                            first,
                            second,
                            bonded,
                            waiting,
                            ap total_bond_in e2,
                            ap total_pending_in e2,
                          ) in
                          (backed, e1 ∙ ap ok all, omega (arith, bonded))
                    ]
              ]
        ]
      ]
