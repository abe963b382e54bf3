-- ===== src/LpStaking/Entry/Invariant.antt =====
-- What the contract's totals cover, over all messages.
use prism_contracts.Prelude.{
  ℕ, ◌≡◌, refl, sym, ◌∙◌, subst, none, some, List, [], ◌∷◌, String, arith, Result, ok, inl, inr,
  Result-cases,
}
use prism_contracts.Cosmwasm.{Std, IsStd}
use prism_contracts.Storage.{Addr}
use prism_contracts.Messages.{StdError, Env, CosmosMsg, Validator}
use prism_contracts.Querier.{Querier}
use prism_contracts.LpStaking.{State, new_pool}
use prism_contracts.Storage.Sums.{sum_by}
use prism_contracts.LpStaking.Stakes.{save_pool}
use prism_contracts.LpStaking.Stakes.Keep.{claim_unbonded-IsBacked, claim_rewards-IsBacked}
use prism_contracts.LpStaking.Stakes.Bonds.{bond-IsBacked, auto_stake_hook-sweeps}
use prism_contracts.LpStaking.Stakes.Unbonds.{unbond-IsBacked}
use prism_contracts.LpStaking.Pools.Owner.{
  config-SameTotals, update_owner-ByOwner, add_schedule-ByOwner, register-ByOwner,
  update_token-ByOwner,
}
use prism_contracts.LpStaking.Pools.Keep.{
  SameTotals, SameTotals-refl, SameTotals-trans, SameTotals-IsBacked, save_pool-SameTotals,
}
use prism_contracts.LpStaking.Backed.{IsBacked, total_bond, total_pending}
use prism_contracts.LpStaking.Entry.{
  InstantiateMsg, StakingToken, ExecuteMsg, Cw20HookMsg, add_pools, check_first_schedule,
  sort_tokens, dedup_tokens, sum_weights, instantiate, receive_cw20, optional_address, execute,
}

abbrev empty : State
empty = record {
  config = none;
  pools = [];
  reward_info = λ _. [];
  unbond_orders = λ _ _. [];
  staker_by_token = λ _. [];
}

sum_zero : (xs : List Addr) → sum_by (λ _. 0) xs ≡ 0
sum_zero [] = refl
sum_zero (x ∷ xs) = omega (arith, sum_zero xs)

empty-IsBacked : IsBacked empty
empty-IsBacked = record {
  keyed = tt;
  filed = λ a. tt;
  ordered = λ a k. tt;
  bonds = λ k xs d. omega (arith, sum_zero xs);
  debts = λ k xs d. omega (arith, sum_zero xs);
}

module _ (addr_validate : Validator) where
  -- Pools are only added without anything staked.
  add_pools-SameTotals :
      (now : ℕ) (ts : List StakingToken) (s t : State)
      → ((k : Addr) → total_bond s k ≡ 0)
      → ((k : Addr) → total_pending s k ≡ 0)
      → add_pools addr_validate now ts s ≡ ok t
      → SameTotals s t
  unfolding add_pools
  add_pools-SameTotals now [] s t zero_bond zero_debt e =
      let same : t ≡ s = ground arith in subst (SameTotals s) (sym same) (SameTotals-refl s)
  add_pools-SameTotals now ((a, weight, period) ∷ ts) s t zero_bond zero_debt e =
      elim (Result-cases (addr_validate a)) [
        | inr bad ↦ absurd (ground arith)
        | inl (token, e1) ↦
            let pool = new_pool now weight period in
            let u = save_pool token pool s in
            let here =
              save_pool-SameTotals s token pool (sym (zero_bond token)) (sym (zero_debt token)) in
            SameTotals-trans s u t here (
              add_pools-SameTotals now ts u t (λ k. here.bonds k ∙ zero_bond k)
                (λ k. here.debts k ∙ zero_debt k) (ground arith))
      ]

  -- A contract that was instantiated covers what is staked and what waits.
  pub instantiate-IsBacked :
      (env : Env) (msg : InstantiateMsg) (t : State) (msgs : List CosmosMsg)
      → instantiate addr_validate env msg ≡ ok (t, msgs)
      → IsBacked t
  unfolding instantiate
  instantiate-IsBacked env msg t msgs e =
      let tokens = dedup_tokens (sort_tokens msg.staking_tokens) in
      elim (Result-cases (check_first_schedule msg.distribution_schedule)) [
        | inr bad ↦ absurd (ground arith)
        | inl (u, e1) ↦ elim (Result-cases (addr_validate msg.owner)) [
          | inr bad ↦ absurd (ground arith)
          | inl (owner, e2) ↦ elim (Result-cases (addr_validate msg.prism_token)) [
            | inr bad ↦ absurd (ground arith)
            | inl (prism, e3) ↦ elim (Result-cases (sum_weights tokens 0)) [
              | inr bad ↦ absurd (ground arith)
              | inl (total, e4) ↦
                  elim (Result-cases (add_pools addr_validate env.seconds tokens empty)) [
                    | inr bad ↦ absurd (ground arith)
                    | inl (s, e5) ↦
                        let same =
                          add_pools-SameTotals env.seconds tokens empty s (λ k. refl) (λ k. refl)
                            e5 in
                        let new : t ≡ record s { config = t.config } = ground arith in
                        subst IsBacked (sym new) (
                          SameTotals-IsBacked s (record s { config = t.config })
                            (config-SameTotals s t.config)
                            (SameTotals-IsBacked empty s same empty-IsBacked))
                  ]
            ]
          ]
        ]
      ]

  module _ (ops : Std) (law : IsStd ops) (q : Querier)
      (from_binary : String → Result StdError Cw20HookMsg) where
    -- Every message keeps the pools' totals: the stakes of any stakers of a token, each counted once,
    -- are at most the pool's total, and what may be withdrawn or still waits is at most what the
    -- pool holds for it.
    pub execute-IsBacked :
        (s t : State) (env : Env) (sender : Addr) (msg : ExecuteMsg) (msgs : List CosmosMsg)
        → execute addr_validate ops q from_binary s env sender msg ≡ ok (t, msgs)
        → IsBacked s
        → IsBacked t
    unfolding execute receive_cw20 optional_address
    execute-IsBacked s t env sender (ExecuteMsg.receive m) msgs e h =
        elim (Result-cases (addr_validate m.sender)) [
          | inr bad ↦ absurd (ground arith)
          | inl (staker, e1) ↦ elim (Result-cases (from_binary m.msg)) [
            | inr bad ↦ absurd (ground arith)
            | inl (Cw20HookMsg.bond, e2) ↦
                (bond-IsBacked ops law s t env staker sender m.amount none msgs (inl refl)
                  (ground arith) h).0
          ]
        ]
    execute-IsBacked s t env sender (ExecuteMsg.update_owner owner) msgs e h =
        elim (Result-cases (addr_validate owner)) [
          | inr bad ↦ absurd (ground arith)
          | inl (a, e1) ↦ (update_owner-ByOwner s t sender a msgs (ground arith)).3 h
        ]
    execute-IsBacked s t env sender (ExecuteMsg.add_distribution_schedule schedule) msgs e h =
        (add_schedule-ByOwner s t env sender schedule msgs e).3 h
    execute-IsBacked s t env sender (ExecuteMsg.register_staking_token token period weight) msgs e
          h =
        elim (Result-cases (addr_validate token)) [
          | inr bad ↦ absurd (ground arith)
          | inl (a, e1) ↦
              (register-ByOwner ops s t env sender a period weight msgs (ground arith)).3 h
        ]
    execute-IsBacked s t env sender (ExecuteMsg.update_staking_token token period weight) msgs e h =
        elim (Result-cases (addr_validate token)) [
          | inr bad ↦ absurd (ground arith)
          | inl (a, e1) ↦
              (update_token-ByOwner ops s t env sender a period weight msgs (ground arith)).3 h
        ]
    execute-IsBacked s t env sender (ExecuteMsg.unbond token amount) msgs e h =
        elim (Result-cases (addr_validate token)) [
          | inr bad ↦ absurd (ground arith)
          | inl (a, e1) ↦ unbond-IsBacked ops law s t env sender a amount msgs (ground arith) h
        ]
    execute-IsBacked s t env sender (ExecuteMsg.claim_unbonded token) msgs e h =
        elim (Result-cases (addr_validate token)) [
          | inr bad ↦ absurd (ground arith)
          | inl (a, e1) ↦ claim_unbonded-IsBacked ops law s t env sender a msgs (ground arith) h
        ]
    execute-IsBacked s t env sender (ExecuteMsg.claim_rewards none) msgs e h =
        claim_rewards-IsBacked ops law s t env sender none msgs e h
    execute-IsBacked s t env sender (ExecuteMsg.claim_rewards (some token)) msgs e h =
        elim (Result-cases (addr_validate token)) [
          | inr bad ↦ absurd (ground arith)
          | inl (a, e1) ↦
              claim_rewards-IsBacked ops law s t env sender (some a) msgs (ground arith) h
        ]
    execute-IsBacked s t env sender (ExecuteMsg.auto_stake_hook token) msgs e h =
        elim (Result-cases (addr_validate token)) [
          | inr bad ↦ absurd (ground arith)
          | inl (a, e1) ↦
              (auto_stake_hook-sweeps ops law q s t env a sender msgs (ground arith) h).0
        ]
