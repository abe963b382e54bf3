-- ===== src/LpStaking/Pools/Owner.antt =====
-- Each message of the owner keeps what the pools' totals cover, and comes from the owner.
use prism_contracts.Prelude.{
  ℕ, ◌+◌, ◌≡◌, refl, sym, ◌∙◌, ap, subst, false, Option, none, some, List, ◌++◌, arith, ok, inl,
  inr, Result-cases, Option-cases, Bool-cases, str_eq, str_eq_iff,
}
use prism_contracts.Cosmwasm.{Std}
use prism_contracts.Storage.{Addr}
use prism_contracts.Storage.Named
use prism_contracts.Messages.{Env, CosmosMsg}
use prism_contracts.LpStaking.{Config, Schedule, State, PoolInfo, new_pool}
use prism_contracts.LpStaking.Stakes.{save_pool}
use prism_contracts.LpStaking.Backed.{IsBacked, total_bond_in, total_pending_in}
use prism_contracts.LpStaking.Pools.{
  update_owner, check_schedule, add_distribution_schedule, refresh_pools, register_staking_token,
  reweigh_pools, set_weight, set_unbond_period, update_staking_token,
}
use prism_contracts.LpStaking.Pools.Keep.{
  SameTotals, SameTotals-refl, SameTotals-trans, SameTotals-IsBacked, save_pool-SameTotals,
  refresh_pools-SameTotals, reweigh_pools-SameTotals,
}

-- The sender is the owner, and the totals and the stakers stay.
abbrev pub ByOwner : State → State → Addr → Type 0
ByOwner s t sender =
    (cfg : Config) × (s.config ≡ some cfg) × (cfg.owner ≡ sender) × (IsBacked s → IsBacked t)

-- Only the configuration changes.
pub config-SameTotals : (s : State) (c : Option Config) → SameTotals s (record s { config = c })
config-SameTotals s c = record {
  keyed = λ h. h;
  bonds = λ k. refl;
  debts = λ k. refl;
  rewards = refl;
  orders = refl;
}

pub update_owner-ByOwner :
    (s t : State) (sender new_owner : Addr) (msgs : List CosmosMsg)
    → update_owner s sender new_owner ≡ ok (t, msgs)
    → ByOwner s t sender
unfolding update_owner
update_owner-ByOwner s t sender new_owner msgs e = elim (Option-cases s.config) [
  | inl bad ↦ absurd (ground arith)
  | inr (cfg, e1) ↦ elim (Bool-cases (str_eq cfg.owner sender)) [
    | inr bad ↦ absurd (ground arith)
    | inl eq ↦
        let new : t ≡ record s { config = some (record cfg { owner = new_owner }) } =
          ground arith in
        (
          cfg,
          e1,
          (str_eq_iff cfg.owner sender).0 eq,
          SameTotals-IsBacked s t (
              subst (SameTotals s) (sym new)
                (config-SameTotals s (some (record cfg { owner = new_owner })))),
        )
  ]
]

pub add_schedule-ByOwner :
    (s t : State) (env : Env) (sender : Addr) (schedule : List Schedule) (msgs : List CosmosMsg)
    → add_distribution_schedule s env sender schedule ≡ ok (t, msgs)
    → ByOwner s t sender
unfolding add_distribution_schedule
add_schedule-ByOwner s t env sender schedule msgs e = elim (Option-cases s.config) [
  | inl bad ↦ absurd (ground arith)
  | inr (cfg, e1) ↦ elim (Bool-cases (str_eq cfg.owner sender)) [
    | inr bad ↦ absurd (ground arith)
    | inl eq ↦ elim (Result-cases (check_schedule env.seconds schedule)) [
      | inr bad ↦ absurd (ground arith)
      | inl (u, e2) ↦
          let after : Config = record cfg {
            distribution_schedule = cfg.distribution_schedule ++ schedule;
          } in
          let new : t ≡ record s { config = some after } = ground arith in
          (
            cfg,
            e1,
            (str_eq_iff cfg.owner sender).0 eq,
            SameTotals-IsBacked s t
                (subst (SameTotals s) (sym new) (config-SameTotals s (some after))),
          )
    ]
  ]
]

module _ (ops : Std) where
  pub register-ByOwner :
      (s t : State) (env : Env) (sender token : Addr) (period weight : ℕ) (msgs : List CosmosMsg)
      → register_staking_token ops s env sender token period weight ≡ ok (t, msgs)
      → ByOwner s t sender
  unfolding register_staking_token
  register-ByOwner s t env sender token period weight msgs e = elim (Option-cases s.config) [
    | inl bad ↦ absurd (ground arith)
    | inr (cfg, e1) ↦ elim (Bool-cases (str_eq cfg.owner sender)) [
      | inr bad ↦ absurd (ground arith)
      | inl eq ↦ elim (Result-cases (refresh_pools ops cfg env.seconds token s.pools s)) [
        | inr bad ↦ absurd (ground arith)
        | inl (u, e2) ↦
            let pool = new_pool env.seconds weight period in
            let v = save_pool token pool u in
            let after : Config = record cfg { total_weight = cfg.total_weight + weight } in
            let new : t ≡ record v { config = some after } = ground arith in
            (
              cfg,
              e1,
              (str_eq_iff cfg.owner sender).0 eq,
              λ h.
                  let (same, fresh) =
                    refresh_pools-SameTotals ops cfg env.seconds token s.pools s u h.keyed
                      (λ k p found. found) e2 in
                  let added =
                    save_pool-SameTotals u token pool
                      (sym (same.bonds token ∙ ap total_bond_in fresh))
                      (sym (same.debts token ∙ ap total_pending_in fresh)) in
                  let changed =
                    SameTotals-trans s v (record v { config = some after })
                      (SameTotals-trans s u v same added) (config-SameTotals v (some after)) in
                  SameTotals-IsBacked s t (subst (SameTotals s) (sym new) changed) h,
            )
      ]
    ]
  ]

  set_weight-SameTotals :
      (s t : State) (env : Env) (token : Addr) (weight : Option ℕ) (cfg : Config)
      → set_weight ops s env token weight cfg ≡ ok t
      → IsBacked s
      → SameTotals s t
  unfolding set_weight
  set_weight-SameTotals s t env token none cfg e h =
      let same : t ≡ s = ground arith in subst (SameTotals s) (sym same) (SameTotals-refl s)
  set_weight-SameTotals s t env token (some weight) cfg e h =
      elim (Result-cases (reweigh_pools ops env.seconds token weight s.pools cfg false s)) [
        | inr bad ↦ absurd (ground arith)
        | inl ((cfg', found, u), e1) ↦
            let same =
              reweigh_pools-SameTotals ops env.seconds token weight s.pools cfg cfg' false found s u
                h.keyed (λ k p f. f) e1 in
            let new : t ≡ record u { config = some cfg' } = ground arith in
            subst (SameTotals s) (sym new) (
              SameTotals-trans s u (record u { config = some cfg' }) same
                (config-SameTotals u (some cfg')))
      ]

  set_period-SameTotals :
      (s t : State) (token : Addr) (period : Option ℕ)
      → set_unbond_period ops s token period ≡ ok t
      → SameTotals s t
  unfolding set_unbond_period
  set_period-SameTotals s t token none e =
      let same : t ≡ s = ground arith in subst (SameTotals s) (sym same) (SameTotals-refl s)
  set_period-SameTotals s t token (some period) e = elim (Option-cases (Named.load token s.pools)) [
    | inl bad ↦ absurd (ground arith)
    | inr (pool, found) ↦
        let after : PoolInfo = record pool { unbond_period = period } in
        let new : t ≡ save_pool token after s = ground arith in
        subst (SameTotals s) (sym new) (
          save_pool-SameTotals s token after (sym (ap total_bond_in found))
            (sym (ap total_pending_in found)))
  ]

  pub update_token-ByOwner :
      (s t : State) (env : Env) (sender token : Addr) (period weight : Option ℕ)
      (msgs : List CosmosMsg)
      → update_staking_token ops s env sender token period weight ≡ ok (t, msgs)
      → ByOwner s t sender
  unfolding update_staking_token
  update_token-ByOwner s t env sender token period weight msgs e = elim (Option-cases s.config) [
    | inl bad ↦ absurd (ground arith)
    | inr (cfg, e1) ↦ elim (Bool-cases (str_eq cfg.owner sender)) [
      | inr bad ↦ absurd (ground arith)
      | inl eq ↦ elim (Result-cases (set_weight ops s env token weight cfg)) [
        | inr bad ↦ absurd (ground arith)
        | inl (u, e2) ↦ elim (Result-cases (set_unbond_period ops u token period)) [
          | inr bad ↦ absurd (ground arith)
          | inl (v, e3) ↦
              let new : t ≡ v = ground arith in
              (
                cfg,
                e1,
                (str_eq_iff cfg.owner sender).0 eq,
                λ h.
                    SameTotals-IsBacked s t
                      (subst (SameTotals s) (sym new) (
                        SameTotals-trans s u v (set_weight-SameTotals s u env token weight cfg e2 h)
                          (set_period-SameTotals u v token period e3)))
                      h,
              )
        ]
      ]
    ]
  ]
