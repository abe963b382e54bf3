-- ===== src/YassetStaking/Staking/Keep.antt =====
-- Bonding and unbonding change the total by as much as the staker's bond.
use prism_contracts.Prelude.{
  ℕ, ◌+◌, ◌-◌, ◌≤◌, ◌≡◌, refl, sym, ap, subst, ◌∙◌, Option, none, some, List, arith, ok, inl, inr,
  Result-cases, Option-cases, str_eq_iff, str_eq_refl, unwrap_or,
}
use prism_contracts.Cosmwasm.{Std, IsStd}
use prism_contracts.Storage.{Addr}
use prism_contracts.Storage.Sums.{IsBounded-same, IsBounded-change}
use prism_contracts.Messages.{CosmosMsg}
use prism_contracts.YassetStaking.{State, BondInfo}
use prism_contracts.YassetStaking.Frame.{SameBonds, IsCovered, bonded, bond_in}
use prism_contracts.YassetStaking.Rewards.{compute_all_rewards}
use prism_contracts.YassetStaking.Rewards.Keep.{compute_all-SameBonds}
use prism_contracts.YassetStaking.Staking.{save_bond, bond, unbond, unbonded_amount}

pub SameBonds-IsCovered : (s t : State) → SameBonds s t → IsCovered s → IsCovered t
SameBonds-IsCovered s t m (total, cfg, e1, e2, bound, fee) = (
  total,
  cfg,
  m.total ∙ e1,
  m.config ∙ e2,
  IsBounded-same (bonded s) (bonded t) total total
      (λ a. ap (λ (f : Addr → Option BondInfo). bond_in (f a)) m.bonds) refl bound,
  fee,
)

-- One bond and the total change by the same amount.
save_bond-IsCovered :
    (s : State) (staker : Addr) (own total before : ℕ)
    → s.total_bond_amount ≡ some before
    → total + bonded s staker ≡ before + own
    → IsCovered s
    → IsCovered (save_bond staker own total s)
save_bond-IsCovered s staker own total before stored balance (n, cfg, e1, e2, bound, fee) =
    let t = save_bond staker own total s in
    let here : bonded t staker ≡ own = ground (arith, str_eq_refl staker) in
    let same : n ≡ before = ground arith in
    (
      total,
      cfg,
      refl,
      e2,
      IsBounded-change (bonded s) (bonded t) staker (λ b ne. ground (arith, str_eq_iff staker b)) n
          total (omega (arith, same, here, balance)) bound,
      fee,
    )

in_default :
    (o : Option BondInfo) → bond_in o ≡ (unwrap_or o (record { bond_amount = 0 })).bond_amount
in_default none = refl
in_default (some info) = refl

module _ (ops : Std) (law : IsStd ops) where
  pub bond-IsCovered :
      (s t : State) (staker : Addr) (amount : ℕ) (msgs : List CosmosMsg)
      → bond ops s staker amount ≡ ok (t, msgs)
      → IsCovered s
      → IsCovered t
  unfolding bond
  bond-IsCovered s t staker amount msgs e h = elim (Option-cases s.total_bond_amount) [
    | inl bad ↦ absurd (ground arith)
    | inr (total, e1) ↦ elim (Option-cases s.whitelisted_assets) [
      | inl bad ↦ absurd (ground arith)
      | inr (assets, e2) ↦
          let info = unwrap_or (s.bond_amounts staker) (record { bond_amount = 0 }) in
          let own = in_default (s.bond_amounts staker) in
          elim (Result-cases (compute_all_rewards ops s staker info.bond_amount assets)) [
            | inr bad ↦ absurd (ground arith)
            | inl (u, e3) ↦
                let m = compute_all-SameBonds ops staker info.bond_amount assets s u e3 in
                let still = ap (λ (f : Addr → Option BondInfo). bond_in (f staker)) m.bonds in
                let new : t ≡ save_bond staker (info.bond_amount + amount) (total + amount) u =
                  ground (arith, law.add_eq info.bond_amount amount, law.add_eq total amount) in
                subst IsCovered (sym new) (
                  save_bond-IsCovered u staker (info.bond_amount + amount) (total + amount) total
                    (m.total ∙ e1) (omega (arith, still, own)) (SameBonds-IsCovered s u m h))
          ]
    ]
  ]

  pub unbond-IsCovered :
      (s t : State) (sender : Addr) (amount : Option ℕ) (msgs : List CosmosMsg)
      → unbond ops s sender amount ≡ ok (t, msgs)
      → IsCovered s
      → IsCovered t
  unfolding unbond
  unbond-IsCovered s t sender amount msgs e h = elim (Option-cases s.config) [
    | inl bad ↦ absurd (ground arith)
    | inr (cfg, e0) ↦ elim (Option-cases s.total_bond_amount) [
      | inl bad ↦ absurd (ground arith)
      | inr (total, e1) ↦ elim (Option-cases s.whitelisted_assets) [
        | inl bad ↦ absurd (ground arith)
        | inr (assets, e2) ↦ elim (Option-cases (s.bond_amounts sender)) [
          | inl bad ↦ absurd (ground arith)
          | inr (info, e3) ↦
              elim (Result-cases (compute_all_rewards ops s sender info.bond_amount assets)) [
                | inr bad ↦ absurd (ground arith)
                | inl (u, e4) ↦ elim (Result-cases (unbonded_amount ops info amount)) [
                  | inr bad ↦ absurd (ground arith)
                  | inl (d, e5) ↦
                      let m = compute_all-SameBonds ops sender info.bond_amount assets s u e4 in
                      let still = ap (λ (f : Addr → Option BondInfo). bond_in (f sender)) m.bonds in
                      let sub1 = law.sub_eq info.bond_amount d in
                      let sub2 = law.sub_eq total d in
                      let new : t ≡ save_bond sender (info.bond_amount - d) (total - d) u =
                        ground (arith, sub1, sub2) in
                      let small1 : d ≤ info.bond_amount = ground (arith, sub1, sub2) in
                      let small2 : d ≤ total = ground (arith, sub1, sub2) in
                      subst IsCovered (sym new) (
                        save_bond-IsCovered u sender (info.bond_amount - d) (total - d) total
                          (m.total ∙ e1) (omega (arith, still, ap bond_in e3, small1, small2))
                          (SameBonds-IsCovered s u m h))
                ]
              ]
        ]
      ]
    ]
  ]
