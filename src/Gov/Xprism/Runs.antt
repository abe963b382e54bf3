-- ===== src/Gov/Xprism/Runs.antt =====
-- What a call of xprism.rs that goes through reads and leaves, with the operations of `reference`.
use native.Mathlib.Nat.{div-mul-le_self, lt-div-mul-add}
use prism_contracts.Prelude.{
  ℕ, ◌+◌, ◌-◌, ◌*◌, ◌≤◌, ◌<◌, ◌≡◌, ◌⊎◌, refl, Option, none, some, List, [], ◌∷◌, String, arith, ok,
  inl, inr, Result-cases, Option-cases, ◌==◌, if◌then◌else◌, ap, ◌∙◌, str_eq_refl,
}
use prism_contracts.Cosmwasm.{reference, ratio, u128_size}
use prism_contracts.Storage.{Addr, set_at}
use prism_contracts.Storage.Ordered
use prism_contracts.Storage.Ordered.{OrderedMap}
use prism_contracts.Messages.{Env, CosmosMsg, cw20, Cw20Msg, Validator}
use prism_contracts.Querier.{Querier}
use prism_contracts.Gov.{Config, Amounts, Store}
use prism_contracts.Gov.Xprism.{
  token_addresses, effective, mint_xprism, redeem_xprism, claim_redeemed_prism, due_orders,
  remove_orders, compute_withdrawable,
}

pub mint_at :
    (humanize : Validator) (plus_seconds : Env → ℕ → Option ℕ) (q : Querier) (s t : Store)
    (env : Env) (receiver : String) (amount : ℕ) (msgs : List CosmosMsg)
    → mint_xprism reference humanize plus_seconds q s env receiver amount ≡ ok (t, msgs)
    → (cfg : Config) × (prism : Addr) × (xprism : Addr) × (pending : Amounts) × (backing : Amounts)
      × (minted : ℕ) × (token_addresses reference humanize plus_seconds q s
          ≡ ok (cfg, prism, xprism))
      × (s.total_pending ≡ some pending)
      × (effective reference humanize plus_seconds q env prism xprism pending amount ≡ ok backing)
      × (t ≡ s)
      × (msgs ≡ cw20 xprism (Cw20Msg.mint receiver minted) ∷ [])
      × ((backing.prism ≡ 0) ⊎ (minted * backing.prism ≤ amount * backing.xprism))
unfolding mint_xprism
mint_at humanize plus_seconds q s t env receiver amount msgs e =
    elim (Result-cases (token_addresses reference humanize plus_seconds q s)) [
      | inr bad ↦ absurd (ground arith)
      | inl ((cfg, prism, xprism), e1) ↦ elim (Option-cases s.total_pending) [
        | inl bad ↦ absurd (ground arith)
        | inr (pending, e2) ↦
            elim (Result-cases
              (effective reference humanize plus_seconds q env prism xprism pending amount)) [
                | inr bad ↦ absurd (ground arith)
                | inl (backing, e3) ↦
                    elim (Option-cases (
                      if backing.prism == 0
                      then some amount
                      else ratio amount backing.xprism backing.prism)) [
                        | inl bad ↦ absurd (ground arith)
                        | inr (minted, e4) ↦ (
                          cfg,
                          prism,
                          xprism,
                          pending,
                          backing,
                          minted,
                          e1,
                          e2,
                          e3,
                          ground arith,
                          ground arith,
                          ground (arith, div-mul-le_self (amount * backing.xprism) backing.prism),
                        )
                      ]
              ]
      ]
    ]

config_of :
    (humanize : Validator) (plus_seconds : Env → ℕ → Option ℕ) (q : Querier) (s : Store)
    (cfg : Config) (prism xprism : Addr)
    → token_addresses reference humanize plus_seconds q s ≡ ok (cfg, prism, xprism)
    → s.config ≡ some cfg
unfolding token_addresses
config_of humanize plus_seconds q s cfg prism xprism e = ground arith

pub redeem_at :
    (humanize : Validator) (plus_seconds : Env → ℕ → Option ℕ) (q : Querier) (s t : Store)
    (env : Env) (sender : String) (amount : ℕ) (msgs : List CosmosMsg)
    → redeem_xprism reference humanize plus_seconds q s env sender amount ≡ ok (t, msgs)
    → (cfg : Config) × (prism : Addr) × (xprism : Addr) × (pending : Amounts) × (backing : Amounts)
      × (returned : ℕ) × (end_time : ℕ) × (token_addresses reference humanize plus_seconds q s
          ≡ ok (cfg, prism, xprism))
      × (effective reference humanize plus_seconds q env prism xprism pending 0 ≡ ok backing)
      × (s.config ≡ some cfg)
      × (s.total_pending ≡ some pending)
      × (plus_seconds env cfg.redemption_time ≡ some end_time)
      × (Ordered.load end_time (s.withdraw_orders sender) ≡ none)
      × (returned * backing.xprism ≤ amount * backing.prism)
      × (amount * backing.prism < returned * backing.xprism + backing.xprism)
      × (pending.xprism + amount < u128_size)
      × (pending.prism + returned < u128_size)
      × (t ≡ record s {
        withdraw_orders =
            set_at sender
              (Ordered.save end_time
                (record { xprism = amount; prism = returned })
                (s.withdraw_orders sender))
              s.withdraw_orders;
        total_pending =
            some (record { xprism = pending.xprism + amount; prism = pending.prism + returned });
      })
unfolding redeem_xprism
redeem_at humanize plus_seconds q s t env sender amount msgs e =
    elim (Result-cases (token_addresses reference humanize plus_seconds q s)) [
      | inr bad ↦ absurd (ground arith)
      | inl ((cfg, prism, xprism), e1) ↦ elim (Option-cases s.total_pending) [
        | inl bad ↦ absurd (ground arith)
        | inr (pending, e2) ↦
            elim (Result-cases
              (effective reference humanize plus_seconds q env prism xprism pending 0)) [
                | inr bad ↦ absurd (ground arith)
                | inl (backing, e3) ↦
                    elim (Option-cases (ratio amount backing.prism backing.xprism)) [
                      | inl bad ↦ absurd (ground arith)
                      | inr (returned, e4) ↦
                          elim (Option-cases (plus_seconds env cfg.redemption_time)) [
                            | inl bad ↦ absurd (ground arith)
                            | inr (end_time, e5) ↦ (
                              cfg,
                              prism,
                              xprism,
                              pending,
                              backing,
                              returned,
                              end_time,
                              e1,
                              e3,
                              config_of humanize plus_seconds q s cfg prism xprism e1,
                              e2,
                              e5,
                              ground arith,
                              ground
                                  (arith, div-mul-le_self (amount * backing.prism) backing.xprism),
                              ground (
                                arith,
                                lt-div-mul-add {a = amount * backing.prism} {b = backing.xprism},
                              ),
                              ground arith,
                              ground arith,
                              ground arith,
                            )
                          ]
                    ]
              ]
      ]
    ]

-- Once it is due, a single order is paid in full.
claim_single :
    (humanize : Validator) (plus_seconds : Env → ℕ → Option ℕ) (q : Querier) (s : Store) (env : Env)
    (sender : Addr) (cfg : Config) (prism xprism : Addr) (end_time : ℕ) (order total : Amounts)
    → token_addresses reference humanize plus_seconds q s ≡ ok (cfg, prism, xprism)
    → s.withdraw_orders sender ≡ (end_time, order) ∷ []
    → s.total_pending ≡ some total
    → end_time ≤ env.seconds
    → 0 < order.xprism
    → order.xprism ≤ total.xprism
    → order.prism ≤ total.prism
    → total.xprism < u128_size
    → total.prism < u128_size
    → claim_redeemed_prism reference humanize plus_seconds q s env sender
      ≡ ok (
        record s {
          withdraw_orders = set_at sender [] s.withdraw_orders;
          total_pending =
              some (record {
                xprism = total.xprism - order.xprism;
                prism = total.prism - order.prism;
              });
        },
        cw20 xprism (Cw20Msg.burn order.xprism)
            ∷ cw20 prism (Cw20Msg.transfer sender order.prism)
            ∷ [],
      )
unfolding claim_redeemed_prism compute_withdrawable due_orders remove_orders
claim_single humanize plus_seconds q s env sender cfg prism xprism end_time order total e1 e2 e3 due
      pos a b c d =
    ground arith

set_at_self :
    (a : Addr) (m : OrderedMap Amounts) (f : Addr → OrderedMap Amounts) → set_at a m f a ≡ m
set_at_self a m f = ground (arith, str_eq_refl a)

same_tokens :
    (humanize : Validator) (plus_seconds : Env → ℕ → Option ℕ) (q : Querier) (s t : Store)
    → t.config ≡ s.config
    → token_addresses reference humanize plus_seconds q t
      ≡ token_addresses reference humanize plus_seconds q s
unfolding token_addresses
same_tokens humanize plus_seconds q s t e = rw e refl

pub redeem-claim_at :
    (humanize : Validator) (plus_seconds : Env → ℕ → Option ℕ) (q : Querier) (s t : Store)
    (env : Env) (sender : Addr) (amount : ℕ) (msgs : List CosmosMsg)
    → s.withdraw_orders sender ≡ []
    → 0 < amount
    → redeem_xprism reference humanize plus_seconds q s env sender amount ≡ ok (t, msgs)
    → (cfg : Config) × (prism : Addr) × (xprism : Addr) × (pending : Amounts) × (backing : Amounts)
      × (end_time : ℕ) × (returned : ℕ) × (token_addresses reference humanize plus_seconds q s
          ≡ ok (cfg, prism, xprism))
      × (s.total_pending ≡ some pending)
      × (effective reference humanize plus_seconds q env prism xprism pending 0 ≡ ok backing)
      × (plus_seconds env cfg.redemption_time ≡ some end_time)
      × (returned * backing.xprism ≤ amount * backing.prism)
      × (amount * backing.prism < returned * backing.xprism + backing.xprism)
      × (t.withdraw_orders sender ≡ (end_time, record { xprism = amount; prism = returned }) ∷ [])
      × ((later : Env)
          → end_time ≤ later.seconds
          → (u : Store) × (claim_redeemed_prism reference humanize plus_seconds q t later sender
              ≡ ok (
                u,
                cw20 xprism (Cw20Msg.burn amount)
                    ∷ cw20 prism (Cw20Msg.transfer sender returned)
                    ∷ [],
              ))
            × (u.total_pending ≡ s.total_pending)
            × (u.withdraw_orders sender ≡ []))
redeem-claim_at humanize plus_seconds q s t env sender amount msgs empty pos e =
    let (
      cfg, prism, xprism, pending, backing, returned, end_time, e1, e2, e3, e4, e5, e6, worth, near,
      bx, bp, new,
    ) =
      redeem_at humanize plus_seconds q s t env sender amount msgs e in
    let order : Amounts = record { xprism = amount; prism = returned } in
    let total : Amounts = record {
      xprism = pending.xprism + amount;
      prism = pending.prism + returned;
    } in
    let orders : t.withdraw_orders sender ≡ (end_time, order) ∷ [] =
      ap (λ (x : Store). x.withdraw_orders sender) new
      ∙ set_at_self sender (Ordered.save end_time order (s.withdraw_orders sender))
          s.withdraw_orders
      ∙ ap (Ordered.save end_time order) empty in
    (
      cfg,
      prism,
      xprism,
      pending,
      backing,
      end_time,
      returned,
      e1,
      e4,
      e2,
      e5,
      worth,
      near,
      orders,
      λ later due. (
        record t {
          withdraw_orders = set_at sender [] t.withdraw_orders;
          total_pending = some (record {
            xprism = pending.xprism + amount - amount;
            prism = pending.prism + returned - returned;
          });
        },
        claim_single humanize plus_seconds q t later sender cfg prism xprism end_time order total
            (same_tokens humanize plus_seconds q s t (ap (λ (x : Store). x.config) new) ∙ e1) orders
            (ap (λ (x : Store). x.total_pending) new) due pos (omega arith) (omega arith) bx bp,
        ground (arith, e4),
        ground (arith, str_eq_refl sender),
      ),
    )
