-- ===== src/Gov/Xprism/Fair.antt =====
-- What minting and redeeming are worth, and that a redemption can be claimed.
use prism_contracts.Prelude.{
  ℕ, ◌+◌, ◌*◌, ◌≤◌, ◌<◌, ◌≡◌, ◌⊎◌, Option, none, some, List, [], ◌∷◌, String, ok,
}
use prism_contracts.Cosmwasm.{Std, IsStd, determined, u128_size}
use prism_contracts.Storage.{Addr, set_at}
use prism_contracts.Storage.Ordered
use prism_contracts.Storage.Ordered.{OrderedMap}
use prism_contracts.Messages.{Env, CosmosMsg, cw20, Cw20Msg, Validator}
use prism_contracts.Querier.{Querier}
use prism_contracts.Gov.{Config, Amounts, Store}
use prism_contracts.Gov.Xprism.{
  token_addresses, effective, mint_xprism, redeem_xprism, claim_redeemed_prism,
}
use prism_contracts.Gov.Xprism.Runs.{mint_at, redeem_at, redeem-claim_at}

module _ (ops : Std) (law : IsStd ops) (humanize : Validator) (plus_seconds : Env → ℕ → Option ℕ)
    (q : Querier) where
  -- Minting changes no state, and if there is PRISM behind the xPRISM, then what is minted is worth no
  -- more than what was paid in, at the rate before.
  pub mint_xprism-fair :
      (s t : Store) (env : Env) (receiver : String) (amount : ℕ) (msgs : List CosmosMsg)
      → mint_xprism ops humanize plus_seconds q s env receiver amount ≡ ok (t, msgs)
      → (cfg : Config) × (prism : Addr) × (xprism : Addr) × (pending : Amounts)
        × (backing : Amounts) × (minted : ℕ) × (token_addresses ops humanize plus_seconds q s
            ≡ ok (cfg, prism, xprism))
        × (s.total_pending ≡ some pending)
        × (effective ops humanize plus_seconds q env prism xprism pending amount ≡ ok backing)
        × (t ≡ s)
        × (msgs ≡ cw20 xprism (Cw20Msg.mint receiver minted) ∷ [])
        × ((backing.prism ≡ 0) ⊎ (minted * backing.prism ≤ amount * backing.xprism))
  mint_xprism-fair s t env receiver amount msgs =
      rw (determined law) (mint_at humanize plus_seconds q s t env receiver amount msgs)

  -- A redemption is queued under a time that was free, for its share of the PRISM rounded down, and
  -- adds exactly itself to the pending total.
  pub redeem_xprism-queues :
      (s t : Store) (env : Env) (sender : String) (amount : ℕ) (msgs : List CosmosMsg)
      → redeem_xprism ops humanize plus_seconds q s env sender amount ≡ ok (t, msgs)
      → (cfg : Config) × (prism : Addr) × (xprism : Addr) × (pending : Amounts)
        × (backing : Amounts) × (returned : ℕ) × (end_time : ℕ) × (token_addresses ops humanize
              plus_seconds q s
            ≡ ok (cfg, prism, xprism))
        × (effective ops humanize plus_seconds q env prism xprism pending 0 ≡ ok backing)
        × (s.config ≡ some cfg)
        × (s.total_pending ≡ some pending)
        × (plus_seconds env cfg.redemption_time ≡ some end_time)
        × (Ordered.load end_time (s.withdraw_orders sender) ≡ none)
        × (returned * backing.xprism ≤ amount * backing.prism)
        × (amount * backing.prism < returned * backing.xprism + backing.xprism)
        × (pending.xprism + amount < u128_size)
        × (pending.prism + returned < u128_size)
        × (t ≡ record s {
          withdraw_orders =
              set_at sender
                (Ordered.save end_time
                  (record { xprism = amount; prism = returned })
                  (s.withdraw_orders sender))
                s.withdraw_orders;
          total_pending =
              some (record { xprism = pending.xprism + amount; prism = pending.prism + returned });
        })
  redeem_xprism-queues s t env sender amount msgs =
      rw (determined law) (redeem_at humanize plus_seconds q s t env sender amount msgs)

  -- Who has no other order and redeems some xPRISM has one order queued, for the redeemed amount and
  -- its share of the PRISM rounded down, under the block's time with the redemption time added. A
  -- claim on what the redemption leaves, at that time or later, goes through: it burns the redeemed
  -- amount, pays the queued PRISM, and leaves the pending total as it was before the redemption and
  -- the sender without orders.
  pub redeem-claim :
      (s t : Store) (env : Env) (sender : Addr) (amount : ℕ) (msgs : List CosmosMsg)
      → s.withdraw_orders sender ≡ []
      → 0 < amount
      → redeem_xprism ops humanize plus_seconds q s env sender amount ≡ ok (t, msgs)
      → (cfg : Config) × (prism : Addr) × (xprism : Addr) × (pending : Amounts)
        × (backing : Amounts) × (end_time : ℕ) × (returned : ℕ) × (token_addresses ops humanize
              plus_seconds q s
            ≡ ok (cfg, prism, xprism))
        × (s.total_pending ≡ some pending)
        × (effective ops humanize plus_seconds q env prism xprism pending 0 ≡ ok backing)
        × (plus_seconds env cfg.redemption_time ≡ some end_time)
        × (returned * backing.xprism ≤ amount * backing.prism)
        × (amount * backing.prism < returned * backing.xprism + backing.xprism)
        × (t.withdraw_orders sender ≡ (end_time, record { xprism = amount; prism = returned }) ∷ [])
        × ((later : Env)
            → end_time ≤ later.seconds
            → (u : Store) × (claim_redeemed_prism ops humanize plus_seconds q t later sender
                ≡ ok (
                  u,
                  cw20 xprism (Cw20Msg.burn amount)
                      ∷ cw20 prism (Cw20Msg.transfer sender returned)
                      ∷ [],
                ))
              × (u.total_pending ≡ s.total_pending)
              × (u.withdraw_orders sender ≡ []))
  redeem-claim s t env sender amount msgs empty pos =
      rw (determined law)
        (redeem-claim_at humanize plus_seconds q s t env sender amount msgs empty pos)
