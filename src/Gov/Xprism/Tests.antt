-- ===== src/Gov/Xprism/Tests.antt =====
-- Runs of xprism.rs, and its theorems at concrete inputs.
use prism_contracts.Prelude.{
  ℕ, ◌+◌, ◌*◌, ◌≤◌, ◌<◌, ◌≡◌, ◌⊎◌, refl, none, some, List, [], ◌∷◌, arith, Result, ok,
}
use prism_contracts.Cosmwasm.{reference, reference-IsStd, u128_size}
use prism_contracts.Storage.{Addr, set_at}
use prism_contracts.Storage.Ordered
use prism_contracts.Messages.{StdError, Env, CosmosMsg, cw20, Cw20Msg}
use prism_contracts.Querier.{query_token_balance, query_supply}
use prism_contracts.Gov.{Config, Amounts, Store}
use prism_contracts.Gov.Sample.{store, at, human, plus_seconds, chain, fst_of}
use prism_contracts.Gov.Xprism.{
  token_addresses, effective, mint_xprism, redeem_xprism, claim_redeemed_prism, due_orders,
  remove_orders, compute_withdrawable,
}
use prism_contracts.Gov.Xprism.Orders.{Claim, compute_withdrawable-Claim}
use prism_contracts.Gov.Xprism.Fair.{mint_xprism-fair, redeem_xprism-queues, redeem-claim}

abbrev claim : Result StdError (Store × Amounts)
claim = compute_withdrawable reference store 50 "bob"

claim_ok : claim ≡ ok (fst_of claim, record { xprism = 5; prism = 6 })
unfolding compute_withdrawable due_orders remove_orders
claim_ok = refl

compute_withdrawable-Claim_example :
    Claim store (fst_of claim) 50 "bob" (record { xprism = 5; prism = 6 })
compute_withdrawable-Claim_example =
    compute_withdrawable-Claim reference reference-IsStd store (fst_of claim) 50 "bob"
      (record { xprism = 5; prism = 6 }) (omega arith, (omega arith, tt)) (omega arith) claim_ok

abbrev mint : Result StdError (Store × List CosmosMsg)
mint = mint_xprism reference human plus_seconds chain store (at 50) "alice" 200

-- 200 of 800 PRISM before, for 500 xPRISM.
mint_ok : mint ≡ ok (store, cw20 "xprism" (Cw20Msg.mint "alice" 125) ∷ [])
unfolding mint_xprism token_addresses effective query_token_balance query_supply
mint_ok = refl

mint_xprism-fair_example :
    (cfg : Config) × (prism : Addr) × (xprism : Addr) × (pending : Amounts) × (backing : Amounts)
    × (minted : ℕ) × (token_addresses reference human plus_seconds chain store
        ≡ ok (cfg, prism, xprism))
    × (store.total_pending ≡ some pending)
    × (effective reference human plus_seconds chain (at 50) prism xprism pending 200 ≡ ok backing)
    × (store ≡ store)
    × (cw20 "xprism" (Cw20Msg.mint "alice" 125) ∷ []
        ≡ cw20 xprism (Cw20Msg.mint "alice" minted) ∷ [])
    × ((backing.prism ≡ 0) ⊎ (minted * backing.prism ≤ 200 * backing.xprism))
mint_xprism-fair_example =
    mint_xprism-fair reference reference-IsStd human plus_seconds chain store store (at 50) "alice"
      200 (cw20 "xprism" (Cw20Msg.mint "alice" 125) ∷ []) mint_ok

abbrev redeem : Result StdError (Store × List CosmosMsg)
redeem = redeem_xprism reference human plus_seconds chain store (at 50) "alice" 100

redeem_ok : redeem ≡ ok (fst_of redeem, [])
unfolding redeem_xprism token_addresses effective query_token_balance query_supply
redeem_ok = refl

redeem_xprism-queues_example :
    (cfg : Config) × (prism : Addr) × (xprism : Addr) × (pending : Amounts) × (backing : Amounts)
    × (returned : ℕ) × (end_time : ℕ) × (token_addresses reference human plus_seconds chain store
        ≡ ok (cfg, prism, xprism))
    × (effective reference human plus_seconds chain (at 50) prism xprism pending 0 ≡ ok backing)
    × (store.config ≡ some cfg)
    × (store.total_pending ≡ some pending)
    × (plus_seconds (at 50) cfg.redemption_time ≡ some end_time)
    × (Ordered.load end_time (store.withdraw_orders "alice") ≡ none)
    × (returned * backing.xprism ≤ 100 * backing.prism)
    × (100 * backing.prism < returned * backing.xprism + backing.xprism)
    × (pending.xprism + 100 < u128_size)
    × (pending.prism + returned < u128_size)
    × (fst_of redeem ≡ record store {
      withdraw_orders =
          set_at "alice"
            (Ordered.save end_time
              (record { xprism = 100; prism = returned })
              (store.withdraw_orders "alice"))
            store.withdraw_orders;
      total_pending =
          some (record { xprism = pending.xprism + 100; prism = pending.prism + returned });
    })
redeem_xprism-queues_example =
    redeem_xprism-queues reference reference-IsStd human plus_seconds chain store (fst_of redeem)
      (at 50) "alice" 100 [] redeem_ok

redeem-claim_example :
    (cfg : Config) × (prism : Addr) × (xprism : Addr) × (pending : Amounts) × (backing : Amounts)
    × (end_time : ℕ) × (returned : ℕ) × (token_addresses reference human plus_seconds chain store
        ≡ ok (cfg, prism, xprism))
    × (store.total_pending ≡ some pending)
    × (effective reference human plus_seconds chain (at 50) prism xprism pending 0 ≡ ok backing)
    × (plus_seconds (at 50) cfg.redemption_time ≡ some end_time)
    × (returned * backing.xprism ≤ 100 * backing.prism)
    × (100 * backing.prism < returned * backing.xprism + backing.xprism)
    × ((fst_of redeem).withdraw_orders "alice"
        ≡ (end_time, record { xprism = 100; prism = returned }) ∷ [])
    × ((later : Env)
        → end_time ≤ later.seconds
        → (u : Store) × (claim_redeemed_prism reference human plus_seconds chain
              (fst_of redeem)
              later
              "alice"
            ≡ ok (
              u,
              cw20 xprism (Cw20Msg.burn 100) ∷ cw20 prism (Cw20Msg.transfer "alice" returned) ∷ [],
            ))
          × (u.total_pending ≡ store.total_pending)
          × (u.withdraw_orders "alice" ≡ []))
redeem-claim_example =
    redeem-claim reference reference-IsStd human plus_seconds chain store (fst_of redeem) (at 50)
      "alice" 100 [] refl (omega arith) redeem_ok
