-- ===== src/Gov/Xprism.antt =====
-- contracts/prism-gov/src/xprism.rs: minting and redeeming xPRISM.
pub mod Orders
pub mod Runs
pub mod Fair
pub mod Frame
mod Tests
use prism_contracts.Prelude.{
  ℕ, Bool, true, false, ◌&&◌, Option, none, some, List, [], ◌∷◌, String, ltb, ◌==◌, if◌then◌else◌,
  Result, ok, err, panic, ◌>>=◌, ◌>>◌, fail_if, or_err, or_panic,
}
use prism_contracts.Prelude.Lists.{take}
use prism_contracts.Cosmwasm.{Std}
use prism_contracts.Storage.{Addr, set_at}
use prism_contracts.Storage.Ordered
use prism_contracts.Storage.Ordered.{OrderedMap}
use prism_contracts.Messages.{
  StdError, overflow, generic_err, Env, CosmosMsg, cw20, Cw20Msg, Validator, load_item,
}
use prism_contracts.Querier.{Querier, query_token_balance, query_supply}
use prism_contracts.Gov.{Config, Amounts, Store, Response}

abbrev pub max_order_withdraw_per_tx : ℕ
max_order_withdraw_per_tx = 50

-- The orders that are due, summed, and their times; the orders are in ascending order of time.
pub due_orders : Std → ℕ → List (ℕ × Amounts) → Amounts → Result StdError (Amounts × List ℕ)
due_orders ops time [] w = ok (w, [])
due_orders ops time ((end_time, order) ∷ rest) w = elim (ltb time end_time) [
  | true ↦ ok (w, [])
  | false ↦ do
    x ← or_panic (ops.add w.xprism order.xprism)
    p ← or_panic (ops.add w.prism order.prism)
    (sum, times) ← due_orders ops time rest (record { xprism = x; prism = p })
    ok (sum, end_time ∷ times)
]

pub remove_orders : List ℕ → OrderedMap Amounts → OrderedMap Amounts
remove_orders [] m = m
remove_orders (t ∷ ts) m = remove_orders ts (Ordered.remove t m)

pub compute_withdrawable : Std → Store → ℕ → Addr → Result StdError (Store × Amounts)
unfolding due_orders remove_orders
compute_withdrawable ops s time address = do
  let orders = s.withdraw_orders address
  (w, times) ←
      due_orders ops time (take max_order_withdraw_per_tx orders) (record { xprism = 0; prism = 0 })
  total ← load_item s.total_pending
  x ← or_err (ops.checked_sub total.xprism w.xprism) overflow
  p ← or_err (ops.checked_sub total.prism w.prism) overflow
  ok (
    record s {
      withdraw_orders = set_at address (remove_orders times orders) s.withdraw_orders;
      total_pending = some (record { xprism = x; prism = p });
    },
    w,
  )

-- `humanize` is `addr_humanize`, and `plus_seconds` is the block's time with seconds added.
module _ (ops : Std) (humanize : Validator) (plus_seconds : Env → ℕ → Option ℕ) (q : Querier) where
  -- The addresses of the two tokens, PRISM first.
  pub token_addresses : Store → Result StdError (Config × Addr × Addr)
  token_addresses s = do
    cfg ← load_item s.config
    prism ← humanize cfg.prism_token
    xprism ← or_panic cfg.xprism_token
    xprism ← humanize xprism
    ok (cfg, prism, xprism)

  -- What the contract holds and what is issued, less what is pending.
  pub effective : Env → Addr → Addr → Amounts → ℕ → Result StdError Amounts
  effective env prism_token xprism_token pending received = do
    balance ← query_token_balance q prism_token env.address
    prism ← or_panic (ops.sub balance received)
    prism ← or_panic (ops.sub prism pending.prism)
    supply ← query_supply q xprism_token
    xprism ← or_panic (ops.sub supply pending.xprism)
    ok (record { xprism = xprism; prism = prism })

  -- The received amount is no backing yet.
  pub mint_xprism : Store → Env → String → ℕ → Result StdError Response
  unfolding token_addresses effective
  mint_xprism s env receiver amount = do
    (cfg, prism_token, xprism_token) ← token_addresses s
    pending ← load_item s.total_pending
    e ← effective env prism_token xprism_token pending amount
    minted ←
        or_panic (if e.prism == 0 then some amount else ops.multiply_ratio amount e.xprism e.prism)
    ok (s, cw20 xprism_token (Cw20Msg.mint receiver minted) ∷ [])

  pub redeem_xprism : Store → Env → String → ℕ → Result StdError Response
  unfolding token_addresses effective
  redeem_xprism s env sender amount = do
    (cfg, prism_token, xprism_token) ← token_addresses s
    pending ← load_item s.total_pending
    e ← effective env prism_token xprism_token pending 0
    returned ← or_panic (ops.multiply_ratio amount e.prism e.xprism)
    end_time ← or_panic (plus_seconds env cfg.redemption_time)
    let orders = s.withdraw_orders sender
    fail_if (elim (Ordered.load end_time orders) [ none ↦ false | some _ ↦ true ])
        (generic_err "can only execute one redeem_xprism operation per block")
    x ← or_panic (ops.add pending.xprism amount)
    p ← or_panic (ops.add pending.prism returned)
    let order : Amounts = record { xprism = amount; prism = returned }
    ok (
      record s {
        withdraw_orders = set_at sender (Ordered.save end_time order orders) s.withdraw_orders;
        total_pending = some (record { xprism = x; prism = p });
      },
      [],
    )

  pub claim_redeemed_prism : Store → Env → Addr → Result StdError Response
  unfolding token_addresses compute_withdrawable
  claim_redeemed_prism s env sender = do
    (cfg, prism_token, xprism_token) ← token_addresses s
    (s, w) ← compute_withdrawable ops s env.seconds sender
    fail_if ((w.prism == 0) && (w.xprism == 0)) (generic_err "nothing to claim")
    ok (
      s,
      cw20 xprism_token (Cw20Msg.burn w.xprism)
          ∷ cw20 prism_token (Cw20Msg.transfer sender w.prism)
          ∷ [],
    )
