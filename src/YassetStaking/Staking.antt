-- ===== src/YassetStaking/Staking.antt =====
-- contracts/prism-yasset-staking/src/staking.rs: yLuna is bonded and unbonded.
pub mod Keep
use prism_contracts.Prelude.{
  ℕ, Bool, true, false, Option, none, some, List, [], ◌∷◌, ltb, Result, ok, err, panic, ◌>>=◌, ◌>>◌,
  fail_if, or_panic, unwrap_or,
}
use prism_contracts.Cosmwasm.{Std}
use prism_contracts.Storage.{Addr, save}
use prism_contracts.Messages.{StdError, generic_err, CosmosMsg, cw20, Cw20Msg, load_item}
use prism_contracts.YassetStaking.{BondInfo, State, Response}
use prism_contracts.YassetStaking.Rewards.{compute_all_rewards, load_bond}

-- The staker's bond and the total are stored.
abbrev pub save_bond : Addr → ℕ → ℕ → State → State
save_bond staker amount total s = record s {
  total_bond_amount = some total;
  bond_amounts = save staker (record { bond_amount = amount }) s.bond_amounts;
}

module _ (ops : Std) where
  unfoldable pub bond : State → Addr → ℕ → Result StdError Response
  bond s staker amount = do
    total ← load_item s.total_bond_amount
    whitelist ← load_item s.whitelisted_assets
    let info = unwrap_or (s.bond_amounts staker) (record { bond_amount = 0 })
    s ← compute_all_rewards ops s staker info.bond_amount whitelist
    own ← or_panic (ops.add info.bond_amount amount)
    more ← or_panic (ops.add total amount)
    ok (save_bond staker own more s, [])

  -- All that is bonded, where no amount is given.
  pub unbonded_amount : BondInfo → Option ℕ → Result StdError ℕ
  unbonded_amount info none = ok info.bond_amount
  unbonded_amount info (some amount) =
      fail_if (ltb info.bond_amount amount)
        (generic_err "can not unbond more than the bonded amount")
      >> ok amount

  pub unbond : State → Addr → Option ℕ → Result StdError Response
  unfolding unbonded_amount
  unbond s sender amount = do
    cfg ← load_item s.config
    total ← load_item s.total_bond_amount
    whitelist ← load_item s.whitelisted_assets
    info ← load_bond s sender "no tokens bonded"
    s ← compute_all_rewards ops s sender info.bond_amount whitelist
    amount ← unbonded_amount info amount
    fail_if (ltb total amount) (generic_err "can not unbond more than total bonded amount")
    own ← or_panic (ops.sub info.bond_amount amount)
    less ← or_panic (ops.sub total amount)
    ok (save_bond sender own less s, cw20 cfg.yluna_token (Cw20Msg.transfer sender amount) ∷ [])
