-- ===== src/YassetStaking/Swaps.antt =====
-- contracts/prism-yasset-staking/src/swaps.rs: the delegator rewards become pLuna and yLuna, in three
-- calls of the contract to itself.
pub mod Keep
use prism_contracts.Prelude.{
  ℕ, Bool, true, false, not, ◌||◌, Option, none, some, List, [], ◌∷◌, ◌++◌, String, str_eq, map,
  if◌then◌else◌, Result, ok, err, panic, ◌>>=◌, ◌>>◌, fail_if, or_err,
}
use prism_contracts.Cosmwasm.{Std}
use prism_contracts.Storage.{Addr}
use prism_contracts.Messages.{
  StdError, overflow, generic_err, Env, CosmosMsg, luna_to_pyluna_hook, deposit_minted_pyluna_hook,
  deposit_reward_assets, bond_split, swap, token, load_item,
}
use prism_contracts.Querier.{Querier, query_token_balance}
use prism_contracts.YassetStaking.{State, Response}

abbrev pub reward_denom : String
reward_denom = "uluna"

pub has_rate : String → List String → Bool
has_rate denom [] = false
has_rate denom (quote ∷ quotes) = str_eq quote denom || has_rate denom quotes

-- The coins that can be exchanged for Luna, other than Luna.
pub swap_coins : List String → List (String × ℕ) → List CosmosMsg
unfolding has_rate
swap_coins rates [] = []
swap_coins rates ((denom, amount) ∷ coins) =
    let rest = swap_coins rates coins in
    if str_eq denom reward_denom || not (has_rate denom rates)
    then rest
    else swap denom amount reward_denom ∷ rest

-- `all_balances` is `query_all_balances`; `exchange_rates` gives the denominations with a rate.
module _ (all_balances : Addr → Result StdError (List (String × ℕ)))
    (exchange_rates : String → List String → Result StdError (List String)) where
  pub process_rewards : State → Env → Result StdError Response
  unfolding swap_coins
  process_rewards s env = do
    balances ← all_balances env.address
    rates ← exchange_rates reward_denom (map (λ coin. coin.0) balances)
    ok (s, swap_coins rates balances ++ luna_to_pyluna_hook env.address ∷ [])

module _ (q : Querier) where
  pub luna_to_pyluna : State → Env → Result StdError Response
  luna_to_pyluna s env = do
    cfg ← load_item s.config
    luna ← q.balance env.address reward_denom
    pluna ← query_token_balance q cfg.pluna_token env.address
    yluna ← query_token_balance q cfg.yluna_token env.address
    ok (
      s,
      bond_split cfg.vault reward_denom luna
          ∷ deposit_minted_pyluna_hook env.address pluna yluna
          ∷ [],
    )

  pub deposit_minted : Std → State → Env → Addr → ℕ → ℕ → Result StdError Response
  deposit_minted ops s env sender prev_pluna prev_yluna = do
    cfg ← load_item s.config
    fail_if (not (str_eq sender env.address)) (generic_err "unauthorized")
    pluna ← query_token_balance q cfg.pluna_token env.address
    yluna ← query_token_balance q cfg.yluna_token env.address
    new_pluna ← or_err (ops.checked_sub pluna prev_pluna) overflow
    new_yluna ← or_err (ops.checked_sub yluna prev_yluna) overflow
    ok (
      s,
      deposit_reward_assets env.address (
            record { info = token cfg.yluna_token; amount = new_yluna }
            ∷ record { info = token cfg.pluna_token; amount = new_pluna }
            ∷ [])
          ∷ [],
    )
