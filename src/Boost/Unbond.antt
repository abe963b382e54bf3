-- ===== src/Boost/Unbond.antt =====
-- What `unbond` in contract.rs pays out and leaves, and when it refuses.
use prism_contracts.Prelude.{
  ℕ, ◌-◌, ◌≤◌, ◌<◌, ◌≡◌, Option, none, some, List, [], ◌∷◌, arith, ok, err, unwrap_or, ◌==◌,
  if◌then◌else◌,
}
use prism_contracts.Cosmwasm.{Std, IsStd, determined}
use prism_contracts.Storage.{Addr, Map, save, remove}
use prism_contracts.Messages.{StdError, Env, CosmosMsg, cw20, privileged_refresh_boost, Cw20Msg}
use prism_contracts.Boost.{
  ContractError, invalid_unbond, State, Config, UserInfo, unbond_user, fresh_info,
}

-- The users after one of them has unbonded all but `left`.
abbrev pub users_after : State → Env → Addr → ℕ → Map UserInfo
users_after s env sender left =
    if left == 0
    then remove sender s.user_info
    else save sender (record (fresh_info env) { amt_bonded = left }) s.user_info

-- The payment, and the call of the launch pool if there is one.
abbrev pub unbond_messages : Config → Addr → ℕ → List CosmosMsg
unbond_messages cfg sender amt =
    cw20 cfg.xprism_token (Cw20Msg.transfer sender amt) ∷ elim cfg.launch_pool_contract [
      | none ↦ []
      | some address ↦ privileged_refresh_boost address sender ∷ []
    ]

module _ (ops : Std) (h : IsStd ops) where
  -- Up to the bonded amount an unbonding succeeds: it pays exactly what leaves the record, resets
  -- the boost and both times (or removes an empty record), and tells the launch pool.
  pub unbond_user-pays :
      (s : State) (env : Env) (cfg : Config) (sender : Addr) (u : UserInfo) (amount : Option ℕ)
      → s.config ≡ some cfg
      → s.user_info sender ≡ some u
      → unwrap_or amount u.amt_bonded ≤ u.amt_bonded
      → let amt = unwrap_or amount u.amt_bonded in
        unbond_user ops s env sender amount
        ≡ ok (
          record s { user_info = users_after s env sender (u.amt_bonded - amt) },
          unbond_messages cfg sender amt,
        )
  unfolding unbond_user
  unbond_user-pays s env cfg sender u amount = rw (determined h) (λ c e le. ground arith)

  -- A user who never bonded, or who asks for more than is bonded, is refused.
  pub unbond_user-refuses :
      (s : State) (env : Env) (sender : Addr) (amt : ℕ)
      → ((s.user_info sender ≡ none)
          → unbond_user ops s env sender (some amt) ≡ err (ContractError.std StdError.not_found))
        × ((u : UserInfo)
            → s.user_info sender ≡ some u
            → u.amt_bonded < amt
            → unbond_user ops s env sender (some amt) ≡ err invalid_unbond)
  unfolding unbond_user
  unbond_user-refuses s env sender amt =
      rw (determined h) (λ e. ground arith, λ u e lt. ground arith)
