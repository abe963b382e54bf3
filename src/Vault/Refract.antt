-- ===== src/Vault/Refract.antt =====
-- contracts/prism-vault/src/refract.rs: cLuna is locked for yLuna and pLuna, and given back for them.
use prism_contracts.Prelude.{
  ℕ, ◌≡◌, ◌⊎◌, inl, inr, List, [], ◌∷◌, arith, Result, ok, ◌>>=◌, Option-cases,
}
use prism_contracts.Vault.State.Requests.{initialized_only}
use prism_contracts.Storage.{Addr}
use prism_contracts.Messages.{StdError, Env, CosmosMsg, cw20, Cw20Msg, load_item}
use prism_contracts.Vault.State.{Store, Response, assert_initialized}

pub split : Store → Env → Addr → ℕ → Result StdError Response
split s env sender amount = do
  cfg ← load_item s.config
  cfg ← assert_initialized cfg
  ok (
    s,
    cw20 cfg.cluna_contract (Cw20Msg.transfer_from sender env.address amount)
        ∷ cw20 cfg.yluna_contract (Cw20Msg.mint sender amount)
        ∷ cw20 cfg.pluna_contract (Cw20Msg.mint sender amount)
        ∷ [],
  )

pub merge : Store → Addr → ℕ → Result StdError Response
merge s sender amount = do
  cfg ← load_item s.config
  cfg ← assert_initialized cfg
  ok (
    s,
    cw20 cfg.yluna_contract (Cw20Msg.burn_from sender amount)
        ∷ cw20 cfg.pluna_contract (Cw20Msg.burn_from sender amount)
        ∷ cw20 cfg.cluna_contract (Cw20Msg.transfer sender amount)
        ∷ [],
  )

-- Neither changes what is stored.
pub refract-same :
    (s t : Store) (env : Env) (sender : Addr) (amount : ℕ) (msgs : List CosmosMsg)
    → (split s env sender amount ≡ ok (t, msgs)) ⊎ (merge s sender amount ≡ ok (t, msgs))
    → t ≡ s
unfolding split merge
refract-same s t env sender amount msgs e = elim (Option-cases s.config) [
  | inl bad ↦ absurd (grind arith)
  | inr (cfg, e1) ↦ grind (arith, initialized_only cfg)
]
