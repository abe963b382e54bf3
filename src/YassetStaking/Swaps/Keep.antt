-- ===== src/YassetStaking/Swaps/Keep.antt =====
-- The handlers of swaps.rs change nothing that is stored.
use prism_contracts.Prelude.{ℕ, ◌≡◌, sym, subst, List, String, arith, Result, ok}
use prism_contracts.Cosmwasm.{Std}
use prism_contracts.Storage.{Addr}
use prism_contracts.Messages.{StdError, Env, CosmosMsg}
use prism_contracts.Querier.{Querier}
use prism_contracts.YassetStaking.{State}
use prism_contracts.YassetStaking.Frame.{SameBonds, SameBonds-refl}
use prism_contracts.YassetStaking.Swaps.{process_rewards, luna_to_pyluna, deposit_minted}

same_state : (s t : State) → t ≡ s → SameBonds s t
same_state s t e = subst (SameBonds s) (sym e) (SameBonds-refl s)

pub process-same :
    (all_balances : Addr → Result StdError (List (String × ℕ)))
    (exchange_rates : String → List String → Result StdError (List String)) (s t : State)
    (env : Env) (msgs : List CosmosMsg)
    → process_rewards all_balances exchange_rates s env ≡ ok (t, msgs)
    → SameBonds s t
unfolding process_rewards
process-same all_balances exchange_rates s t env msgs e = same_state s t (ground arith)

module _ (q : Querier) where
  pub luna-same :
      (s t : State) (env : Env) (msgs : List CosmosMsg)
      → luna_to_pyluna q s env ≡ ok (t, msgs)
      → SameBonds s t
  unfolding luna_to_pyluna
  luna-same s t env msgs e = same_state s t (ground arith)

  pub minted-same :
      (ops : Std) (s t : State) (env : Env) (sender : Addr) (pluna yluna : ℕ)
      (msgs : List CosmosMsg)
      → deposit_minted q ops s env sender pluna yluna ≡ ok (t, msgs)
      → SameBonds s t
  unfolding deposit_minted
  minted-same ops s t env sender pluna yluna msgs e = same_state s t (ground arith)
