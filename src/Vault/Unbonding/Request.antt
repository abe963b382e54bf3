-- ===== src/Vault/Unbonding/Request.antt =====
-- What a request to unbond queues, and how a batch is closed.
use prism_contracts.Prelude.{
  ℕ, ◌+◌, ◌-◌, ◌*◌, ◌/◌, ◌≤◌, ◌<◌, ◌≡◌, ◌≢◌, min, false, List, arith, ◌⊎◌, ok, u64_size,
}
use prism_contracts.Prelude.Lists.{length}
use prism_contracts.Cosmwasm.{Std, IsStd, determined, decimal_one, u128_size}
use prism_contracts.Messages.{Env, CosmosMsg}
use prism_contracts.Querier.{Querier, Delegation}
use prism_contracts.Vault.State.{
  State, Store, Parameters, CurrentBatch, UnbondHistory, store_unbond_history,
}
use prism_contracts.Vault.Unbonding.{amount_less_fee, undelegate_batch, pick_unbond_validator}
use prism_contracts.Vault.Unbonding.Pick.{IsMet, delegated, pick_unbond_validator-meets}

abbrev pub max_fee : Parameters → ℕ → ℕ
max_fee params amount = amount * params.peg_recovery_fee / decimal_one

module _ (ops : Std) (law : IsStd ops) (rng : ℕ → ℕ → ℕ) where
  -- A request that is accepted is queued in full at or above the threshold of the exchange rate.
  -- Below it, the claims are at least what is bonded, and the request loses exactly the lesser of the
  -- recovery fee and of what the bonded amount lacks of the claims, so that the claims that remain,
  -- with what is queued, are still at least what is bonded.
  pub amount_less_fee-bounds :
      (params : Parameters) (st : State) (supply requested amount queued : ℕ)
      → amount_less_fee ops rng params st supply requested amount ≡ ok queued
      → (queued ≤ amount)
        × (((params.er_threshold ≤ st.exchange_rate) × (queued ≡ amount))
            ⊎ ((st.exchange_rate < params.er_threshold)
                × (st.total_bond_amount ≤ supply + requested)
                × (amount
                    ≡ queued
                      + min (max_fee params amount) (supply + requested - st.total_bond_amount))
                × (st.total_bond_amount + amount ≤ supply + requested + queued)))
  unfolding amount_less_fee
  amount_less_fee-bounds params st supply requested amount queued =
      rw (determined law) (λ e. (ground arith, ground arith))

-- The record of a batch that is closed.
abbrev pub closed : Env → State → CurrentBatch → UnbondHistory
closed env st batch = record {
  batch_id = batch.id;
  time = env.seconds;
  amount = batch.requested_with_fee;
  applied_exchange_rate = st.exchange_rate;
  withdraw_rate = st.exchange_rate;
  released = false;
}

-- The closing, given the messages.
undelegate_batch-run :
    (ops : Std) (law : IsStd ops) (rng : ℕ → ℕ → ℕ) (q : Querier) (s : Store) (env : Env)
    (params : Parameters) (st : State) (batch : CurrentBatch) (msgs : List CosmosMsg)
    → let worth = batch.requested_with_fee * st.exchange_rate / decimal_one in
      worth < u128_size
      → worth ≢ 1
      → worth ≤ st.total_bond_amount
      → batch.id + 1 < u64_size
      → pick_unbond_validator ops rng q params.underlying_coin_denom worth env.address env.height
        ≡ ok msgs
      → undelegate_batch ops rng q s env params st batch
        ≡ ok (
          store_unbond_history s batch.id (closed env st batch),
          record st {
            total_bond_amount =
                st.total_bond_amount - batch.requested_with_fee * st.exchange_rate / decimal_one;
            last_unbonded_time = env.seconds;
          },
          record { id = batch.id + 1; requested_with_fee = 0 },
          msgs,
        )
unfolding undelegate_batch
undelegate_batch-run ops law rng q s env params st batch msgs range other backed id =
    rw (determined law) (λ run. ground arith)

module _ (ops : Std) (law : IsStd ops) (rng : ℕ → ℕ → ℕ)
    (fair : (k n : ℕ) → 0 < n → rng k n < n) where
  -- A batch that is worth other than one unit, that the delegations and the stored amount cover, is
  -- closed where the numbers fit into their types and the generator draws below its bound: its worth
  -- is undelegated, from each validator at most what is delegated to it, and leaves the stored amount, it goes into the history unreleased at the current
  -- rate, and an empty batch with the next id is opened.
  pub undelegate_batch-closes :
      (q : Querier) (s : Store) (env : Env) (params : Parameters) (st : State)
      (batch : CurrentBatch) (ds : List Delegation)
      → let worth = batch.requested_with_fee * st.exchange_rate / decimal_one in
        q.all_delegations env.address ≡ ok ds
        → worth < u128_size
        → worth ≢ 1
        → worth ≤ delegated ds
        → worth ≤ st.total_bond_amount
        → env.height + length ds < u64_size
        → batch.id + 1 < u64_size
        → (msgs : List CosmosMsg) × (undelegate_batch ops rng q s env params st batch
            ≡ ok (
              store_unbond_history s batch.id (closed env st batch),
              record st {
                total_bond_amount = st.total_bond_amount - worth;
                last_unbonded_time = env.seconds;
              },
              record { id = batch.id + 1; requested_with_fee = 0 },
              msgs,
            ))
          × IsMet params.underlying_coin_denom worth ds msgs
  undelegate_batch-closes q s env params st batch ds e range other le backed height id =
      let worth = batch.requested_with_fee * st.exchange_rate / decimal_one in
      let (msgs, run, met) =
        pick_unbond_validator-meets ops law rng fair q params.underlying_coin_denom worth env.height
          env.address ds e le height in
      (
        msgs,
        undelegate_batch-run ops law rng q s env params st batch msgs range other backed id run,
        met,
      )
