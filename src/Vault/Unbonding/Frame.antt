-- ===== src/Vault/Unbonding/Frame.antt =====
-- Requests and withdrawals leave the configuration, the parameters and the validators alone.
use prism_contracts.Prelude.{
  ℕ, ◌-◌, ◌≡◌, Bool, true, false, some, [], ◌∷◌, ◌++◌, or_panic, sub_u64, if◌then◌else◌, Result,
  ◌>>=◌, ap, none, List, String, arith, ok, Result-cases, Option-cases, bind-ok, inl, inr, ltb,
}
use prism_contracts.Cosmwasm.{Std, IsStd}
use prism_contracts.Storage.{Addr}
use prism_contracts.Messages.{StdError, cw20, Cw20Msg, Env, CosmosMsg, Validator, load_item}
use prism_contracts.Querier.{Querier}
use prism_contracts.Vault.State.{
  State, Store, Parameters, CurrentBatch, get_unbond_batches, remove_unbond_wait_list,
  store_unbond_wait_list,
}
use prism_contracts.Vault.State.Frame.{
  SameAdmin, SameAdmin-trans, store_unbond_wait_list-SameAdmin, store_unbond_history-SameAdmin,
  remove_unbond_wait_list-SameAdmin,
}
use prism_contracts.Vault.Exchange.{slashing, update_exchange_rate, total_issued_or_zero}
use prism_contracts.Vault.Exchange.Rate.{slashing-SameAdmin}
use prism_contracts.Vault.Release.Correct.{process-SameAdmin}
use prism_contracts.Vault.Unbonding.{
  Response, assert_initialized, execute_unbond, execute_withdraw_unbonded, undelegate_batch,
  amount_less_fee, pick_unbond_validator,
}
use prism_contracts.Vault.Unbonding.Withdraw.{execute-Withdrawal}
use prism_contracts.Vault.Unbonding.Request.{closed}

module _ (ops : Std) (law : IsStd ops) (rng : ℕ → ℕ → ℕ) where
  undelegate_batch-SameAdmin :
      (q : Querier) (s t : Store) (env : Env) (params : Parameters) (st st' : State)
      (batch batch' : CurrentBatch) (msgs : List CosmosMsg)
      → undelegate_batch ops rng q s env params st batch ≡ ok (t, st', batch', msgs)
      → SameAdmin s t
  unfolding undelegate_batch
  undelegate_batch-SameAdmin q s t env params st st' batch batch' msgs e =
      elim (Option-cases (ops.mul_decimal batch.requested_with_fee st.exchange_rate)) [
        | inl bad ↦ absurd (ground arith)
        | inr (amount, e1) ↦
            elim (Result-cases (
              pick_unbond_validator ops rng q params.underlying_coin_denom amount env.address
                env.height)) [
                  | inr bad ↦ absurd (ground arith)
                  | inl (out, e2) ↦
                      let same = store_unbond_history-SameAdmin s batch.id (closed env st batch) in
                      (ground (arith, same.0), ground (arith, same.1), ground (arith, same.2))
                ]
      ]

  pub withdraw-SameAdmin :
      (q : Querier) (s t : Store) (env : Env) (sender : Addr) (msgs : List CosmosMsg)
      → execute_withdraw_unbonded ops rng q s env sender ≡ ok (t, msgs)
      → SameAdmin s t
  withdraw-SameAdmin q s t env sender msgs e =
      let w = execute-Withdrawal ops law rng q s t env sender msgs e in
      let batches = get_unbond_batches w.released sender none in
      let left = remove_unbond_wait_list w.released batches sender in
      SameAdmin-trans s w.released t
        (process-SameAdmin ops law s w.released (env.seconds - w.params.unbonding_period) w.balance
          w.release)
        (SameAdmin-trans w.released left t
          (remove_unbond_wait_list-SameAdmin w.released batches sender)
          (
            ap (λ (x : Store). x.config) w.after,
            ap (λ (x : Store). x.parameters) w.after,
            ap (λ (x : Store). x.validators) w.after,
          ))

  -- The batch is closed, if its epoch is over.
  perhaps_closed-SameAdmin :
      (over : Bool) (q : Querier) (s t : Store) (env : Env) (params : Parameters) (st st' : State)
      (batch batch' : CurrentBatch) (msgs : List CosmosMsg)
      → (if over then undelegate_batch ops rng q s env params st batch else ok (s, st, batch, []))
        ≡ ok (t, st', batch', msgs)
      → SameAdmin s t
  perhaps_closed-SameAdmin true q s t env params st st' batch batch' msgs e =
      undelegate_batch-SameAdmin q s t env params st st' batch batch' msgs e
  perhaps_closed-SameAdmin false q s t env params st st' batch batch' msgs e =
      (ground arith, ground arith, ground arith)

  -- What follows the request.
  settle : Querier → Store → Env → Parameters → State → CurrentBatch → ℕ → Result StdError Response
  settle q s env params st batch amount = do
    passed ← sub_u64 env.seconds st.last_unbonded_time
    (s, st, batch, msgs) ←
        if ltb params.epoch_period passed
        then undelegate_batch ops rng q s env params st batch
        else ok (s, st, batch, [])
    let s = record s { current_batch = some batch; state = some st }
    cfg ← load_item s.config
    cfg ← assert_initialized cfg
    ok (s, msgs ++ cw20 cfg.cluna_contract (Cw20Msg.burn amount) ∷ [])

  settled-SameAdmin :
      (q : Querier) (s t : Store) (env : Env) (params : Parameters) (st : State)
      (batch : CurrentBatch) (amount : ℕ) (msgs : List CosmosMsg)
      → settle q s env params st batch amount ≡ ok (t, msgs)
      → SameAdmin s t
  unfolding settle
  settled-SameAdmin q s t env params st batch amount msgs e =
      bind-ok (sub_u64 env.seconds st.last_unbonded_time) e λ passed e1 k1.
        bind-ok
          (if ltb params.epoch_period passed
            then undelegate_batch ops rng q s env params st batch
            else ok (s, st, batch, []))
          k1
          λ (u, st', batch', out) e2 k2.
            SameAdmin-trans s u t
              (perhaps_closed-SameAdmin (ltb params.epoch_period passed) q s u env params st st'
                batch batch' out e2)
              (ground arith, ground arith, ground arith)

  pub unbond-SameAdmin :
      (addr_validate : Validator) (q : Querier) (s t : Store) (env : Env) (amount : ℕ)
      (sender : String) (msgs : List CosmosMsg)
      → execute_unbond ops rng addr_validate q s env amount sender ≡ ok (t, msgs)
      → SameAdmin s t
  unfolding execute_unbond settle
  unbond-SameAdmin addr_validate q s t env amount sender msgs e =
      bind-ok (load_item s.current_batch) e λ batch e1 k1.
        bind-ok (load_item s.parameters) k1 λ params e2 k2.
          bind-ok (load_item s.state) k2 λ st e3 k3.
            bind-ok (slashing ops q s env st params) k3 λ (s1, st1) e4 k4.
              bind-ok (total_issued_or_zero q s1) k4 λ supply e5 k5.
                bind-ok (amount_less_fee ops rng params st1 supply batch.requested_with_fee amount)
                  k5
                  λ queued e6 k6.
                    bind-ok (or_panic (ops.add batch.requested_with_fee queued)) k6
                      λ requested e7 k7. bind-ok (addr_validate sender) k7 λ a e8 k8.
                        bind-ok (store_unbond_wait_list ops s1 batch.id a queued) k8 λ s2 e9 k9.
                          bind-ok (or_panic (ops.checked_sub supply amount)) k9 λ supply' e10 k10.
                            bind-ok (update_exchange_rate ops st1 supply' requested) k10
                              λ st2 e11 k11.
                                let batch' : CurrentBatch = record batch {
                                  requested_with_fee = requested;
                                } in
                                SameAdmin-trans s s1 t
                                  (slashing-SameAdmin ops law q s s1 env st st1 params e4)
                                  (SameAdmin-trans s1 s2 t
                                    (store_unbond_wait_list-SameAdmin ops s1 s2 batch.id a queued
                                      e9)
                                    (settled-SameAdmin q s2 t env params st2 batch' amount msgs
                                      k11))
