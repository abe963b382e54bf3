-- ===== src/Vault/Unbonding/Withdraw.antt =====
-- What `execute_withdraw_unbonded` pays and leaves.
use prism_contracts.Prelude.{
  ℕ, ◌+◌, ◌-◌, ◌≤◌, ◌<◌, ◌≡◌, ◌≢◌, ◌∙◌, ap, subst, none, some, List, [], ◌∷◌, arith, ok, inl, inr,
  Result-cases, Option-cases, str_eq_iff,
}
use prism_contracts.Prelude.Lists.{length}
use prism_contracts.Cosmwasm.{Std, IsStd}
use prism_contracts.Storage.{Addr}
use prism_contracts.Storage.Ordered.{IsOrdered}
use prism_contracts.Messages.{Env, CosmosMsg, bank_send}
use prism_contracts.Querier.{Querier}
use prism_contracts.Vault.State.{
  State, Store, Parameters, get_finished_amount, get_unbond_batches, remove_unbond_wait_list,
}
use prism_contracts.Vault.State.Requests.{
  state-remove_unbond_wait_list, history-remove_unbond_wait_list, waitlist-remove_unbond_wait_list,
  finished-after,
}
use prism_contracts.Vault.Release.{process_withdraw_rate}
use prism_contracts.Vault.Release.Correct.{waitlist-process}
use prism_contracts.Vault.Unbonding.{execute_withdraw_unbonded}

-- What a withdrawal that goes through is: `released` is the store after the batches were released.
pub record Withdrawal (ops : Std) (q : Querier) (s t : Store) (env : Env) (sender : Addr)
    (msgs : List CosmosMsg) : Type 0 where
  pub params : Parameters
  pub st : State
  pub balance : ℕ
  pub amount : ℕ
  pub released : Store
  pub has_params : s.parameters ≡ some params
  pub has_balance : q.balance env.address params.underlying_coin_denom ≡ ok balance
  pub ready : params.unbonding_period ≤ env.seconds
  pub release :
      process_withdraw_rate ops s (env.seconds - params.unbonding_period) balance ≡ ok released
  pub has_state : released.state ≡ some st
  pub finished : get_finished_amount ops released sender none ≡ ok amount
  pub some_amount : 0 < amount
  pub covered : amount ≤ balance
  pub after :
      t
      ≡ record (remove_unbond_wait_list released (get_unbond_batches released sender none) sender) {
        state = some (record st { prev_vault_balance = balance - amount });
      }
  pub paid : msgs ≡ bank_send sender amount params.underlying_coin_denom ∷ []

pub execute-Withdrawal :
    (ops : Std) (law : IsStd ops) (rng : ℕ → ℕ → ℕ) (q : Querier) (s t : Store) (env : Env)
    (sender : Addr) (msgs : List CosmosMsg)
    → execute_withdraw_unbonded ops rng q s env sender ≡ ok (t, msgs)
    → Withdrawal ops q s t env sender msgs
unfolding execute_withdraw_unbonded
execute-Withdrawal ops law rng q s t env sender msgs e = elim (Option-cases s.parameters) [
  | inl bad ↦ absurd (ground arith)
  | inr (p, e0) ↦ elim (Result-cases (q.balance env.address p.underlying_coin_denom)) [
    | inr bad ↦ absurd (ground arith)
    | inl (balance, e1) ↦
        elim (Result-cases
          (process_withdraw_rate ops s (env.seconds - p.unbonding_period) balance)) [
            | inr bad ↦ absurd (ground arith)
            | inl (released, e2) ↦
                elim (Result-cases (get_finished_amount ops released sender none)) [
                  | inr bad ↦ absurd (ground arith)
                  | inl (amount, e3) ↦
                      let same_state =
                        state-remove_unbond_wait_list released
                          (get_unbond_batches released sender none) sender in
                      elim (Option-cases released.state) [
                        | inl bad ↦ absurd (ground (arith, same_state))
                        | inr (st, e4) ↦ record {
                          params = p;
                          st = st;
                          balance = balance;
                          amount = amount;
                          released = released;
                          has_params = e0;
                          has_balance = e1;
                          ready = ground arith;
                          release = e2;
                          has_state = e4;
                          finished = e3;
                          some_amount = ground arith;
                          covered = ground (arith, law.checked_sub_eq balance amount, same_state);
                          after = ground (arith, law.checked_sub_eq balance amount, same_state);
                          paid = ground (arith, law.checked_sub_eq balance amount, same_state);
                        }
                      ]
                ]
          ]
  ]
]

others-removed :
    (s : Store) (bs : List ℕ) (a j : Addr)
    → j ≢ a
    → (remove_unbond_wait_list s bs a).unbond_waitlist j ≡ s.unbond_waitlist j
others-removed s bs a j other =
    ground (arith, waitlist-remove_unbond_wait_list s bs a j, str_eq_iff j a)

module _ (ops : Std) (law : IsStd ops) where
  -- For a sender with at most 30 requests, in the order of their batches: a withdrawal that goes
  -- through pays the sender what is finished after the release, which is more than nothing, out of
  -- the vault's balance; it records what is left of the balance, leaves the requests of all others
  -- alone, and leaves nothing of the sender that is finished.
  pub withdraw-pays_once :
      (rng : ℕ → ℕ → ℕ) (q : Querier) (s t : Store) (env : Env) (sender : Addr)
      (msgs : List CosmosMsg)
      → IsOrdered 0 (s.unbond_waitlist sender)
      → length (s.unbond_waitlist sender) ≤ 30
      → execute_withdraw_unbonded ops rng q s env sender ≡ ok (t, msgs)
      → (params : Parameters) × (st : State) × (amount : ℕ) × (released : Store) × (s.parameters
          ≡ some params)
        × (0 < amount)
        × (msgs ≡ bank_send sender amount params.underlying_coin_denom ∷ [])
        × (t.state ≡ some st)
        × (q.balance env.address params.underlying_coin_denom ≡ ok (st.prev_vault_balance + amount))
        × (process_withdraw_rate ops s
              (env.seconds - params.unbonding_period)
              (st.prev_vault_balance + amount)
            ≡ ok released)
        × (get_finished_amount ops released sender none ≡ ok amount)
        × ((j : Addr) → j ≢ sender → t.unbond_waitlist j ≡ s.unbond_waitlist j)
        × (get_finished_amount ops t sender none ≡ ok 0)
  withdraw-pays_once rng q s t env sender msgs o le e =
      let w = execute-Withdrawal ops law rng q s t env sender msgs e in
      let same =
        waitlist-process ops law s w.released (env.seconds - w.params.unbonding_period) w.balance
          w.release in
      let batches = get_unbond_batches w.released sender none in
      (
        w.params,
        record w.st { prev_vault_balance = w.balance - w.amount },
        w.amount,
        w.released,
        w.has_params,
        w.some_amount,
        w.paid,
        ap (λ (x : Store). x.state) w.after,
        w.has_balance ∙ ap ok (omega (arith, w.covered)),
        subst
            (λ (b : ℕ).
              process_withdraw_rate ops s (env.seconds - w.params.unbonding_period) b
              ≡ ok w.released)
            (omega (arith, w.covered)) w.release,
        w.finished,
        λ j other.
            ap (λ (x : Store). x.unbond_waitlist j) w.after
            ∙ others-removed w.released batches sender j other
            ∙ ap (λ f. f j) same,
        finished-after ops w.released t sender (rw same o) (rw same le)
            (ap (λ (x : Store). x.unbond_history) w.after
              ∙ history-remove_unbond_wait_list w.released batches sender)
            (ap (λ (x : Store). x.unbond_waitlist sender) w.after),
      )
