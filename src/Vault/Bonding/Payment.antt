-- ===== src/Vault/Bonding/Payment.antt =====
-- A payment that is bonded: what `_execute_bond` read, and what it leaves.
use prism_contracts.Prelude.{
  ℕ, ◌+◌, ◌≡◌, Option, some, List, [], ◌∷◌, String, arith, ok, bind-ok, map_err, or_panic,
}
use prism_contracts.Cosmwasm.{Std, IsStd}
use prism_contracts.Storage.{Addr}
use prism_contracts.Messages.{
  load_item, generic_err, Env, MessageInfo, MustPay, CosmosMsg, cw20, delegate, Cw20Msg,
}
use prism_contracts.Querier.{Querier}
use prism_contracts.Vault.State.{State, Store, Parameters, Config, CurrentBatch}
use prism_contracts.Vault.Exchange.{
  slashing, update_exchange_rate, total_issued_or_zero, decimal_division,
}
use prism_contracts.Vault.State.Requests.{initialized_only}
use prism_contracts.Vault.Exchange.Rate.{rate_only}
use prism_contracts.Vault.Bonding.{mint_less_fee, bond_payment, select_validator}

-- A payment that is bonded: what was read, the state after the slashing check, and what is left.
pub record Bonded (ops : Std) (must_pay : MustPay) (q : Querier) (s t : Store) (env : Env)
    (info : MessageInfo) (validator : Option String) (minted : ℕ) (msgs : List CosmosMsg)
    (payment : ℕ) : Type 0 where
  pub params : Parameters
  pub batch : CurrentBatch
  pub before : State
  pub checked : State
  pub after : State
  pub quotient : ℕ
  pub supply : ℕ
  pub selected : Addr
  pub slashed : Store
  pub config : Config
  pub has_params : s.parameters ≡ some params
  pub has_state : s.state ≡ some before
  pub has_payment : must_pay info params.underlying_coin_denom ≡ ok payment
  pub slash : slashing ops q s env before params ≡ ok (slashed, checked)
  pub divided : decimal_division ops payment checked.exchange_rate ≡ ok quotient
  pub less_fee :
      mint_less_fee ops params checked supply batch.requested_with_fee payment quotient ≡ ok minted
  pub chosen : select_validator q s env.address validator ≡ ok selected
  pub grown : after.total_bond_amount ≡ checked.total_bond_amount + payment
  pub stored : t ≡ record slashed { state = some after }
  pub has_config : t.config ≡ some config
  pub messages :
      msgs
      ≡ delegate selected params.underlying_coin_denom payment
        ∷ cw20 config.cluna_contract (Cw20Msg.mint info.sender minted)
        ∷ []

pub bond_payment-Bonded :
    (ops : Std) (law : IsStd ops) (must_pay : MustPay) (q : Querier) (s t : Store) (env : Env)
    (info : MessageInfo) (validator : Option String) (minted : ℕ) (msgs : List CosmosMsg)
    (payment : ℕ)
    → bond_payment ops must_pay q s env info validator ≡ ok (t, minted, msgs, payment)
    → Bonded ops must_pay q s t env info validator minted msgs payment
unfolding bond_payment
bond_payment-Bonded ops law must_pay q s t env info validator minted msgs payment e =
    bind-ok (select_validator q s env.address validator) e λ selected e1 k1.
      bind-ok (load_item s.parameters) k1 λ params e2 k2.
        bind-ok (load_item s.current_batch) k2 λ batch e3 k3.
          bind-ok (map_err generic_err (must_pay info params.underlying_coin_denom)) k3 λ pay e4 k4.
            bind-ok (load_item s.state) k4 λ before e5 k5.
              bind-ok (slashing ops q s env before params) k5 λ (slashed, checked) e6 k6.
                bind-ok (total_issued_or_zero q slashed) k6 λ supply e7 k7.
                  bind-ok (decimal_division ops pay checked.exchange_rate) k7 λ quotient e8 k8.
                    bind-ok
                      (mint_less_fee ops params checked supply batch.requested_with_fee pay
                        quotient)
                      k8
                      λ less e9 k9. bind-ok (or_panic (ops.add supply less)) k9 λ issued e10 k10.
                        bind-ok (or_panic (ops.add checked.total_bond_amount pay)) k10
                          λ bonded e11 k11.
                            let st : State = record checked { total_bond_amount = bonded } in
                            let sum = law.add_eq checked.total_bond_amount pay in
                            bind-ok (update_exchange_rate ops st issued batch.requested_with_fee)
                              k11
                              λ after e12 k12.
                                bind-ok (load_item slashed.config) k12 λ config e13 k13. record {
                                  params = params;
                                  batch = batch;
                                  before = before;
                                  checked = checked;
                                  after = after;
                                  quotient = quotient;
                                  supply = supply;
                                  selected = selected;
                                  slashed = slashed;
                                  config = config;
                                  has_params = ground arith;
                                  has_state = ground arith;
                                  has_payment = ground arith;
                                  slash = e6;
                                  divided = ground arith;
                                  less_fee = ground arith;
                                  chosen = e1;
                                  grown = ground (
                                    arith,
                                    sum,
                                    rate_only ops st after issued batch.requested_with_fee e12,
                                  );
                                  stored = ground arith;
                                  has_config = ground arith;
                                  messages = ground (arith, initialized_only config);
                                }
