-- ===== src/Gov/Entry/Access.antt =====
-- Who may change the configuration, and that its rates and its gas limit stay valid.
use prism_contracts.Prelude.{
  ℕ, ◌≤◌, ◌≡◌, ◌⊎◌, sym, ◌∙◌, ap, Option, none, some, List, [], String, arith, Result, ok, inl, inr,
  Result-cases, Option-cases, unwrap_or, str_eq, str_eq_iff, Bool-cases, ◌==◌,
}
use prism_contracts.Cosmwasm.{Std, IsStd, decimal_one}
use prism_contracts.Storage.{Addr}
use prism_contracts.Messages.{StdError, Env, CosmosMsg, Cw20ReceiveMsg, Validator}
use prism_contracts.Querier.{Querier}
use prism_contracts.Gov.{Store, Config}
use prism_contracts.Gov.Polls.{poll_execute_reply_id}
use prism_contracts.Gov.Polls.Frame.{
  cast_vote-Replaces, snapshot_poll-Replaces, execute_poll-Replaces, end_poll-frame,
  failed_poll-Replaces,
}
use prism_contracts.Gov.Creation.Fresh.{IsFresh, create_poll-IsFresh}
use prism_contracts.Gov.Voting.Frame.{
  stake_voting_tokens-SamePolls, withdraw_voting_tokens-SamePolls,
}
use prism_contracts.Gov.Xprism.Frame.{
  mint_xprism-SamePolls, redeem_xprism-SamePolls, claim_redeemed_prism-SamePolls,
}
use prism_contracts.Gov.Entry.{
  ExecuteMsg, Cw20HookMsg, Changes, InstantiateMsg, instantiate, min_poll_gas_limit, execute,
  receive_cw20, xprism_hook, prism_hook, set_config, changed, reply, set_xprism_token,
  validate_quorum, validate_threshold, validate_poll_gas_limit,
}

-- The rates are at most one, and the gas limit is at least the least one.
abbrev pub IsValid : Config → Type 0
IsValid cfg =
    (cfg.quorum ≤ decimal_one)
    × (cfg.threshold ≤ decimal_one)
    × (min_poll_gas_limit ≤ cfg.poll_gas_limit)

-- The two tokens are the same.
abbrev SameTokens : Config → Config → Type 0
SameTokens cfg new = (new.prism_token ≡ cfg.prism_token) × (new.xprism_token ≡ cfg.xprism_token)

changed-IsValid :
    (canonicalize : Validator) (c : Changes) (cfg new : Config)
    → changed canonicalize c cfg ≡ ok new
    → SameTokens cfg new × (IsValid cfg → IsValid new)
unfolding changed validate_quorum validate_threshold validate_poll_gas_limit
changed-IsValid canonicalize c cfg new e = (ground arith, λ h. ground arith)

module _ (ops : Std) (law : IsStd ops) (humanize canonicalize addr_validate : Validator)
    (plus_seconds : Env → ℕ → Option ℕ) (q : Querier)
    (from_binary : String → Result StdError Cw20HookMsg) where
  hook-config :
      (s t : Store) (env : Env) (m : Cw20ReceiveMsg) (hook : Cw20HookMsg) (msgs : List CosmosMsg)
      → xprism_hook ops humanize canonicalize addr_validate plus_seconds q from_binary s env m hook
        ≡ ok (t, msgs)
      → IsFresh s
      → t.config ≡ s.config
  unfolding xprism_hook
  hook-config s t env m Cw20HookMsg.stake_voting_tokens msgs e fresh =
      (stake_voting_tokens-SamePolls ops humanize canonicalize s t m.sender m.amount msgs e).3
  hook-config s t env m Cw20HookMsg.redeem_xprism msgs e fresh =
      (redeem_xprism-SamePolls ops humanize plus_seconds q s t env m.sender m.amount msgs e).3
  hook-config s t env m (Cw20HookMsg.mint_xprism receiver) msgs e fresh = absurd (ground arith)
  hook-config s t env m (Cw20HookMsg.create_poll title description link payload) msgs e fresh =
      let (
        next, cfg, id, new, config, before, after, own, tmp, same, going, votes, deposit, ends,
        others,
      ) =
        create_poll-IsFresh humanize canonicalize s t env m.sender m.amount title description link
          payload msgs fresh e in
      same

  prism_hook-config :
      (s t : Store) (env : Env) (m : Cw20ReceiveMsg) (hook : Cw20HookMsg) (msgs : List CosmosMsg)
      → prism_hook ops humanize canonicalize addr_validate plus_seconds q from_binary s env m hook
        ≡ ok (t, msgs)
      → t.config ≡ s.config
  unfolding prism_hook
  prism_hook-config s t env m (Cw20HookMsg.mint_xprism receiver) msgs e =
      elim (Result-cases (addr_validate (unwrap_or receiver m.sender))) [
        | inr bad ↦ absurd (ground arith)
        | inl (address, e1) ↦
            (mint_xprism-SamePolls ops humanize plus_seconds q s t env (unwrap_or receiver m.sender)
              m.amount msgs (ground arith)).3
      ]
  prism_hook-config s t env m Cw20HookMsg.stake_voting_tokens msgs e = absurd (ground arith)
  prism_hook-config s t env m Cw20HookMsg.redeem_xprism msgs e = absurd (ground arith)
  prism_hook-config s t env m (Cw20HookMsg.create_poll a b c d) msgs e = absurd (ground arith)

  receive-config :
      (s t : Store) (env : Env) (sender : Addr) (m : Cw20ReceiveMsg) (msgs : List CosmosMsg)
      → receive_cw20 ops humanize canonicalize addr_validate plus_seconds q from_binary s env sender
          m
        ≡ ok (t, msgs)
      → IsFresh s
      → t.config ≡ s.config
  unfolding receive_cw20
  receive-config s t env sender m msgs e fresh = elim (Option-cases s.config) [
    | inl bad ↦ absurd (ground arith)
    | inr (cfg, e1) ↦ elim (Result-cases (canonicalize sender)) [
      | inr bad ↦ absurd (ground arith)
      | inl (key, e2) ↦ elim (Option-cases cfg.xprism_token) [
        | inl bad ↦ absurd (ground arith)
        | inr (xprism, e3) ↦ elim (Result-cases (from_binary m.msg)) [
          | inr bad ↦ absurd (ground arith)
          | inl (hook, e4) ↦ elim (Bool-cases (str_eq xprism key)) [
            | inl eq ↦ hook-config s t env m hook msgs (ground arith) fresh
            | inr ne ↦ prism_hook-config s t env m hook msgs (ground arith)
          ]
        ]
      ]
    ]
  ]

  set_config-owner :
      (s t : Store) (cfg : Config) (sender : Addr) (c : Changes) (msgs : List CosmosMsg)
      → s.config ≡ some cfg
      → set_config canonicalize s sender c ≡ ok (t, msgs)
      → (canonicalize sender ≡ ok cfg.owner)
        × (new : Config) × (t.config ≡ some new)
        × SameTokens cfg new
        × (IsValid cfg → IsValid new)
  unfolding set_config
  set_config-owner s t cfg sender c msgs e1 e = elim (Result-cases (canonicalize sender)) [
    | inr bad ↦ absurd (ground arith)
    | inl (key, e2) ↦ elim (Bool-cases (str_eq cfg.owner key)) [
      | inr bad ↦ absurd (ground arith)
      | inl eq ↦ elim (Result-cases (changed canonicalize c cfg)) [
        | inr bad ↦ absurd (ground arith)
        | inl (new, e3) ↦ (
          e2 ∙ ap ok (sym ((str_eq_iff cfg.owner key).0 eq)),
          new,
          ground arith,
          (changed-IsValid canonicalize c cfg new e3).0,
          (changed-IsValid canonicalize c cfg new e3).1,
        )
      ]
    ]
  ]

  -- Where no poll is stored from the next id on, a message leaves the configuration alone, or it
  -- comes from the owner; then it leaves both tokens alone, and keeps the rates within one and the
  -- gas limit at the least one or above.
  pub execute-owner :
      (s t : Store) (cfg : Config) (env : Env) (sender : Addr) (msg : ExecuteMsg)
      (msgs : List CosmosMsg)
      → s.config ≡ some cfg
      → execute ops humanize canonicalize addr_validate plus_seconds q from_binary s env sender msg
        ≡ ok (t, msgs)
      → IsFresh s
      → (t.config ≡ s.config)
        ⊎ ((canonicalize sender ≡ ok cfg.owner)
            × (new : Config) × (t.config ≡ some new)
            × SameTokens cfg new
            × (IsValid cfg → IsValid new))
  unfolding execute
  execute-owner s t cfg env sender (ExecuteMsg.receive m) msgs e1 e fresh =
      inl (receive-config s t env sender m msgs e fresh)
  execute-owner s t cfg env sender (ExecuteMsg.update_config c) msgs e1 e fresh =
      inr (set_config-owner s t cfg sender c msgs e1 e)
  execute-owner s t cfg env sender (ExecuteMsg.withdraw_voting_tokens amount) msgs e1 e fresh =
      inl (withdraw_voting_tokens-SamePolls ops humanize canonicalize s t sender amount msgs e).3
  execute-owner s t cfg env sender (ExecuteMsg.cast_vote poll_id vote amount) msgs e1 e fresh =
      let (old, new, (found, id, polls, last, config), rest, tmp) =
        cast_vote-Replaces ops humanize canonicalize q s t env sender poll_id vote amount msgs e in
      inl config
  execute-owner s t cfg env sender (ExecuteMsg.end_poll poll_id) msgs e1 e fresh =
      inl (end_poll-frame ops humanize canonicalize q s t env poll_id msgs e).2
  execute-owner s t cfg env sender (ExecuteMsg.execute_poll poll_id) msgs e1 e fresh =
      let (old, new, (found, id, polls, last, config), before, after, tmp) =
        execute_poll-Replaces ops humanize canonicalize q s t env poll_id msgs e in
      inl config
  execute-owner s t cfg env sender (ExecuteMsg.snapshot_poll poll_id) msgs e1 e fresh =
      let (old, new, (found, id, polls, last, config), rest, tmp) =
        snapshot_poll-Replaces ops humanize canonicalize q s t env poll_id msgs e in
      inl config
  execute-owner s t cfg env sender ExecuteMsg.claim_redeemed_xprism msgs e1 e fresh =
      inl (claim_redeemed_prism-SamePolls ops humanize plus_seconds q s t env sender msgs e).3

module _ (canonicalize : Validator) (Reply : Type 0) (reply_id : Reply → ℕ)
    (parse : Reply → Result StdError String) (addr_validate : Validator) where
  -- A reply keeps the configuration valid.
  pub reply-IsValid :
      (s t : Store) (cfg : Config) (msg : Reply) (msgs : List CosmosMsg)
      → s.config ≡ some cfg
      → reply canonicalize Reply reply_id parse addr_validate s msg ≡ ok (t, msgs)
      → (new : Config) × (t.config ≡ some new) × (IsValid cfg → IsValid new)
  unfolding reply set_xprism_token
  reply-IsValid s t cfg msg msgs e1 e = elim (Bool-cases (reply_id msg == poll_execute_reply_id)) [
    | inl eq ↦ elim (Option-cases s.tmp_poll_id) [
      | inl bad ↦ absurd (ground arith)
      | inr (poll_id, e2) ↦
          let (old, new, (found, id, polls, last, config), after, tmp) =
            failed_poll-Replaces s t poll_id msgs (ground arith) in
          (cfg, config ∙ e1, λ h. h)
    ]
    | inr ne ↦ elim (Result-cases (parse msg)) [
      | inr bad ↦ absurd (ground arith)
      | inl (text, e2) ↦ elim (Result-cases (addr_validate text)) [
        | inr bad ↦ absurd (ground arith)
        | inl (address, e3) ↦ elim (Result-cases (canonicalize address)) [
          | inr bad ↦ absurd (ground arith)
          | inl (token, e4) ↦ (record cfg { xprism_token = some token }, ground arith, λ h. h)
        ]
      ]
    ]
  ]

pub instantiate-IsValid :
    (canonicalize : Validator) (t : Store) (env : Env) (sender : Addr) (msg : InstantiateMsg)
    (msgs : List CosmosMsg)
    → instantiate canonicalize env sender msg ≡ ok (t, msgs)
    → (cfg : Config) × (t.config ≡ some cfg)
      × IsValid cfg
      × (t.polls ≡ [])
      × (t.last_poll_id ≡ some 1)
      × (t.tmp_poll_id ≡ none)
unfolding instantiate validate_quorum validate_threshold validate_poll_gas_limit
instantiate-IsValid canonicalize t env sender msg msgs e =
    elim (Result-cases (canonicalize msg.prism_token)) [
      | inr bad ↦ absurd (ground arith)
      | inl (prism, e1) ↦ elim (Result-cases (canonicalize sender)) [
        | inr bad ↦ absurd (ground arith)
        | inl (owner, e2) ↦
            let cfg : Config = record {
              owner = owner;
              prism_token = prism;
              xprism_token = none;
              quorum = msg.quorum;
              threshold = msg.threshold;
              voting_period = msg.voting_period;
              effective_delay = msg.effective_delay;
              proposal_deposit = msg.proposal_deposit;
              snapshot_period = msg.snapshot_period;
              redemption_time = msg.redemption_time;
              poll_gas_limit = msg.poll_gas_limit;
            } in
            (cfg, ground arith, ground arith, ground arith, ground arith, ground arith)
      ]
    ]
