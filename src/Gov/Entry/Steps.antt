-- ===== src/Gov/Entry/Steps.antt =====
-- Every message of the contract, and every reply, moves each poll along the machine of Progress.
use prism_contracts.Prelude.{
  ℕ, ◌≡◌, ◌⊎◌, refl, ap, sym, subst, ◌∙◌, Option, some, List, String, arith, Result, ok, inl, inr,
  Result-cases, Option-cases, unwrap_or, str_eq, Bool-cases, ◌==◌,
}
use prism_contracts.Cosmwasm.{Std, IsStd}
use prism_contracts.Storage.{Addr}
use prism_contracts.Messages.{StdError, Env, CosmosMsg, Cw20ReceiveMsg, Validator}
use prism_contracts.Querier.{Querier}
use prism_contracts.Gov.{PollStatus, executed, Poll, Store, VoteOption}
use prism_contracts.Gov.Frame.{SamePolls, Replaces}
use prism_contracts.Gov.Polls.{
  poll_execute_reply_id, end_poll, cast_vote, snapshot_poll, execute_poll,
}
use prism_contracts.Gov.Polls.Lifecycle.{end_poll-Decided}
use prism_contracts.Gov.Polls.Frame.{
  cast_vote-Replaces, snapshot_poll-Replaces, execute_poll-Replaces, end_poll-frame,
  failed_poll-Replaces,
}
use prism_contracts.Gov.Creation.Fresh.{create_poll-IsFresh}
use prism_contracts.Gov.Voting.Frame.{
  stake_voting_tokens-SamePolls, withdraw_voting_tokens-SamePolls,
}
use prism_contracts.Gov.Xprism.Frame.{
  mint_xprism-SamePolls, redeem_xprism-SamePolls, claim_redeemed_prism-SamePolls,
}
use prism_contracts.Gov.Entry.{
  ExecuteMsg, Cw20HookMsg, execute, receive_cw20, xprism_hook, prism_hook, set_config, reply,
  set_xprism_token,
}
use prism_contracts.Gov.Entry.Progress.{
  Step, stay, pass, reject, run, fail, Step-on, IsTracked, Follows, same-Follows, save-Follows,
  create-Follows,
}

SamePolls-Follows : (s t : Store) → SamePolls s t → IsTracked s → Follows s t
SamePolls-Follows s t (polls, last, tmp, config) h = same-Follows s t polls last tmp h

-- A poll is replaced by one whose status is the same, or may come next.
Replaces-Follows :
    (s t : Store) (poll_id : ℕ) (old new : Poll)
    → Replaces s t poll_id old new
    → Step (some old.status) (some new.status)
    → (t.tmp_poll_id ≡ s.tmp_poll_id) ⊎ ((t.tmp_poll_id ≡ some poll_id) × (new.status ≡ executed))
    → IsTracked s
    → Follows s t
Replaces-Follows s t poll_id old new (found, same, polls, last, config) step tmp h =
    save-Follows s t poll_id old new found step same polls last (λ i e. ground arith) h

Step-at : (a b : PollStatus) → b ≡ a → Step (some a) (some b)
Step-at a b e = subst (λ c. Step (some a) (some c)) (sym e) stay

module _ (ops : Std) (law : IsStd ops) (humanize canonicalize : Validator) (q : Querier) where
  end_poll-Follows :
      (s t : Store) (env : Env) (poll_id : ℕ) (msgs : List CosmosMsg)
      → end_poll ops humanize canonicalize q s env poll_id ≡ ok (t, msgs)
      → IsTracked s
      → Follows s t
  end_poll-Follows s t env poll_id msgs e h =
      let (
        cfg, xprism, token, old, supply, status, e1, e2, e3, found, going, over, total, decided,
        polls,
      ) =
        end_poll-Decided ops law humanize canonicalize q s t env poll_id msgs e in
      let (last, tmp, config) = end_poll-frame ops humanize canonicalize q s t env poll_id msgs e in
      let step : Step (some old.status) (some status) = elim decided.1 [
        | inl won ↦ Step-on (ap some going) (ap some won) pass
        | inr lost ↦ Step-on (ap some going) (ap some lost) reject
      ] in
      Replaces-Follows s t poll_id old
        (record old { status = status; supply_snapshot = some supply })
        (found, refl, polls, last, config) step (inl tmp) h

  cast_vote-Follows :
      (s t : Store) (env : Env) (sender : Addr) (poll_id : ℕ) (vote : VoteOption) (amount : ℕ)
      (msgs : List CosmosMsg)
      → cast_vote ops humanize canonicalize q s env sender poll_id vote amount ≡ ok (t, msgs)
      → IsTracked s
      → Follows s t
  cast_vote-Follows s t env sender poll_id vote amount msgs e h =
      let (old, new, r, same, tmp) =
        cast_vote-Replaces ops humanize canonicalize q s t env sender poll_id vote amount msgs e in
      Replaces-Follows s t poll_id old new r (Step-at old.status new.status same) (inl tmp) h

  snapshot_poll-Follows :
      (s t : Store) (env : Env) (poll_id : ℕ) (msgs : List CosmosMsg)
      → snapshot_poll ops humanize canonicalize q s env poll_id ≡ ok (t, msgs)
      → IsTracked s
      → Follows s t
  snapshot_poll-Follows s t env poll_id msgs e h =
      let (old, new, r, same, tmp) =
        snapshot_poll-Replaces ops humanize canonicalize q s t env poll_id msgs e in
      Replaces-Follows s t poll_id old new r (Step-at old.status new.status same) (inl tmp) h

  execute_poll-Follows :
      (s t : Store) (env : Env) (poll_id : ℕ) (msgs : List CosmosMsg)
      → execute_poll ops humanize canonicalize q s env poll_id ≡ ok (t, msgs)
      → IsTracked s
      → Follows s t
  execute_poll-Follows s t env poll_id msgs e h =
      let (old, new, r, before, after, tmp) =
        execute_poll-Replaces ops humanize canonicalize q s t env poll_id msgs e in
      Replaces-Follows s t poll_id old new r (Step-on (ap some before) (ap some after) run)
        (inr (tmp ∙ ap some (h.ids poll_id old r.0), after)) h

module _ (ops : Std) (law : IsStd ops) (humanize canonicalize addr_validate : Validator)
    (plus_seconds : Env → ℕ → Option ℕ) (q : Querier)
    (from_binary : String → Result StdError Cw20HookMsg) where
  hook-Follows :
      (s t : Store) (env : Env) (m : Cw20ReceiveMsg) (hook : Cw20HookMsg) (msgs : List CosmosMsg)
      → xprism_hook ops humanize canonicalize addr_validate plus_seconds q from_binary s env m hook
        ≡ ok (t, msgs)
      → IsTracked s
      → Follows s t
  unfolding xprism_hook
  hook-Follows s t env m Cw20HookMsg.stake_voting_tokens msgs e h =
      SamePolls-Follows s t
        (stake_voting_tokens-SamePolls ops humanize canonicalize s t m.sender m.amount msgs e) h
  hook-Follows s t env m Cw20HookMsg.redeem_xprism msgs e h =
      SamePolls-Follows s t
        (redeem_xprism-SamePolls ops humanize plus_seconds q s t env m.sender m.amount msgs e) h
  hook-Follows s t env m (Cw20HookMsg.mint_xprism receiver) msgs e h = absurd (ground arith)
  hook-Follows s t env m (Cw20HookMsg.create_poll title description link payload) msgs e h =
      let (
        fresh, cfg, id, new, config, before, after, own, tmp, same, going, votes, deposit, ends,
        others,
      ) =
        create_poll-IsFresh humanize canonicalize s t env m.sender m.amount title description link
          payload msgs h.fresh e in
      create-Follows s t id new before after going own others tmp fresh h

  prism_hook-Follows :
      (s t : Store) (env : Env) (m : Cw20ReceiveMsg) (hook : Cw20HookMsg) (msgs : List CosmosMsg)
      → prism_hook ops humanize canonicalize addr_validate plus_seconds q from_binary s env m hook
        ≡ ok (t, msgs)
      → IsTracked s
      → Follows s t
  unfolding prism_hook
  prism_hook-Follows s t env m (Cw20HookMsg.mint_xprism receiver) msgs e h =
      elim (Result-cases (addr_validate (unwrap_or receiver m.sender))) [
        | inr bad ↦ absurd (ground arith)
        | inl (address, e1) ↦
            SamePolls-Follows s t
              (mint_xprism-SamePolls ops humanize plus_seconds q s t env
                (unwrap_or receiver m.sender) m.amount msgs (ground arith))
              h
      ]
  prism_hook-Follows s t env m Cw20HookMsg.stake_voting_tokens msgs e h = absurd (ground arith)
  prism_hook-Follows s t env m Cw20HookMsg.redeem_xprism msgs e h = absurd (ground arith)
  prism_hook-Follows s t env m (Cw20HookMsg.create_poll a b c d) msgs e h = absurd (ground arith)

  receive-Follows :
      (s t : Store) (env : Env) (sender : Addr) (m : Cw20ReceiveMsg) (msgs : List CosmosMsg)
      → receive_cw20 ops humanize canonicalize addr_validate plus_seconds q from_binary s env sender
          m
        ≡ ok (t, msgs)
      → IsTracked s
      → Follows s t
  unfolding receive_cw20
  receive-Follows s t env sender m msgs e h = elim (Option-cases s.config) [
    | inl bad ↦ absurd (ground arith)
    | inr (cfg, e1) ↦ elim (Result-cases (canonicalize sender)) [
      | inr bad ↦ absurd (ground arith)
      | inl (key, e2) ↦ elim (Option-cases cfg.xprism_token) [
        | inl bad ↦ absurd (ground arith)
        | inr (xprism, e3) ↦ elim (Result-cases (from_binary m.msg)) [
          | inr bad ↦ absurd (ground arith)
          | inl (hook, e4) ↦ elim (Bool-cases (str_eq xprism key)) [
            | inl eq ↦ hook-Follows s t env m hook msgs (ground arith) h
            | inr ne ↦ prism_hook-Follows s t env m hook msgs (ground arith) h
          ]
        ]
      ]
    ]
  ]

  -- From a store that is tracked, every message leads to one that is tracked, and the status of each
  -- poll stays or makes one step of the machine: a poll is created in progress, passes or is
  -- rejected once, and is run at most once, after it passed.
  pub execute-Follows :
      (s t : Store) (env : Env) (sender : Addr) (msg : ExecuteMsg) (msgs : List CosmosMsg)
      → execute ops humanize canonicalize addr_validate plus_seconds q from_binary s env sender msg
        ≡ ok (t, msgs)
      → IsTracked s
      → Follows s t
  unfolding execute set_config
  execute-Follows s t env sender (ExecuteMsg.receive m) msgs e h =
      receive-Follows s t env sender m msgs e h
  execute-Follows s t env sender (ExecuteMsg.update_config c) msgs e h =
      same-Follows s t (ground arith) (ground arith) (ground arith) h
  execute-Follows s t env sender (ExecuteMsg.withdraw_voting_tokens amount) msgs e h =
      SamePolls-Follows s t
        (withdraw_voting_tokens-SamePolls ops humanize canonicalize s t sender amount msgs e) h
  execute-Follows s t env sender (ExecuteMsg.cast_vote poll_id vote amount) msgs e h =
      cast_vote-Follows ops law humanize canonicalize q s t env sender poll_id vote amount msgs e h
  execute-Follows s t env sender (ExecuteMsg.end_poll poll_id) msgs e h =
      end_poll-Follows ops law humanize canonicalize q s t env poll_id msgs e h
  execute-Follows s t env sender (ExecuteMsg.execute_poll poll_id) msgs e h =
      execute_poll-Follows ops law humanize canonicalize q s t env poll_id msgs e h
  execute-Follows s t env sender (ExecuteMsg.snapshot_poll poll_id) msgs e h =
      snapshot_poll-Follows ops law humanize canonicalize q s t env poll_id msgs e h
  execute-Follows s t env sender ExecuteMsg.claim_redeemed_xprism msgs e h =
      SamePolls-Follows s t
        (claim_redeemed_prism-SamePolls ops humanize plus_seconds q s t env sender msgs e) h

module _ (canonicalize : Validator) (Reply : Type 0) (reply_id : Reply → ℕ)
    (parse : Reply → Result StdError String) (addr_validate : Validator) where
  -- From a store that is tracked, every reply leads to one that is tracked, and the status of each
  -- poll stays or makes one step of the machine: only a poll that was run can fail.
  pub reply-Follows :
      (s t : Store) (msg : Reply) (msgs : List CosmosMsg)
      → reply canonicalize Reply reply_id parse addr_validate s msg ≡ ok (t, msgs)
      → IsTracked s
      → Follows s t
  unfolding reply set_xprism_token
  reply-Follows s t msg msgs e h = elim (Bool-cases (reply_id msg == poll_execute_reply_id)) [
    | inl eq ↦ elim (Option-cases s.tmp_poll_id) [
      | inl bad ↦ absurd (ground arith)
      | inr (poll_id, e1) ↦
          let (old, new, r, after, tmp) = failed_poll-Replaces s t poll_id msgs (ground arith) in
          let step : Step (some old.status) (some new.status) = elim (h.reported poll_id e1) [
            | inl ran ↦ Step-on (ground (arith, r.0)) (ap some after) fail
            | inr done ↦ Step-at old.status new.status (ground (arith, r.0))
          ] in
          Replaces-Follows s t poll_id old new r step (inl tmp) h
    ]
    | inr ne ↦ same-Follows s t (ground arith) (ground arith) (ground arith) h
  ]
