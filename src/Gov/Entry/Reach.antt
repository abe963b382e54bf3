-- ===== src/Gov/Entry/Reach.antt =====
-- The stores that the contract can be in, as an indexed type of its calls.
use prism_contracts.Prelude.{
  ℕ, ◌≡◌, refl, ap, ◌∙◌, Option, some, List, String, arith, Result, ok, inl, inr,
}
use prism_contracts.Cosmwasm.{Std, IsStd}
use prism_contracts.Storage.{Addr}
use prism_contracts.Storage.Ordered
use prism_contracts.Storage.Ordered.{OrderedMap}
use prism_contracts.Messages.{StdError, Env, CosmosMsg, Validator}
use prism_contracts.Querier.{Querier}
use prism_contracts.Gov.{PollStatus, rejected, Store, Config}
use prism_contracts.Gov.Entry.{ExecuteMsg, Cw20HookMsg, InstantiateMsg, instantiate, execute, reply}
use prism_contracts.Gov.Entry.Progress.{
  Step, stay, create, pass, reject, run, fail, IsTracked, HasRun, HasRun-Step, status_of,
}
use prism_contracts.Gov.Entry.Steps.{execute-Follows, reply-Follows}
use prism_contracts.Gov.Entry.Access.{IsValid, execute-owner, reply-IsValid, instantiate-IsValid}

module _ (ops : Std) (humanize canonicalize addr_validate : Validator)
    (plus_seconds : Env → ℕ → Option ℕ) (from_binary : String → Result StdError Cw20HookMsg)
    (Reply : Type 0) (reply_id : Reply → ℕ) (parse : Reply → Result StdError String) where
  -- The second store comes after the first: by calls that succeed, in any order, by any sender, at
  -- any time, and with any answers of the chain. A call that fails changes nothing.
  pub data Later : Store → Store → Type 0 where
    here : {s : Store} → Later s s
    call :
        {s t u : Store} (q : Querier) (env : Env) (sender : Addr) (msg : ExecuteMsg)
        (msgs : List CosmosMsg)
        → Later s t
        → execute ops humanize canonicalize addr_validate plus_seconds q from_binary t env sender
            msg
          ≡ ok (u, msgs)
        → Later s u
    answer :
        {s t u : Store} (msg : Reply) (msgs : List CosmosMsg)
        → Later s t
        → reply canonicalize Reply reply_id parse addr_validate t msg ≡ ok (u, msgs)
        → Later s u

  -- The polls are tracked and the configuration is valid.
  abbrev pub IsSound : Store → Type 0
  IsSound s = IsTracked s × (cfg : Config) × (s.config ≡ some cfg) × IsValid cfg

  instantiate-IsSound :
      (s : Store) (env : Env) (sender : Addr) (msg : InstantiateMsg) (msgs : List CosmosMsg)
      → instantiate canonicalize env sender msg ≡ ok (s, msgs)
      → IsSound s
  instantiate-IsSound s env sender msg msgs e =
      let (cfg, config, valid, polls, last, tmp) =
        instantiate-IsValid canonicalize s env sender msg msgs e in
      let nothing = λ (i : ℕ). ap (Ordered.load i) polls in
      (
        record {
          fresh = (1, last, λ i le. nothing i);
          ids = λ i poll found. absurd (ground (arith, nothing i));
          reported = λ i e2. absurd (ground (arith, tmp));
        },
        cfg,
        config,
        valid,
      )

  rejected-Step : {a b : Option PollStatus} → Step a b → a ≡ some rejected → b ≡ some rejected
  rejected-Step stay e = e
  rejected-Step create e = absurd (ground arith)
  rejected-Step pass e = absurd (ground arith)
  rejected-Step reject e = refl
  rejected-Step run e = absurd (ground arith)
  rejected-Step fail e = absurd (ground arith)

  -- What a later store keeps of each poll.
  abbrev pub Settled : Store → Store → Type 0
  Settled s t =
      (i : ℕ)
      → (status_of s i ≡ some rejected → status_of t i ≡ some rejected)
        × (HasRun (status_of s i) → HasRun (status_of t i))

  Settled-trans :
      (s t u : Store) → Settled s t → ((i : ℕ) → Step (status_of t i) (status_of u i)) → Settled s u
  Settled-trans s t u settled step i =
      (λ e. rejected-Step (step i) ((settled i).0 e), λ h. HasRun-Step (step i) ((settled i).1 h))

  module _ (law : IsStd ops) where
    Later-IsSound : (s t : Store) → Later s t → IsSound s → IsSound t × Settled s t
    Later-IsSound s t here h = (h, λ i. (λ e. e, λ e. e))
    Later-IsSound s u (call {t = t} q env sender msg msgs l e) h =
        let ((tracked, cfg, config, valid), settled) = Later-IsSound s t l h in
        let (tracked', step) =
          execute-Follows ops law humanize canonicalize addr_validate plus_seconds q from_binary t u
            env sender msg msgs e tracked in
        let sound : IsSound u =
          elim (execute-owner ops law humanize canonicalize addr_validate plus_seconds q from_binary
            t u cfg env sender msg msgs config e tracked.fresh) [
              | inl same ↦ (tracked', cfg, same ∙ config, valid)
              | inr (owner, new, stored, tokens, keeps) ↦ (tracked', new, stored, keeps valid)
            ] in
        (sound, Settled-trans s t u settled step)
    Later-IsSound s u (answer {t = t} msg msgs l e) h =
        let ((tracked, cfg, config, valid), settled) = Later-IsSound s t l h in
        let (tracked', step) =
          reply-Follows canonicalize Reply reply_id parse addr_validate t u msg msgs e tracked in
        let (new, stored, keeps) =
          reply-IsValid canonicalize Reply reply_id parse addr_validate t u cfg msg msgs config e in
        ((tracked', new, stored, keeps valid), Settled-trans s t u settled step)

    -- In every store that calls and replies reach from instantiation, the polls are tracked and the
    -- rates and the gas limit are valid; and in every store that they reach from there, a poll that
    -- was rejected is still rejected, and one that was run still counts as run.
    pub reached-IsSound :
        (s t u : Store) (env : Env) (sender : Addr) (msg : InstantiateMsg) (msgs : List CosmosMsg)
        → instantiate canonicalize env sender msg ≡ ok (s, msgs)
        → Later s t
        → Later t u
        → IsSound t × IsSound u × Settled t u
    reached-IsSound s t u env sender msg msgs e l1 l2 =
        let (sound, _) = Later-IsSound s t l1 (instantiate-IsSound s env sender msg msgs e) in
        let (after, settled) = Later-IsSound t u l2 sound in (sound, after, settled)
