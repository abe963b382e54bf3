-- ===== src/Boost/Invariant.antt =====
-- The invariant of the whole state of the xPRISM boost contract, over every message of `execute`.
use prism_contracts.Prelude.{
  ℕ, ◌==◌, ◌-◌, ◌+◌, ◌≤◌, ◌<◌, ◌≡◌, refl, Option, none, some, List, String, arith, Result, ok,
  unwrap_or, Option-cases, inl, inr, Bool-cases, Result-cases,
}
use prism_contracts.Cosmwasm.{Std, IsStd, determined, decimal_one}
use prism_contracts.Storage.{Addr, save, remove}
use prism_contracts.Messages.{StdError, Env, CosmosMsg, Validator}
use prism_contracts.Boost.{
  State, Config, UserInfo, Cw20HookMsg, ExecuteMsg, InstantiateMsg, accumulate_boost, bond_user,
  unbond_user, updated_config, change_config, receive_cw20, execute, validate_option, instantiate,
  fresh_info,
}
use prism_contracts.Boost.Unbond.{users_after}
use prism_contracts.Boost.Accrual.{IsValid, accumulate_boost-IsValid}

-- Every user has something bonded, a valid record, and the rate is within its limit.
pub record IsSound (s : State) (now : ℕ) : Type 0 where
  pub cfg : Config
  pub stored : s.config ≡ some cfg
  pub limited : cfg.boost_per_hour ≤ decimal_one
  pub users :
      (a : Addr) (u : UserInfo) → s.user_info a ≡ some u → IsValid cfg now u × (0 < u.amt_bonded)

IsValid-mono :
    (c d : Config) (now later : ℕ) (u : UserInfo)
    → c.max_boost_per_xprism ≤ d.max_boost_per_xprism
    → now ≤ later
    → IsValid c now u
    → IsValid d later u
IsValid-mono c d now later u le after v = record {
  capped = grind arith;
  past = omega arith;
  started = v.started;
}

bonded-IsValid :
    (c : Config) (now amount : ℕ) (u : UserInfo)
    → IsValid c now u
    → IsValid c now (record u { amt_bonded = u.amt_bonded + amount })
bonded-IsValid c now amount u v = record {
  capped = grind arith;
  past = v.past;
  started = v.started;
}

-- One user's record changes, to a good one.
save-IsSound :
    (s : State) (now : ℕ) (k : Addr) (v : UserInfo) (sound : IsSound s now)
    → IsValid sound.cfg now v
    → 0 < v.amt_bonded
    → IsSound (record s { user_info = save k v s.user_info }) now
save-IsSound s now k v sound valid pos = record {
  cfg = sound.cfg;
  stored = sound.stored;
  limited = sound.limited;
  users = λ a u e. ground (arith, sound.users a u);
}

remove-IsSound :
    (s : State) (now : ℕ) (k : Addr)
    → IsSound s now
    → IsSound (record s { user_info = remove k s.user_info }) now
remove-IsSound s now k sound = record {
  cfg = sound.cfg;
  stored = sound.stored;
  limited = sound.limited;
  users = λ a u e. ground (arith, sound.users a u);
}

users_after-IsSound :
    (s : State) (env : Env) (k : Addr) (left : ℕ)
    → IsSound s env.seconds
    → IsSound (record s { user_info = users_after s env k left }) env.seconds
users_after-IsSound s env k left sound = elim (Bool-cases (left == 0)) [
  | inl e ↦ rw e (remove-IsSound s env.seconds k sound)
  | inr e ↦ rw e (
      save-IsSound s env.seconds k (record (fresh_info env) { amt_bonded = left }) sound
        (omega arith) (ground arith))
]

known_or_fresh-IsValid :
    (s : State) (env : Env) (a : Addr) (sound : IsSound s env.seconds)
    → IsValid sound.cfg env.seconds (unwrap_or (s.user_info a) (fresh_info env))
known_or_fresh-IsValid s env a sound = elim (Option-cases (s.user_info a)) [
  | inl e ↦ rw e (omega arith)
  | inr (u, e) ↦ rw e (sound.users a u e).0
]

module _ (ops : Std) (h : IsStd ops) where
  bond_user-IsSound :
      (addr_validate : Validator) (s t : State) (env : Env) (sender : String) (amount : ℕ)
      (msgs : List CosmosMsg)
      → IsSound s env.seconds
      → bond_user ops addr_validate s env sender amount ≡ ok (t, msgs)
      → IsSound t env.seconds
  unfolding bond_user
  bond_user-IsSound validate s t env sender amount msgs sound r =
      elim (Result-cases (validate sender)) [
        | inr bad ↦ absurd (ground arith)
        | inl (addr, e) ↦ elim (Result-cases (accumulate_boost ops s env (old addr))) [
          | inr bad ↦ absurd (ground arith)
          | inl (v, a) ↦
              let valid =
                accumulate_boost-IsValid ops h s env sound.cfg (old addr) v sound.stored
                  (known_or_fresh-IsValid s env addr sound) a in
              let new : UserInfo = record v { amt_bonded = v.amt_bonded + amount } in
              let e : t ≡ record s { user_info = save addr new s.user_info } =
                ground (arith, h.add_eq v.amt_bonded amount) in
              rw e (
                save-IsSound s env.seconds addr new sound
                  (bonded-IsValid sound.cfg env.seconds amount v valid.0) (ground arith))
        ]
      ]
    where
      old : Addr → UserInfo
      old addr = unwrap_or (s.user_info addr) (fresh_info env)

  unbond_user-IsSound :
      (s t : State) (env : Env) (sender : Addr) (amount : Option ℕ) (msgs : List CosmosMsg)
      → IsSound s env.seconds
      → unbond_user ops s env sender amount ≡ ok (t, msgs)
      → IsSound t env.seconds
  unfolding unbond_user
  unbond_user-IsSound s t env sender amount msgs sound = rw (determined h) λ r.
      elim (Option-cases (s.user_info sender)) [
        | inl e ↦ absurd (ground arith)
        | inr (u, e) ↦
            let left = u.amt_bonded - unwrap_or amount u.amt_bonded in
            let eq : t ≡ record s { user_info = users_after s env sender left } = ground arith in
            rw eq (users_after-IsSound s env sender left sound)
      ]

  updated_config-keeps :
      (addr_validate : Validator) (c d : Config) (owner : Option String) (rate : Option ℕ)
      (most : Option ℕ) (pool : Option String)
      → updated_config ops addr_validate c owner rate most pool ≡ ok d
      → c.boost_per_hour ≤ decimal_one
      → (c.max_boost_per_xprism ≤ d.max_boost_per_xprism) × (d.boost_per_hour ≤ decimal_one)
  unfolding updated_config
  updated_config-keeps validate c d owner rate most pool r limited = ground arith

  change_config-IsSound :
      (addr_validate : Validator) (s t : State) (now : ℕ) (owner : Option String) (rate : Option ℕ)
      (most : Option ℕ) (pool : Option String) (msgs : List CosmosMsg)
      → IsSound s now
      → change_config ops addr_validate s owner rate most pool ≡ ok (t, msgs)
      → IsSound t now
  unfolding change_config
  change_config-IsSound validate s t now owner rate most pool msgs sound r =
      elim (Result-cases (updated_config ops validate sound.cfg owner rate most pool)) [
        | inr bad ↦ absurd (ground arith)
        | inl (d, e) ↦
            let (more, limited) =
              updated_config-keeps validate sound.cfg d owner rate most pool e sound.limited in
            let eq : t ≡ record s { config = some d } = ground arith in
            rw eq (record {
              cfg = d;
              stored = refl;
              limited = limited;
              users = λ a u k.
                  let (valid, pos) = sound.users a u k in
                  (IsValid-mono sound.cfg d now now u more (omega arith) valid, pos);
            })
      ]

  -- Every successful message keeps the state sound.
  pub execute-IsSound :
      (addr_validate : Validator) (from_binary : String → Result StdError Cw20HookMsg) (s t : State)
      (env : Env) (sender : Addr) (msg : ExecuteMsg) (msgs : List CosmosMsg)
      → IsSound s env.seconds
      → execute ops addr_validate from_binary s env sender msg ≡ ok (t, msgs)
      → IsSound t env.seconds
  unfolding execute receive_cw20
  execute-IsSound validate decode s t env sender (ExecuteMsg.unbond amount) msgs sound r =
      unbond_user-IsSound s t env sender amount msgs sound r
  execute-IsSound validate decode s t env sender (ExecuteMsg.update_config o rate most pool) msgs
        sound r =
      change_config-IsSound validate s t env.seconds o rate most pool msgs sound (ground arith)
  execute-IsSound validate decode s t env sender (ExecuteMsg.receive m) msgs sound r =
      elim (Result-cases (decode m.msg)) [
        | inr bad ↦ absurd (ground arith)
        | inl (Cw20HookMsg.bond user, e) ↦
            bond_user-IsSound validate s t env (unwrap_or user m.sender) m.amount msgs sound
              (ground arith)
      ]

-- A contract that was instantiated successfully starts sound, with nobody bonded.
pub instantiate-IsSound :
    (ops : Std) (addr_validate : Validator) (msg : InstantiateMsg) (t : State)
    (msgs : List CosmosMsg) (now : ℕ)
    → instantiate ops addr_validate msg ≡ ok (t, msgs)
    → IsSound t now
unfolding instantiate
instantiate-IsSound ops validate msg t msgs now r =
    elim (Result-cases (validate_option ops validate msg.launch_pool_contract)) [
      | inr bad ↦ absurd (ground arith)
      | inl (pool, p) ↦ elim (Result-cases (validate msg.owner)) [
        | inr bad ↦ absurd (ground arith)
        | inl (owner, o) ↦ elim (Result-cases (validate msg.xprism_token)) [
          | inr bad ↦ absurd (ground arith)
          | inl (token, x) ↦
              let cfg : Config = record {
                owner = owner;
                xprism_token = token;
                boost_per_hour = msg.boost_per_hour;
                max_boost_per_xprism = msg.max_boost_per_xprism;
                launch_pool_contract = pool;
              } in
              let eq : t ≡ record { config = some cfg; user_info = λ _. none } = ground arith in
              rw eq
                (record { cfg = cfg; stored = refl; limited = ground arith; users = λ a u e. cc })
        ]
      ]
    ]
