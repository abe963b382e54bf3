-- ===== src/YassetStaking/Deposits/Amounts.antt =====
-- What becomes of the amount of a deposited token.
use native.Mathlib.Nat.{div-mul-le_self, lt-div-mul-add}
use prism_contracts.Prelude.{
  ℕ, ◌+◌, ◌*◌, ◌/◌, ◌≤◌, ◌<◌, ◌≡◌, sym, ap, subst, ◌∙◌, ◌⊎◌, true, Option, none, some, List, [],
  ◌∷◌, ◌++◌, arith, str_eq, if◌then◌else◌, ok, inl, inr, Result-cases, Bool-cases, ◌==◌,
}
use prism_contracts.Cosmwasm.{Std, IsStd, reference, determined, Decimal, decimal_one}
use prism_contracts.Storage.{Addr, save, save_self}
use prism_contracts.Messages.{Env, CosmosMsg, cw20, Cw20Msg, AssetInfo, token}
use prism_contracts.YassetStaking.{Config, PoolInfo, State, key_of}
use prism_contracts.YassetStaking.Deposits.{contains, credit, divide, deposit_asset}

-- The index of an asset, which is 0 before its first reward.
abbrev pub pool_index : Option PoolInfo → Decimal
pool_index o = elim o [ none ↦ 0 | some pool ↦ pool.reward_index ]

abbrev pub index_of : State → AssetInfo → Decimal
index_of s asset = pool_index (s.pool_info (key_of asset))

-- Nothing changes where nothing is staked; otherwise the index grows by the reward for each staked
-- unit, rounded down.
abbrev pub Credited : State → State → AssetInfo → ℕ → ℕ → Type 0
Credited s t asset reward total =
    ((total ≡ 0) × (t ≡ s))
    ⊎ ((0 < total)
        × (growth : ℕ) × (index_of t asset ≡ index_of s asset + growth)
        × (growth * total ≤ reward * decimal_one)
        × (reward * decimal_one < growth * total + total))

-- The stakers' portion of an amount, less the fee on it, each rounded down.
abbrev pub IsReward : Decimal → Decimal → ℕ → ℕ → Type 0
IsReward portion fee amount reward =
    let stakers = amount * portion / decimal_one in reward + stakers * fee / decimal_one ≡ stakers

divide-sum :
    (portion fee : Decimal) (amount reward rest : ℕ)
    → divide reference portion fee amount ≡ ok (reward, rest)
    → (reward + rest ≡ amount) × IsReward portion fee amount reward
unfolding divide
divide-sum portion fee amount reward rest e = (ground arith, ground arith)

credit-Credited :
    (s t : State) (asset : AssetInfo) (reward total : ℕ)
    → credit reference s asset reward total ≡ ok t
    → Credited s t asset reward total
unfolding credit
credit-Credited s t asset reward total e = elim (Bool-cases (total == 0)) [
  | inl nothing ↦ inl (ground arith, ground arith)
  | inr staked ↦
      let growth = reward * decimal_one / total in
      let index = index_of s asset + growth in
      let pool : PoolInfo = record { reward_index = index } in
      let stored : t ≡ record s { pool_info = save (key_of asset) pool s.pool_info } =
        ground arith in
      let found = save_self (key_of asset) pool s.pool_info in
      inr (
        ground arith,
        growth,
        ap (λ u. index_of u asset) stored ∙ ap pool_index found,
        div-mul-le_self (reward * decimal_one) total,
        lt-div-mul-add (ground arith),
      )
]

-- How a token amount leaves: it is pulled in, unless the contract deposits it itself, and the rest
-- goes to the collector.
abbrev pub moves : Config → Env → Addr → Addr → ℕ → ℕ → List CosmosMsg
moves cfg env sender address amount rest =
    (if str_eq env.address sender
      then []
      else cw20 address (Cw20Msg.transfer_from sender env.address amount) ∷ [])
    ++ cw20 address (Cw20Msg.transfer cfg.collector rest) ∷ []

deposit_at :
    (cfg : Config) (whitelist : List AssetInfo) (total : ℕ) (portion : Decimal) (env : Env)
    (sender : Addr) (s t : State) (address : Addr) (amount : ℕ) (msgs : List CosmosMsg)
    → deposit_asset reference cfg whitelist total portion env sender s
        (record { info = token address; amount = amount })
      ≡ ok (t, msgs)
    → (contains whitelist (token address) ≡ true)
      × (reward : ℕ) × (rest : ℕ) × (reward + rest ≡ amount)
      × IsReward portion cfg.protocol_fee amount reward
      × (msgs ≡ moves cfg env sender address amount rest)
      × Credited s t (token address) reward total
unfolding deposit_asset
deposit_at cfg whitelist total portion env sender s t address amount msgs e =
    elim (Bool-cases (contains whitelist (token address))) [
      | inr other ↦ absurd (ground arith)
      | inl known ↦ elim (Result-cases (divide reference portion cfg.protocol_fee amount)) [
        | inr bad ↦ absurd (ground arith)
        | inl ((reward, rest), e1) ↦
            elim (Result-cases (credit reference s (token address) reward total)) [
              | inr bad ↦ absurd (ground arith)
              | inl (u, e2) ↦
                  let same : t ≡ u = ground arith in
                  (
                    known,
                    reward,
                    rest,
                    (divide-sum portion cfg.protocol_fee amount reward rest e1).0,
                    (divide-sum portion cfg.protocol_fee amount reward rest e1).1,
                    ground arith,
                    subst (λ v. Credited s v (token address) reward total) (sym same)
                        (credit-Credited s u (token address) reward total e2),
                  )
            ]
      ]
    ]

module _ (ops : Std) (law : IsStd ops) where
  -- A token that is deposited is whitelisted, and its amount is split without a remainder into the
  -- reward, which is the stakers' portion less the protocol fee on it, and the rest, which is all
  -- that is sent to the collector; the amount is pulled in unless the contract deposits it itself.
  -- Where something is staked, the index of the token grows by the reward for each staked unit,
  -- rounded down; otherwise the state stays as it is.
  pub deposit_asset-conserves :
      (cfg : Config) (whitelist : List AssetInfo) (total : ℕ) (portion : Decimal) (env : Env)
      (sender : Addr) (s t : State) (address : Addr) (amount : ℕ) (msgs : List CosmosMsg)
      → deposit_asset ops cfg whitelist total portion env sender s
          (record { info = token address; amount = amount })
        ≡ ok (t, msgs)
      → (contains whitelist (token address) ≡ true)
        × (reward : ℕ) × (rest : ℕ) × (reward + rest ≡ amount)
        × IsReward portion cfg.protocol_fee amount reward
        × (msgs ≡ moves cfg env sender address amount rest)
        × Credited s t (token address) reward total
  deposit_asset-conserves cfg whitelist total portion env sender s t address amount msgs =
      rw (determined law)
        (deposit_at cfg whitelist total portion env sender s t address amount msgs)
