-- ===== src/Boost/Accrual.antt =====
-- How boost accrues: `_accumulate_boost` in contract.rs.
use prism_contracts.Prelude.{ℕ, ◌+◌, ◌-◌, ◌*◌, ◌/◌, ◌≤◌, ◌<◌, min, ◌≡◌, some, arith, ok}
use prism_contracts.Prelude.Division.{mul-add-le}
use prism_contracts.Cosmwasm.{Std, IsStd, determined, decimal_one}
use prism_contracts.Messages.{Env}
use prism_contracts.Boost.{State, Config, UserInfo, accumulate_boost}

-- A user's record under a configuration at a time.
pub record IsValid (cfg : Config) (now : ℕ) (u : UserInfo) : Type 0 where
  pub capped : u.total_boost ≤ u.amt_bonded * cfg.max_boost_per_xprism
  pub past : u.last_updated ≤ now
  pub started : u.boost_accrual_start_time ≤ u.last_updated

-- What `amt` bonded xPRISM earn in a number of seconds, before the cap.
abbrev pub earned : Config → ℕ → ℕ → ℕ
earned cfg amt seconds =
    (amt * cfg.boost_per_hour / decimal_one) * (seconds * decimal_one / 3600) / decimal_one

-- Seconds apart earn no more than seconds together.
pub earned_add :
    (cfg : Config) (amt a b : ℕ) → earned cfg amt a + earned cfg amt b ≤ earned cfg amt (a + b)
earned_add cfg amt a b = omega (
  arith,
  mul-add-le (amt * cfg.boost_per_hour / decimal_one) (a * decimal_one / 3600)
      (b * decimal_one / 3600) ((a + b) * decimal_one / 3600) (omega arith),
)

module _ (ops : Std) (h : IsStd ops) where
  -- A successful accrual keeps the record valid, leaves the bonded amount, and never lowers the
  -- boost of a valid record.
  pub accumulate_boost-IsValid :
      (s : State) (env : Env) (cfg : Config) (u v : UserInfo)
      → s.config ≡ some cfg
      → IsValid cfg env.seconds u
      → accumulate_boost ops s env u ≡ ok v
      → IsValid cfg env.seconds v × (v.amt_bonded ≡ u.amt_bonded) × (u.total_boost ≤ v.total_boost)
  unfolding accumulate_boost
  accumulate_boost-IsValid s env cfg u v = rw (determined h) (λ e valid r. ground arith)

  accumulate_boost-value :
      (s : State) (env : Env) (cfg : Config) (u v : UserInfo)
      → s.config ≡ some cfg
      → u.last_updated ≤ env.seconds
      → 0 < u.amt_bonded
      → u.total_boost ≤ u.amt_bonded * cfg.max_boost_per_xprism
      → accumulate_boost ops s env u ≡ ok v
      → v ≡ record u {
        total_boost =
            min
              (u.total_boost + earned cfg u.amt_bonded (env.seconds - u.last_updated))
              (u.amt_bonded * cfg.max_boost_per_xprism);
        last_updated = env.seconds;
      }
  unfolding accumulate_boost
  accumulate_boost-value s env cfg u v = rw (determined h) (λ e past pos cap r. ground arith)

  -- To refresh a boost early and again later yields no more than to refresh it once, later.
  pub accumulate_boost-split :
      (s : State) (early late : Env) (cfg : Config) (u v w once : UserInfo)
      → s.config ≡ some cfg
      → IsValid cfg early.seconds u
      → 0 < u.amt_bonded
      → early.seconds ≤ late.seconds
      → accumulate_boost ops s early u ≡ ok v
      → accumulate_boost ops s late v ≡ ok w
      → accumulate_boost ops s late u ≡ ok once
      → w.total_boost ≤ once.total_boost
  accumulate_boost-split s early late cfg u v w once e valid pos le p q r =
      let a = accumulate_boost-value s early cfg u v e valid.past pos valid.capped p in
      let b =
        accumulate_boost-value s late cfg v w e (ground (arith, a)) (ground (arith, a))
          (ground (arith, a)) q in
      let c = accumulate_boost-value s late cfg u once e (omega arith) pos valid.capped r in
      ground (
        arith,
        a,
        b,
        c,
        earned_add cfg u.amt_bonded (early.seconds - u.last_updated) (late.seconds - early.seconds),
      )
