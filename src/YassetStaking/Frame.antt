-- ===== src/YassetStaking/Frame.antt =====
-- What the rewards leave alone: the bonds, their total and the configuration.
use prism_contracts.Prelude.{◌≡◌, refl, sym, subst, ◌∙◌, ℕ, ◌≤◌, Option, none, some}
use prism_contracts.Storage.{Addr}
use prism_contracts.Storage.Sums.{IsBounded}
use prism_contracts.YassetStaking.{State, Config, BondInfo}

pub record SameBonds (s t : State) : Type 0 where
  pub total : t.total_bond_amount ≡ s.total_bond_amount
  pub bonds : t.bond_amounts ≡ s.bond_amounts
  pub config : t.config ≡ s.config

pub SameBonds-refl : (s : State) → SameBonds s s
SameBonds-refl s = record { total = refl; bonds = refl; config = refl }

pub same_state : (s t : State) → t ≡ s → SameBonds s t
same_state s t e = subst (SameBonds s) (sym e) (SameBonds-refl s)

pub SameBonds-trans : (s t u : State) → SameBonds s t → SameBonds t u → SameBonds s u
SameBonds-trans s t u a b = record {
  total = b.total ∙ a.total;
  bonds = b.bonds ∙ a.bonds;
  config = b.config ∙ a.config;
}

abbrev pub bond_in : Option BondInfo → ℕ
bond_in o = elim o [ none ↦ 0 | some info ↦ info.bond_amount ]

abbrev pub bonded : State → Addr → ℕ
bonded s a = bond_in (s.bond_amounts a)

-- The bonds of any stakers, each counted once, are at most the total; the protocol fee is at most a
-- half.
abbrev pub IsCovered : State → Type 0
IsCovered s =
    (total : ℕ) × (cfg : Config) × (s.total_bond_amount ≡ some total)
    × (s.config ≡ some cfg)
    × IsBounded (bonded s) total
    × (cfg.protocol_fee ≤ 500_000_000_000_000_000)
