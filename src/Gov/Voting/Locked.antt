-- ===== src/Gov/Voting/Locked.antt =====
-- A withdrawal leaves the stake behind every vote that still counts.
use prism_contracts.Prelude.{ℕ, ◌≤◌, ◌≡◌, some, List, [], ◌∷◌}
use prism_contracts.Storage.Ordered
use prism_contracts.Storage.Ordered.{OrderedMap}
use prism_contracts.Gov.{in_progress, VoterInfo, Poll}

-- Every vote of the list that is on a poll in progress is at most `n`.
abbrev pub Covered : OrderedMap Poll → ℕ → List (ℕ × VoterInfo) → Type 0
Covered polls n [] = Unit {0}
Covered polls n ((id, info) ∷ rest) =
    ((poll : Poll)
      → Ordered.load id polls ≡ some poll
      → poll.status ≡ in_progress
      → info.balance ≤ n)
    × Covered polls n rest
