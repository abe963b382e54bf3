-- ===== src/Gov/Frame.antt =====
-- What a call of contracts/prism-gov may do to the polls, their ids and the one that is run.
use prism_contracts.Prelude.{ℕ, ◌≡◌, some}
use prism_contracts.Storage.Ordered
use prism_contracts.Gov.{Poll, Store}

-- The polls and the configuration are left alone.
abbrev pub SamePolls : Store → Store → Type 0
SamePolls s t =
    (t.polls ≡ s.polls)
    × (t.last_poll_id ≡ s.last_poll_id)
    × (t.tmp_poll_id ≡ s.tmp_poll_id)
    × (t.config ≡ s.config)

-- One stored poll is replaced by one with the same id; the next id and the configuration are left alone.
abbrev pub Replaces : Store → Store → ℕ → Poll → Poll → Type 0
Replaces s t poll_id old new =
    (Ordered.load poll_id s.polls ≡ some old)
    × (new.id ≡ old.id)
    × (t.polls ≡ Ordered.save poll_id new s.polls)
    × (t.last_poll_id ≡ s.last_poll_id)
    × (t.config ≡ s.config)
