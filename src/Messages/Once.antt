-- ===== src/Messages/Once.antt =====
-- A message is delivered once, by runs of the scheduler that do not overlap.
use nova_connect.Prelude.{ℕ, ◌≢◌, nat_eq}
use nova_connect.Messages.Scheduled.{Scheduled, Outcome, lost_unmarked, broken_unmarked}

-- Every mark as failed can be written.
abbrev pub Marked : (ℕ → Outcome) → Type 0
Marked ends = (v : ℕ) → (ends v ≢ lost_unmarked) × (ends v ≢ broken_unmarked)
