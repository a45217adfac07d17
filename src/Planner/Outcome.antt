-- ===== src/Planner/Outcome.antt =====
-- What a compaction does to its session on each way out.
use frost_agent.Prelude.{◌≡◌, ◌⊎◌, Bool, true, false, Option, none, some, ◌==◌}
use frost_agent.Text.{Text, is_empty, trim_space}
use frost_agent.GroupCompact.State.{GroupState, Snapshot}
use frost_agent.GroupCompact.Compact.{Persisted}
use frost_agent.Planner.{Ending, success, failure, given_up}

pub is_success : Ending → Bool
is_success success = true
is_success failure = false
is_success given_up = false

-- Whether `persist`, where it is called, applies the summary without an error.
pub accepts : Option Persisted → Bool
accepts none = true
accepts (some (applied, some err)) = false
accepts (some (applied, none)) = applied

-- The session `t` and the ending that come of `s` when the commit of `t` goes through, which takes
-- `C`, or does not.
abbrev Committed : GroupState → GroupState → Type 0 → GroupState × Ending → Type 0
Committed s t C r =
    (C × (r.0 ≡ t) × (is_success r.1 ≡ true)) ⊎ ((r.0 ≡ s) × (is_success r.1 ≡ false))

-- What a commit takes.
abbrev Passes : Snapshot → Text → Option Persisted → GroupState → Type 0
Passes snap summary persist s =
    (is_empty (trim_space summary) ≡ false)
    × ((snap.generation == s.generation) ≡ true)
    × (accepts persist ≡ true)
