-- ===== src/GroupCompact/Ops.antt =====
-- internal/llm/session.go: the calls that change a session's group state, as one type of operations.
use frost_agent.Prelude.{ℕ, Bool, Option, List, [], ◌∷◌, ℤ}
use frost_agent.Text.{Text}
use frost_agent.GroupCompact.State.{GroupState, Snapshot}
use frost_agent.GroupCompact.Ingest.{Item, append_internal, promote_slot}
use frost_agent.GroupCompact.Guard.{Guard, set_image_description}
use frost_agent.GroupCompact.Compact.{
  Persisted, commit_with_persistence, reset_group_compact, reset_session_group, clear_group,
  set_running_summary,
}
use frost_agent.GroupCompact.Revoke.{drop_slot_checked}
use frost_agent.GroupCompact.Distill.{begin_distillation, cleanup_distillation}

-- The calls that leave the generation alone.
pub data Quiet : Type 0 where
  append : Item → Bool → ℤ → List Text → Quiet
  promote : ℕ → Text → Quiet
  picture : Text → Guard → Quiet
  commit : Snapshot → Text → Option Persisted → Quiet
  set_summary : Text → Quiet
  begin : Snapshot → Quiet
  cleanup : ℕ → Snapshot → Quiet

-- The calls that invalidate the snapshots in flight, as far as they do something.
pub data Call : Type 0 where
  quiet : Quiet → Call
  drop_message : Option (Text → Option Text) → ℕ → Text → Call
  reset_compact reset_session clear : Call

unfoldable pub quiet_step : ℕ → Quiet → GroupState → GroupState
quiet_step now (append item staged max ids) s = (append_internal now item staged max ids s).0
quiet_step now (promote seq id) s = (promote_slot now seq id s).0
quiet_step now (picture description g) s = (set_image_description description g s).0
quiet_step now (commit snap summary persist) s =
    (commit_with_persistence now snap summary persist s).0
quiet_step now (set_summary summary) s = set_running_summary summary s
quiet_step now (begin snap) s = (begin_distillation snap s).0
quiet_step now (cleanup id snap) s = cleanup_distillation id snap s

unfoldable pub step : ℕ → Call → GroupState → GroupState
step now (quiet q) s = quiet_step now q s
step now (drop_message store seq id) s = (drop_slot_checked now store seq id s).0
step now reset_compact s = reset_group_compact now s
step now reset_session s = reset_session_group now s
step now clear s = clear_group now s

-- Calls with the time of each.
unfoldable pub quiet_run : List (ℕ × Quiet) → GroupState → GroupState
quiet_run [] s = s
quiet_run ((now, q) ∷ rest) s = quiet_run rest (quiet_step now q s)

unfoldable pub run : List (ℕ × Call) → GroupState → GroupState
run [] s = s
run ((now, c) ∷ rest) s = run rest (step now c s)
