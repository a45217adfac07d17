-- ===== src/Examples/Planner.antt =====
-- The theorems on the start of compactions at concrete inputs.
use frost_agent.Prelude.{
  ◌≡◌, ◌≤◌, ℕ, suc, refl, true, false, some, [], ◌∷◌, pos, arith, if◌then◌else◌,
}
use frost_agent.Text.{Text, codes}
use frost_agent.GroupCompact.Message.{no_message}
use frost_agent.GroupCompact.Buffer.{Slot, eligible}
use frost_agent.GroupCompact.State.{GroupState, Snapshot, empty_group}
use frost_agent.GroupCompact.Compact.{snapshot_compact, compact_ready, last_sequence}
use frost_agent.Planner.{
  Aftermath, Planner, new_planner, or_default, trigger, start, cancel_scheduled, cooling,
  launch_compact, launch_run, failure, finish, call_back,
}
use frost_agent.Planner.Steps.{Reach, begin, later, triggers, launches}
use frost_agent.Planner.Sound.{is_live, compactions}
use frost_agent.Planner.Promise.{one_compaction_at_once, next_batch_is_due}

abbrev slot : ℕ → Text → Slot
slot seq id = record {
  sequence = seq;
  message = record no_message { content = codes "hello"; message_id = id };
  staged = false;
}

-- A full batch of two messages.
abbrev batch : GroupState
batch = record empty_group { buffer = slot 1 (codes "m1") ∷ slot 2 (codes "m2") ∷ []; sequence = 2 }

-- A compaction of it runs.
abbrev started : Planner
started = launch_compact (trigger 5 batch (new_planner (pos 2) (pos 100)))

started-Reach : Reach started
started-Reach = later (later (begin (pos 2) (pos 100)) (triggers 5 batch)) launches

one_compaction_at_once_example :
    (compactions started ≤ (if started.in_flight then 1 else 0))
    × (1 ≤ started.buffer_size)
    × (started.buffer_size ≤ started.max_buffer_size)
one_compaction_at_once_example = one_compaction_at_once started-Reach

next_batch_is_due_example :
    let q = finish 7 batch failure started in
    (t : ℕ) × (q.scheduled ≡ some t)
    × (q.scheduled_token ≡ t)
    × (is_live t q ≡ true)
    × ((call_back t q).calls ≡ suc q.calls)
unfolding launch_compact launch_run trigger start cancel_scheduled cooling snapshot_compact
    compact_ready new_planner or_default eligible last_sequence
next_batch_is_due_example =
    next_batch_is_due started-Reach 7 batch failure (omega arith) refl refl refl

-- The snapshot of the batch.
abbrev snap : Snapshot
snap = record {
  summary = [];
  messages = [];
  message_ids = codes "m1" ∷ codes "m2" ∷ [];
  through = 2;
  generation = 0;
}

-- Nothing else touches the session.
abbrev alone : Aftermath
alone = record { ready = true; before = λ s. s; during = λ s. s }
