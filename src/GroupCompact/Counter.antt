-- ===== src/GroupCompact/Counter.antt =====
-- The session's sequence counter over whole histories of calls, and the order of the buffer.
use frost_agent.Prelude.{
  ℕ, ◌+◌, ◌≤◌, ◌<◌, ◌≡◌, Bool, Option, none, some, List, [], ◌∷◌, u64_mod, arith, length,
}
use frost_agent.Text.{Text}
use frost_agent.GroupCompact.Message.{GroupCompactMessage}
use frost_agent.GroupCompact.Buffer.Order.{Between}
use frost_agent.GroupCompact.State.{GroupState, Snapshot, empty_group, buffer_limit}
use frost_agent.GroupCompact.Ingest.{
  resolve, push_message, append_resolved, append_internal, promote_slot,
}
use frost_agent.GroupCompact.Guard.{Guard, set_image_description}
use frost_agent.GroupCompact.Compact.{
  Persisted, commit_snapshot, commit_with_persistence, reset_group_compact, reset_session_group,
  clear_group, set_running_summary,
}
use frost_agent.GroupCompact.Revoke.{drop_state, drop_slot_checked}
use frost_agent.GroupCompact.Distill.{begin_distillation, cleanup_distillation}
use frost_agent.GroupCompact.Invariant.{Ordered, next_sequence, quiet_step-Ordered, step-Ordered}
use frost_agent.GroupCompact.Ops.{
  Quiet, append, promote, picture, commit, set_summary, begin, cleanup, Call, quiet, drop_message,
  reset_compact, reset_session, clear, quiet_step, step, quiet_run, run,
}

-- The counter goes up, by at most one.
abbrev pub Advances : GroupState → GroupState → Type 0
Advances s t = (s.sequence ≤ t.sequence) × (t.sequence ≤ s.sequence + 1)

append_resolved-Advances :
    (o : Option GroupCompactMessage) (now : ℕ) (staged : Bool) (max : ℕ) (s : GroupState)
    → s.sequence + 1 < u64_mod
    → Advances s (append_resolved o now staged max s).0
unfolding append_resolved push_message
append_resolved-Advances none now staged max s h = ground arith
append_resolved-Advances (some m) now staged max s h = ground (arith, next_sequence s.sequence h)

picture-sequence :
    (text : Text) (g : Guard) (s : GroupState)
    → (set_image_description text g s).0.sequence ≡ s.sequence
unfolding set_image_description
picture-sequence text g s = ground arith

commit-sequence :
    (now : ℕ) (snap : Snapshot) (summary : Text) (persist : Option Persisted) (s : GroupState)
    → (commit_with_persistence now snap summary persist s).0.sequence ≡ s.sequence
unfolding commit_with_persistence commit_snapshot
commit-sequence now snap summary persist s = ground arith

quiet_step-Advances :
    (now : ℕ) (q : Quiet) (s : GroupState)
    → s.sequence + 1 < u64_mod
    → Advances s (quiet_step now q s)
unfolding quiet_step append_internal
quiet_step-Advances now (append item staged max ids) s h =
    append_resolved-Advances (resolve item ids) now staged (buffer_limit max) s h
quiet_step-Advances now (promote seq id) s h = unfold promote_slot in ground arith
quiet_step-Advances now (picture text g) s h = omega (arith, picture-sequence text g s)
quiet_step-Advances now (commit snap summary persist) s h =
    omega (arith, commit-sequence now snap summary persist s)
quiet_step-Advances now (set_summary summary) s h = unfold set_running_summary in omega arith
quiet_step-Advances now (begin snap) s h = unfold begin_distillation in ground arith
quiet_step-Advances now (cleanup id snap) s h = unfold cleanup_distillation in omega arith

drop-sequence :
    (now : ℕ) (store : Option (Text → Option Text)) (seq : ℕ) (id : Text) (s : GroupState)
    → (drop_slot_checked now store seq id s).0.sequence ≡ s.sequence
unfolding drop_slot_checked drop_state
drop-sequence now store seq id s = ground arith

step-Advances :
    (now : ℕ) (c : Call) (s : GroupState) → s.sequence + 1 < u64_mod → Advances s (step now c s)
unfolding step
step-Advances now (quiet q) s h = quiet_step-Advances now q s h
step-Advances now (drop_message store seq id) s h = omega (arith, drop-sequence now store seq id s)
step-Advances now reset_compact s h = unfold reset_group_compact in omega arith
step-Advances now reset_session s h = unfold reset_session_group in omega arith
step-Advances now clear s h = unfold clear_group in omega arith

pub quiet_run-Ordered :
    (qs : List (ℕ × Quiet)) (s : GroupState)
    → s.sequence + length qs < u64_mod
    → Ordered s
    → Ordered (quiet_run qs s) × (s.sequence ≤ (quiet_run qs s).sequence)
unfolding quiet_run
quiet_run-Ordered [] s h v = (v, omega arith)
quiet_run-Ordered ((now, q) ∷ qs) s h v =
    let up = quiet_step-Advances now q s (omega arith) in
    let rest =
      quiet_run-Ordered qs (quiet_step now q s) (omega arith)
        (quiet_step-Ordered now q s (omega arith) v) in
    (rest.0, omega arith)

run-Ordered :
    (cs : List (ℕ × Call)) (s : GroupState)
    → s.sequence + length cs < u64_mod
    → Ordered s
    → Ordered (run cs s)
unfolding run
run-Ordered [] s h v = v
run-Ordered ((now, c) ∷ cs) s h v =
    let up = step-Advances now c s (omega arith) in
    run-Ordered cs (step now c s) (omega arith) (step-Ordered now c s (omega arith) v)

-- Whatever calls a new session gets, in any order, the sequence numbers in its buffer are positive,
-- rise along it and do not pass the session's counter. The counter is assumed not to wrap.
pub buffer_ordered :
    (cs : List (ℕ × Call))
    → length cs < u64_mod
    → Between 0 (run cs empty_group).sequence (run cs empty_group).buffer
buffer_ordered cs h = (run-Ordered cs empty_group (omega arith) (record { rising = tt })).rising
