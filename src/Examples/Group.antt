-- ===== src/Examples/Group.antt =====
-- The theorems on commits, drops and appends at concrete inputs.
mod Outcomes
use frost_agent.Prelude.{
  ℕ, ◌≤◌, ◌≡◌, ◌⊎◌, refl, Bool, true, false, Option, none, some, List, [], ◌∷◌, ◌++◌, pos, arith,
  length, keep, drop, map, any, All, lookup,
}
use frost_agent.Text.{Text, codes, trim_space, text_eq, contains}
use frost_agent.Barrier.{fresh_barrier, is_writing, writing}
use frost_agent.Barrier.Distillation.{try_begin_commit}
use frost_agent.GroupCompact.Message.{GroupCompactMessage, no_message, format_display}
use frost_agent.GroupCompact.Buffer.{Slot, eligible, is_staged, is_committed}
use frost_agent.GroupCompact.Buffer.Order.{Between}
use frost_agent.GroupCompact.State.{GroupState, Snapshot, Distillation, empty_group}
use frost_agent.GroupCompact.Ingest.{value, resolve, append_internal}
use frost_agent.GroupCompact.Compact.{
  snapshot_compact, last_sequence, commit_snapshot, commit_compact, commit_with_persistence,
  abort_and_wait, clear_group, reset_group_compact, reset_session_group,
}
use frost_agent.GroupCompact.Revoke.{drop_message_checked}
use frost_agent.GroupCompact.Distill.{begin_distillation, is_refused}
use frost_agent.GroupCompact.Guard.{Guard}
use frost_agent.GroupCompact.Ops.{Quiet, append, quiet_run, Call, quiet, drop_message, run}
use frost_agent.GroupCompact.Invariant.{Ordered}
use frost_agent.GroupCompact.Commit.{is_newer, is_summarised, commit_exact}
use frost_agent.GroupCompact.Revoked.{drop_erases, stale_commit_refused}
use frost_agent.GroupCompact.Append.{append_exact}
use frost_agent.GroupCompact.Counter.{buffer_ordered}
use frost_agent.GroupCompact.Rollback.{
  drop_undoes_commit, older_batch_stays, clear_then_drop_revives, resets_and_distillation,
}
use frost_agent.GroupCompact.Once.{
  settle, promotes_it, drops_it, settles_once, holds_back, promote_releases,
}
use frost_agent.GroupCompact.Recent.{snapshot_context}
use frost_agent.GroupCompact.Recent.Window.{total_length, recent_bounded}

abbrev message : Text → Text → GroupCompactMessage
message id content = record no_message {
  role = codes "user";
  sender = codes "Ann";
  content = content;
  message_id = id;
}

abbrev slot : ℕ → Text → Bool → Slot
slot seq id staged = record {
  sequence = seq;
  message = message id (codes "hello");
  staged = staged;
}

abbrev first : Text
first = codes "m1"

abbrev second : Text
second = codes "m2"

abbrev third : Text
third = codes "m3"

-- Two committed messages.
abbrev two : GroupState
two = record empty_group {
  buffer = slot 1 first false ∷ slot 2 second false ∷ [];
  sequence = 2;
  summary = codes "so far";
}

abbrev batch : ℕ → List Text → Snapshot
batch through ids = record {
  summary = codes "so far";
  messages = map (λ id. message id (codes "hello")) ids;
  message_ids = ids;
  through = through;
  generation = 0;
}

abbrev both : Snapshot
both = batch 2 (first ∷ second ∷ [])

-- A message comes in behind the guard.
abbrev later_calls : List (ℕ × Quiet)
later_calls = (5, append (value (message third (codes "later"))) true (pos 10) []) ∷ []

abbrev summary : Text
summary = codes " they greet "

two-Ordered : Ordered two
two-Ordered = record { rising = (omega arith, omega arith, omega arith) }

commit_exact_example :
    let t = quiet_run later_calls two in
    let r = commit_compact 9 both summary t in
    (r.1 ≡ true)
    × (r.0.summary ≡ trim_space summary)
    × (both.messages ≡ map (λ item. item.message) (keep (is_summarised 2) two.buffer))
    × (2 ≤ 2)
    × (r.0.buffer ≡ keep (is_newer 2) t.buffer)
unfolding snapshot_compact eligible last_sequence trim_space
commit_exact_example =
    commit_exact (pos 2) two both later_calls 9 summary two-Ordered (omega arith) refl refl

-- A session that has committed `both`, and is distilling it.
abbrev distilling : GroupState
distilling = record two {
  last_message_ids = first ∷ second ∷ [];
  prev_summary = codes "before";
  distillations =
      (1, record { snapshot = both; barrier = record fresh_barrier { state = writing } }) ∷ [];
  registered = 1 ∷ [];
  next_distill = 1;
}

-- The store answers every purge.
abbrev store : Option (Text → Option Text)
store = some (λ id. none)

abbrev typed : Text
typed = codes " m2"

drop_erases_example :
    let t = (drop_message_checked 9 store typed distilling).0 in
    (any (λ item. text_eq item.message.message_id (trim_space typed)) t.buffer ≡ false)
    × (any (λ e. contains e.1.message_ids (trim_space typed)) t.sources ≡ false)
    × (contains t.revoked (trim_space typed) ≡ true)
unfolding trim_space
drop_erases_example = drop_erases 9 store typed distilling refl

stale_commit_refused_example :
    let t = quiet_run later_calls (drop_message_checked 9 store typed two).0 in
    commit_compact 12 both summary t ≡ (t, false)
unfolding trim_space
stale_commit_refused_example =
    stale_commit_refused 9 store typed two refl later_calls both 12 summary (omega arith) refl

-- The limit is 2, and a staged message comes in.
append_exact_example :
    let m = message third (codes "later") in
    let s : List Slot = two.buffer ++ record { sequence = 3; message = m; staged = true } ∷ [] in
    let r = append_internal 5 (value m) true (pos 2) [] two in
    (r.1.0 ≡ 3)
    × (r.1.1 ≡ length r.0.buffer)
    × (length r.0.buffer ≡ 2)
    × (keep is_committed r.0.buffer ≡ drop 1 (keep is_committed s))
    × (keep is_staged r.0.buffer ≡ keep is_staged s)
unfolding resolve trim_space
append_exact_example =
    append_exact 5 (value (message third (codes "later"))) true (pos 2) [] two
      (message third (codes "later")) refl refl

abbrev calls : List (ℕ × Call)
calls =
    (1, quiet (append (value (message first (codes "hello"))) false (pos 10) []))
    ∷ (2, quiet (append (value (message second (codes "hello"))) true (pos 10) []))
    ∷ (3, drop_message none 0 first)
    ∷ (4, quiet (append (value (message third (codes "hello"))) false (pos 10) []))
    ∷ []

buffer_ordered_example : Between 0 (run calls empty_group).sequence (run calls empty_group).buffer
buffer_ordered_example = buffer_ordered calls (omega arith)
