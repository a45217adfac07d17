-- ===== src/GroupCompact/Compact.antt =====
-- internal/llm/session.go: the snapshot that is summarised, its commit, and the resets.
use frost_agent.Prelude.{
  ℕ, ◌+◌, ◌-◌, Bool, true, false, ◌||◌, not, Option, none, some, List, [], ◌∷◌, u64, ℤ, to_nat, ltb,
  ◌==◌, if◌then◌else◌, length, any, map, keep, take, get_or, insert, delete_all, keys, sort,
}
use frost_agent.Text.{Text, is_empty, trim_space}
use frost_agent.Barrier.Distillation.{abort, end_commit}
use frost_agent.GroupCompact.Message.{GroupCompactMessage, format_display}
use frost_agent.GroupCompact.Buffer.{Slot, eligible, after_sequence}
use frost_agent.GroupCompact.State.{GroupState, Snapshot, SummaryGroup, Source, Distillation}

-- The batch of the slots `taken`, the last of which is `last`.
abbrev snapshot_of : GroupState → List Slot → ℕ → Snapshot
snapshot_of s taken through = record {
  summary = s.summary;
  messages = map (λ item. item.message) taken;
  message_ids = map (λ item. item.message.message_id) taken;
  through = through;
  generation = s.generation;
}

-- The number of the last slot.
unfoldable pub last_sequence : ℕ → List Slot → ℕ
last_sequence n [] = n
last_sequence n (item ∷ rest) = last_sequence item.sequence rest

-- SnapshotGroupCompact
unfoldable pub snapshot_compact : ℤ → GroupState → Option Snapshot
snapshot_compact buffer_size s =
    let size = to_nat buffer_size in
    let taken = eligible s.buffer in
    if size == 0 || ltb (length s.buffer) size
    then none
    else (if ltb (length taken) size
        then none
        else some (snapshot_of s taken (last_sequence 0 taken)))

-- GroupCompactReady
unfoldable pub compact_ready : ℤ → GroupState → Bool
compact_ready buffer_size s =
    let size = to_nat buffer_size in
    if size == 0 then false else not (ltb (length (eligible s.buffer)) size)

abbrev pub source_limit : ℕ
source_limit = 32

-- Only the newest committed sources stay.
unfoldable pub cap_sources : List (ℕ × Source) → List (ℕ × Source)
cap_sources m =
    if ltb source_limit (length m)
    then delete_all (take (length m - source_limit) (sort (keys m))) m
    else m

-- The non-empty sender ids of a batch.
sender_ids_of : List GroupCompactMessage → List Text
sender_ids_of messages = keep (λ id. not (is_empty id)) (map (λ m. m.sender_id) messages)

abbrev group_of : Snapshot → Text → SummaryGroup
group_of snap summary = record {
  summary = summary;
  message_ids = snap.message_ids;
  start_message_id = get_or snap.message_ids 0 [];
  end_message_id = get_or snap.message_ids (length snap.message_ids - 1) [];
  messages = map format_display snap.messages;
  structured = snap.messages;
}

-- What a commit does once nothing stands against it.
unfoldable pub commit_snapshot : ℕ → Snapshot → Text → GroupState → GroupState
unfolding sender_ids_of
commit_snapshot now snap summary s =
    let senders = sender_ids_of snap.messages in
    let source : Source = record {
      sequence = snap.through;
      message_ids = snap.message_ids;
      sender_ids = senders;
    } in
    record s {
      prev_summary = s.summary;
      prev_groups = s.groups;
      last_message_ids = snap.message_ids;
      last_sender_ids = senders;
      sources = cap_sources (insert snap.through source s.sources);
      summary = summary;
      groups = group_of snap summary ∷ [];
      buffer = after_sequence snap.through s.buffer;
      updated_at = now;
    }

-- What `persist` answers: whether it applied the summary, and its error.
abbrev pub Persisted : Type 0
Persisted = Bool × Option Text

-- The result of a commit behind its call of `persist`.
unfoldable pub persist_then : Persisted → GroupState → GroupState → GroupState × Persisted
persist_then (applied, some err) s t = (s, (false, some err))
persist_then (true, none) s t = (t, (true, none))
persist_then (false, none) s t = (s, (false, none))

-- CommitGroupCompactWithPersistence; the callback is given by what it answers if it is called.
unfoldable pub commit_with_persistence :
    ℕ → Snapshot → Text → Option Persisted → GroupState → GroupState × Persisted
unfolding persist_then
commit_with_persistence now snap summary persist s =
    let summary' = trim_space summary in
    let t = commit_snapshot now snap summary' s in
    if is_empty summary'
    then (s, (false, none))
    else (if not (snap.generation == s.generation)
        then (s, (false, none))
        else (elim persist [ none ↦ (t, (true, none)) | some answer ↦ persist_then answer s t ]))

-- CommitGroupCompact
unfoldable pub commit_compact : ℕ → Snapshot → Text → GroupState → GroupState × Bool
commit_compact now snap summary s =
    let (s', (done, err)) = commit_with_persistence now snap summary none s in (s', done)

-- AbortAndWait as a whole: where it waits, it returns behind the writer's EndCommit.
unfoldable pub abort_and_wait : Distillation → Distillation
unfolding abort end_commit
abort_and_wait d =
    let (b, channel) = abort d.barrier in
    record d { barrier = elim channel [ none ↦ b | some c ↦ end_commit b ] }

unfoldable pub abort_ids : List ℕ → List (ℕ × Distillation) → List (ℕ × Distillation)
abort_ids ids [] = []
abort_ids ids ((id, d) ∷ rest) =
    (id, if any (λ k. k == id) ids then abort_and_wait d else d) ∷ abort_ids ids rest

-- ResetGroupCompact
unfoldable pub reset_group_compact : ℕ → GroupState → GroupState
reset_group_compact now s = record s {
  generation = u64 (s.generation + 1);
  summary = [];
  buffer = [];
  groups = [];
  prev_summary = [];
  prev_groups = [];
  last_message_ids = [];
  last_sender_ids = [];
  sources = [];
  revoked = [];
  distillations = abort_ids s.registered s.distillations;
  registered = [];
  updated_at = now;
}

-- The part of ResetSession that is about group compaction.
unfoldable pub reset_session_group : ℕ → GroupState → GroupState
reset_session_group now s = record s {
  summary = [];
  buffer = [];
  groups = [];
  prev_summary = [];
  prev_groups = [];
  last_message_ids = [];
  last_sender_ids = [];
  generation = u64 (s.generation + 1);
  distillations = abort_ids s.registered s.distillations;
  registered = [];
  updated_at = now;
}

-- The part of Clear that is about group compaction.
unfoldable pub clear_group : ℕ → GroupState → GroupState
clear_group now s = record s {
  summary = [];
  buffer = [];
  groups = [];
  generation = u64 (s.generation + 1);
  updated_at = now;
}

-- SetGroupRunningSummary
unfoldable pub set_running_summary : Text → GroupState → GroupState
set_running_summary summary s = record s { summary = summary }
