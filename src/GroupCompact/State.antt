-- ===== src/GroupCompact/State.antt =====
-- internal/llm/session.go: the fields of SessionContext that serve group compaction.
use frost_agent.Prelude.{ℕ, zero, suc, List, [], ℤ, pos, negsuc}
use frost_agent.Text.{Text}
use frost_agent.Barrier.{Barrier}
use frost_agent.GroupCompact.Message.{GroupCompactMessage}
use frost_agent.GroupCompact.Buffer.{Slot}

-- SummaryGroup; its start and end indices stay 0 here.
pub record SummaryGroup : Type 0 where
  pub summary : Text
  pub message_ids : List Text
  pub start_message_id : Text
  pub end_message_id : Text
  pub messages : List Text
  pub structured : List GroupCompactMessage

-- GroupCompactSnapshot
pub record Snapshot : Type 0 where
  pub summary : Text
  pub messages : List GroupCompactMessage
  pub message_ids : List Text
  pub through : ℕ
  pub generation : ℕ

-- committedSourceInfo
pub record Source : Type 0 where
  pub sequence : ℕ
  pub message_ids : List Text
  pub sender_ids : List Text

-- groupDistillationBarrier with its snapshot.
pub record Distillation : Type 0 where
  pub snapshot : Snapshot
  pub barrier : Barrier

pub record GroupState : Type 0 where
  pub summary : Text  -- groupCompactSummary
  pub buffer : List Slot  -- groupCompactBuffer
  pub sequence : ℕ  -- groupCompactSequence, uint64
  pub generation : ℕ  -- groupCompactGeneration, uint64
  pub groups : List SummaryGroup  -- groupSummaryGroups
  pub prev_summary : Text  -- prevGroupCompactSummary
  pub prev_groups : List SummaryGroup  -- prevGroupSummaryGroups
  pub last_message_ids : List Text  -- lastCommittedMessageIDs
  pub last_sender_ids : List Text  -- lastCommittedSenderIDs
  pub distillations : List (ℕ × Distillation)  -- every barrier made, by its id
  pub registered : List ℕ  -- the ids in groupDistillBarriers
  pub next_distill : ℕ  -- nextGroupDistillID, uint64
  pub sources : List (ℕ × Source)  -- validCommittedSources
  pub revoked : List Text  -- revokedMessageIDs
  pub updated_at : ℕ  -- the session's UpdatedAt, as far as these operations set it

-- A new session's.
abbrev pub empty_group : GroupState
empty_group = record {
  summary = [];
  buffer = [];
  sequence = 0;
  generation = 0;
  groups = [];
  prev_summary = [];
  prev_groups = [];
  last_message_ids = [];
  last_sender_ids = [];
  distillations = [];
  registered = [];
  next_distill = 0;
  sources = [];
  revoked = [];
  updated_at = 0;
}

abbrev pub default_max_buffer : ℕ
default_max_buffer = 200

-- maxBufferSize, with its default.
abbrev pub buffer_limit : ℤ → ℕ
buffer_limit (pos zero) = default_max_buffer
buffer_limit (pos (suc n)) = suc n
buffer_limit (negsuc n) = default_max_buffer
