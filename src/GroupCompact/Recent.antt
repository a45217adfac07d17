-- ===== src/GroupCompact/Recent.antt =====
-- internal/llm/session.go: the window of recent pending messages, as texts and as records.
pub mod Window
use frost_agent.Prelude.{
  ℕ, zero, suc, ◌+◌, ◌-◌, Bool, true, false, not, ◌&&◌, ◌||◌, List, [], ◌∷◌, reverse, ℤ, to_nat,
  ltb, leb, ◌==◌, if◌then◌else◌, length, take,
}
use frost_agent.Text.{Text, is_empty, trim_space, text_eq}
use frost_agent.GroupCompact.Message.{GroupCompactMessage, format_display}
use frost_agent.GroupCompact.Buffer.{Slot}
use frost_agent.GroupCompact.State.{GroupState, SummaryGroup}

-- The slots that both walks pass over.
unfoldable pub skips : Text → Slot → Bool
skips exclude item =
    item.staged
    || (not (is_empty exclude)
        && (not (is_empty item.message.message_id) && text_eq item.message.message_id exclude))

-- The only message of a window that it does not fit.
unfoldable pub truncated : ℕ → GroupCompactMessage → GroupCompactMessage
truncated max m =
    let content = take max m.content in
    record m {
      content = content;
      image_description = take (max - length content) m.image_description;
      raw = [];
    }

-- What a window does with a message once `count` of them and `total` signs are selected.
pub data Verdict : Type 0 where
  stop cut_off select : Verdict

unfoldable pub verdict : ℕ → ℕ → ℕ → ℕ → ℕ → Verdict
verdict limit max count total len =
    if leb limit count
    then stop
    else (if leb max total
        then stop
        else (if ltb max (total + len) then (if count == 0 then cut_off else stop) else select))

-- The loop of recentPendingStructuredGroupMessagesLocked, newest first.
unfoldable pub structured_walk : ℕ → ℕ → Text → ℕ → ℕ → List Slot → List GroupCompactMessage
structured_walk limit max exclude count total [] = []
structured_walk limit max exclude count total (item ∷ rest) =
    let m = item.message in
    let len = length (format_display m) in
    let skipped = structured_walk limit max exclude count total rest in
    let taken = structured_walk limit max exclude (suc count) (total + len) rest in
    if skips exclude item then skipped else (elim (verdict limit max count total len) [
      | stop ↦ []
      | cut_off ↦ truncated max m ∷ []
      | select ↦ m ∷ taken
    ])

unfoldable pub recent_structured : ℤ → ℤ → Text → List Slot → List GroupCompactMessage
unfolding structured_walk
recent_structured limit max exclude_id buffer =
    reverse
      (structured_walk (to_nat limit) (to_nat max) (trim_space exclude_id) 0 0 (reverse buffer))

-- The loop of recentPendingGroupMessagesLocked, newest first.
unfoldable pub plain_walk : ℕ → ℕ → Text → ℕ → ℕ → List Slot → List Text
plain_walk limit max exclude count total [] = []
plain_walk limit max exclude count total (item ∷ rest) =
    let content = format_display item.message in
    let len = length content in
    let skipped = plain_walk limit max exclude count total rest in
    let taken = plain_walk limit max exclude (suc count) (total + len) rest in
    if skips exclude item then skipped else (elim (verdict limit max count total len) [
      | stop ↦ []
      | cut_off ↦ take max content ∷ []
      | select ↦ content ∷ taken
    ])

unfoldable pub recent_plain : ℤ → ℤ → Text → List Slot → List Text
unfolding plain_walk
recent_plain limit max exclude_id buffer =
    reverse (plain_walk (to_nat limit) (to_nat max) (trim_space exclude_id) 0 0 (reverse buffer))

-- GroupContextSnapshot
pub record ContextSnapshot : Type 0 where
  pub running_summary : Text
  pub recent_messages : List Text
  pub recent_structured_messages : List GroupCompactMessage
  pub summary_groups : List SummaryGroup

-- SnapshotGroupContext
unfoldable pub snapshot_context : ℤ → ℤ → Text → GroupState → ContextSnapshot
snapshot_context limit max exclude_id s = record {
  running_summary = s.summary;
  recent_messages = recent_plain limit max exclude_id s.buffer;
  recent_structured_messages = recent_structured limit max exclude_id s.buffer;
  summary_groups = s.groups;
}
