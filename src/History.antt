-- ===== src/History.antt =====
-- internal/llm/session.go and sequence.go: the numbered history of a session, and the compaction of a
-- private chat. `print` stands for what fmt.Sprint makes of a list of content parts.
pub mod Numbers
pub mod Calls
pub mod Numbering
pub mod Private
pub mod Growth
pub mod Compaction
pub mod Removal
pub mod Resets
use frost_agent.Prelude.{
  ℕ, zero, suc, ◌+◌, ◌-◌, Bool, true, false, not, ◌&&◌, ◌||◌, Option, none, some, List, [], ◌∷◌,
  ◌++◌, u64, ℤ, to_nat, ltb, leb, ◌==◌, if◌then◌else◌, any, length, drop, take, map,
}
use frost_agent.Text.{Text, codes, is_empty, trim_space}
use frost_agent.GroupCompact.Message.{GroupCompactMessage, no_message, format_display}

pub record ToolCall : Type 0 where
  pub id : Text
  pub kind : Text  -- Type
  pub name : Text
  pub arguments : Text

-- core.ContentPart; the address of an image, where there is one.
pub record ContentPart : Type 0 where
  pub kind : Text
  pub text : Text
  pub image_url : Option Text

-- The dynamic types of ChatMessage.Content.
pub data Content : Type 0 where
  text : Text → Content
  parts : List ContentPart → Content

pub record ChatMessage : Type 0 where
  pub role : Text
  pub content : Content
  pub tool_calls : List ToolCall
  pub tool_call_id : Text

abbrev pub plain_message : Text → Text → ChatMessage
plain_message role s = record { role = role; content = text s; tool_calls = []; tool_call_id = [] }

-- The batch of privateCompactInspection: a SummaryGroup.
pub record PrivateBatch : Type 0 where
  pub summary : Text
  pub end_index : ℕ
  pub messages : List Text
  pub structured : List GroupCompactMessage

-- privateCompactInspection
pub record Inspection : Type 0 where
  pub summary_seq : ℕ
  pub ack_seq : ℕ
  pub batch : PrivateBatch

pub record HistoryState : Type 0 where
  pub history : List ChatMessage  -- History
  pub seqs : List ℕ  -- historySeq, uint64
  pub next_seq : ℕ  -- nextMsgSeq, uint64
  pub compacting : Bool  -- privateCompacting
  pub inspection : Option Inspection  -- privateCompact
  pub epoch : ℕ  -- uint64
  pub updated_at : ℕ  -- the session's UpdatedAt, as far as these operations set it

-- A new session's.
abbrev pub empty_history : HistoryState
empty_history = record {
  history = [];
  seqs = [];
  next_seq = 0;
  compacting = false;
  inspection = none;
  epoch = 1;
  updated_at = 0;
}

-- The next `count` numbers, and the last number given out with them.
unfoldable pub fresh : ℕ → ℕ → List ℕ
fresh n zero = []
fresh n (suc count) = u64 (n + 1) ∷ fresh (u64 (n + 1)) count

unfoldable pub advance : ℕ → ℕ → ℕ
advance n zero = n
advance n (suc count) = advance (u64 (n + 1)) count

-- New numbers for the whole history.
unfoldable pub renumber : HistoryState → HistoryState
unfolding fresh advance
renumber s = record s {
  seqs = fresh s.next_seq (length s.history);
  next_seq = advance s.next_seq (length s.history);
}

-- `if len(s.historySeq) != len(s.History)`
unfoldable pub resync : HistoryState → HistoryState
resync s = if length s.seqs == length s.history then s else renumber s

-- What addMessageLocked makes of a core.ChatMessage, which has the same fields: the id of the tool
-- call is not taken over.
abbrev pub from_core : ChatMessage → ChatMessage
from_core m = record m { tool_call_id = [] }

-- addMessageLocked
unfoldable pub add_message : ℕ → ChatMessage → HistoryState → HistoryState × ℕ
add_message now m s =
    let t = resync s in
    let n = u64 (t.next_seq + 1) in
    (
      record t {
        next_seq = n;
        seqs = t.seqs ++ n ∷ [];
        history = t.history ++ from_core m ∷ [];
        updated_at = now;
      },
      n,
    )

abbrev pub user_message : Text → ChatMessage
user_message s = plain_message (codes "user") s

-- The input that PrepareTurnMessages puts into the history.
unfoldable pub with_input : ℕ → Text → HistoryState → HistoryState
with_input now durable h =
    let t = resync h in
    let n = u64 (suc t.next_seq) in
    record t {
      next_seq = n;
      history = t.history ++ user_message durable ∷ [];
      seqs = t.seqs ++ n ∷ [];
      updated_at = now;
    }

-- AddMessageAtEpoch; epoch 0 is any.
unfoldable pub add_message_at_epoch : ℕ → ChatMessage → ℕ → HistoryState → HistoryState × ℕ
add_message_at_epoch now m epoch s =
    if not (epoch == 0) && not (s.epoch == epoch) then (s, 0) else add_message now m s

-- The assignment of History by the engine (agent.go), which leaves the numbers as they are.
unfoldable pub assign_history : ℕ → List ChatMessage → HistoryState → HistoryState
assign_history now messages s = record s { history = messages; updated_at = now }

-- ReplaceMessages
unfoldable pub replace_messages : ℕ → List ChatMessage → HistoryState → HistoryState
replace_messages now messages s =
    let t = renumber (record s { history = messages }) in record t { updated_at = now }

-- TrimHistory
unfoldable pub trim_history : ℕ → ℤ → HistoryState → HistoryState
trim_history now max s =
    let n = to_nat max in
    let t = record s { history = drop (length s.history - n) s.history; updated_at = now } in
    if n == 0 || leb (length s.history) n
    then s
    else (if leb n (length s.seqs)
        then record t { seqs = drop (length s.seqs - n) s.seqs }
        else renumber t)

-- DropLastMessage
unfoldable pub drop_last : ℕ → HistoryState → HistoryState
drop_last now s =
    let n = length s.history - 1 in
    if length s.history == 0 then s else record s {
      history = take n s.history;
      seqs = if ltb n (length s.seqs) then take n s.seqs else s.seqs;
      updated_at = now;
    }

-- The place of a number.
unfoldable pub place : ℕ → List ℕ → Option ℕ
place id [] = none
place id (n ∷ ns) =
    if n == id then some 0 else (elim (place id ns) [ none ↦ none | some i ↦ some (suc i) ])

-- s[:i] and s[i+1:] joined.
unfoldable pub remove_at {ℓ} : {A : Type ℓ} → ℕ → List A → List A
remove_at i [] = []
remove_at zero (x ∷ xs) = xs
remove_at (suc i) (x ∷ xs) = x ∷ remove_at i xs

-- DropMessage
unfoldable pub drop_message : ℕ → HistoryState → HistoryState
unfolding place remove_at
drop_message id s = elim (place id s.seqs) [
  | none ↦ s
  | some i ↦ record s { history = remove_at i s.history; seqs = remove_at i s.seqs }
]

-- The part of Clear that is about the history. It ends no compaction and keeps the epoch.
unfoldable pub clear_history : ℕ → HistoryState → HistoryState
clear_history now s = record s { history = []; seqs = []; inspection = none; updated_at = now }

-- The part of ResetSession that is about the history.
unfoldable pub reset_history : ℕ → HistoryState → HistoryState
reset_history now s = record s {
  history = [];
  seqs = [];
  inspection = none;
  compacting = false;
  epoch = u64 (s.epoch + 1);
  updated_at = now;
}
