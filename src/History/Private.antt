-- ===== src/History/Private.antt =====
-- internal/llm/session.go: the compaction of a private chat.
use frost_agent.Prelude.{
  ℕ, ◌+◌, ◌-◌, Bool, true, false, not, ◌&&◌, none, some, List, [], ◌∷◌, ◌++◌, u64, ltb, ◌==◌,
  if◌then◌else◌, any, length, map,
}
use frost_agent.Text.{Text, codes, is_empty, trim_space}
use frost_agent.GroupCompact.Message.{GroupCompactMessage, no_message, format_display}
use frost_agent.History.{
  ContentPart, Content, text, parts, ChatMessage, plain_message, PrivateBatch, HistoryState, fresh,
  advance, resync,
}

-- PrivateCompactSnapshot
pub record PrivateSnapshot : Type 0 where
  pub messages : List ChatMessage
  pub count : ℕ
  pub epoch : ℕ
  pub last_seq : ℕ

-- What SnapshotPrivateCompact answers.
pub data SnapshotResult : Type 0 where
  already_compacting nothing_to_compact : SnapshotResult
  snapshot : PrivateSnapshot → SnapshotResult

unfoldable pub last_number : ℕ → List ℕ → ℕ
last_number d [] = d
last_number d (n ∷ ns) = last_number n ns

-- SnapshotPrivateCompact
unfoldable pub snapshot_private : HistoryState → HistoryState × SnapshotResult
snapshot_private s =
    let t = resync s in
    if s.compacting
    then (s, already_compacting)
    else (if length s.history == 0 then (s, nothing_to_compact) else (
      record t { compacting = true },
      snapshot (record {
        messages = t.history;
        count = length t.history;
        epoch = t.epoch;
        last_seq = last_number 0 t.seqs;
      }),
    ))

-- The messages with a number above `last`.
unfoldable pub keep_after : ℕ → List ℕ → List ChatMessage → List ChatMessage
keep_after last [] ms = []
keep_after last (n ∷ ns) [] = []
keep_after last (n ∷ ns) (m ∷ ms) =
    let rest = keep_after last ns ms in if ltb last n then m ∷ rest else rest

-- fmt.Sprint(msg.Content)
unfoldable pub sprint : (List ContentPart → Text) → Content → Text
sprint print (text s) = s
sprint print (parts ps) = print ps

-- historyInspectionMessage
unfoldable pub inspection_message : (List ContentPart → Text) → ChatMessage → GroupCompactMessage
unfolding sprint
inspection_message print m = record no_message { role = m.role; content = sprint print m.content }

batch_of : (List ContentPart → Text) → Text → PrivateSnapshot → PrivateBatch
unfolding inspection_message
batch_of print summary snap =
    let items = map (inspection_message print) snap.messages in
    record {
      summary = summary;
      end_index = length snap.messages - 1;
      messages = map format_display items;
      structured = items;
    }

abbrev pub summary_message : Text → ChatMessage
summary_message summary = plain_message (codes "user") (codes "[先前对话总结] " ++ summary)

abbrev pub ack_message : ChatMessage
ack_message = plain_message (codes "assistant") (codes "了解，我已记住上述先前的对话背景。")

-- The commit once nothing stands against it. The two messages that it adds come first.
unfoldable pub install :
    ℕ → (List ContentPart → Text) → PrivateSnapshot → Text → HistoryState → HistoryState
unfolding batch_of
install now print snap summary s =
    let t = resync s in
    let history =
      summary_message summary ∷ ack_message ∷ keep_after snap.last_seq t.seqs t.history in
    let n1 = u64 (t.next_seq + 1) in
    let n2 = u64 (n1 + 1) in
    record t {
      history = history;
      seqs = fresh t.next_seq (length history);
      next_seq = advance t.next_seq (length history);
      inspection =
          some (record { summary_seq = n1; ack_seq = n2; batch = batch_of print summary snap });
      compacting = false;
      updated_at = now;
    }

-- CommitPrivateCompact; in every case the compaction is over.
unfoldable pub commit_private :
    ℕ → (List ContentPart → Text) → PrivateSnapshot → Text → HistoryState → HistoryState × Bool
commit_private now print snap summary s =
    let summary' = trim_space summary in
    let over = record s { compacting = false } in
    if not (s.epoch == snap.epoch)
    then (over, false)
    else (if is_empty summary' then (over, false) else (install now print snap summary' s, true))

-- CancelPrivateCompact
unfoldable pub cancel_private : HistoryState → HistoryState
cancel_private s = record s { compacting = false }

-- hasPrivateCompactLocked
unfoldable pub has_private_compact : HistoryState → Bool
has_private_compact s = elim s.inspection [
  | none ↦ false
  | some i ↦ length s.seqs == length s.history && any (λ n. n == i.summary_seq) s.seqs
]

-- PrivateRunningSummary
unfoldable pub private_running_summary : HistoryState → Text
private_running_summary s =
    if has_private_compact s
    then (elim s.inspection [ none ↦ [] | some i ↦ i.batch.summary ])
    else []
