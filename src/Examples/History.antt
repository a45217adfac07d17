-- ===== src/Examples/History.antt =====
-- The theorems on histories at concrete inputs.
use frost_agent.Prelude.{
  ◌+◌, ◌<◌, ◌⊎◌, length, u64_mod, ◌≡◌, ℕ, refl, true, false, List, [], ◌∷◌, arith,
}
use frost_agent.Text.{Text, codes, trim_space}
use frost_agent.History.{
  ContentPart, ChatMessage, plain_message, HistoryState, empty_history, resync, renumber,
  assign_history, with_input, clear_history, add_message, add_message_at_epoch,
}
use frost_agent.History.Numbers.{Numbered}
use frost_agent.History.Calls.{add, input, assign, Sound, step}
use frost_agent.History.Numbering.{Rising, Reach, here, call, history-Numbered}
use frost_agent.History.Private.{
  PrivateSnapshot, snapshot_private, last_number, commit_private, private_running_summary,
  summary_message, ack_message,
}
use frost_agent.History.Growth.{add_all}
use frost_agent.History.Compaction.{private_commit_exact}
use frost_agent.History.Resets.{clear_then_commit_revives}

abbrev hello : ChatMessage
hello = plain_message (codes "user") (codes "hello")

abbrev answer : ChatMessage
answer = plain_message (codes "assistant") (codes "hi")

-- The first of three messages is gone.
abbrev two : HistoryState
two = record empty_history { history = answer ∷ hello ∷ []; seqs = 2 ∷ 3 ∷ []; next_seq = 3 }

two-Sound : Sound two
two-Sound = record { numbered = (omega arith, omega arith, (omega arith, omega arith, tt)) }

abbrev snap : PrivateSnapshot
snap = record { messages = answer ∷ hello ∷ []; count = 2; epoch = 1; last_seq = 3 }

abbrev compacting : HistoryState
compacting = record two { compacting = true }

abbrev print : List ContentPart → Text
print ps = codes "parts"

abbrev arriving : List (ℕ × ChatMessage)
arriving = (5, answer) ∷ (6, hello) ∷ []

abbrev summary : Text
summary = codes " they greet "

private_commit_exact_example :
    let r = commit_private 9 print snap summary (add_all arriving compacting) in
    (snap.messages ≡ two.history)
    × (r.1 ≡ true)
    × (r.0.compacting ≡ false)
    × (private_running_summary r.0 ≡ trim_space summary)
    × (r.0.history ≡ summary_message (trim_space summary) ∷ ack_message ∷ answer ∷ hello ∷ [])
unfolding snapshot_private last_number trim_space resync
private_commit_exact_example =
    private_commit_exact two compacting snap arriving 9 print summary two-Sound refl (omega arith)
      refl

-- The engine writes a history of one message, then a turn brings its input, and an answer comes.
abbrev reached : HistoryState
reached =
    step 3 (add answer 1)
      (step 2 (input (codes "more")) (step 1 (assign (hello ∷ [])) empty_history))

reached-Reach : Reach true reached
unfolding step add_message_at_epoch add_message resync assign_history with_input renumber
reached-Reach = call true _ 3 (add answer 1) (omega arith) (
    call true _ 2 (input (codes "more")) (omega arith)
      (call false empty_history 1 (assign (hello ∷ [])) (omega arith) here))

reached_room : reached.next_seq + length reached.history < u64_mod
unfolding step add_message_at_epoch add_message resync assign_history with_input renumber
reached_room = omega arith

history-Numbered_example :
    Rising reached
    × Numbered 0 (resync reached).next_seq (resync reached).seqs (resync reached).history
    × ((true ≡ true) ⊎ Numbered 0 reached.next_seq reached.seqs reached.history)
history-Numbered_example = history-Numbered true reached reached-Reach reached_room

clear_then_commit_revives_example :
    let r = commit_private 9 print snap summary (add_all arriving (clear_history 6 compacting)) in
    ((clear_history 6 compacting).history ≡ [])
    × (r.1 ≡ true)
    × (r.0.history ≡ summary_message (trim_space summary) ∷ ack_message ∷ answer ∷ hello ∷ [])
unfolding snapshot_private last_number trim_space resync
clear_then_commit_revives_example =
    clear_then_commit_revives two compacting snap 6 9 arriving print summary two-Sound refl
      (omega arith) refl
