-- ===== src/Turns/Steps.antt =====
-- internal/llm/sequence.go: what may happen to the turns of a session, in any order. The adapters call
-- Wait before they work on a turn and Done behind it. Where they give a turn up before its Wait they
-- call Done at once (internal/adapter/onebot/adapter.go, internal/adapter/astrbot/adapter.go); the
-- steps and states tell whether that has happened.
use frost_agent.Prelude.{ℕ, ◌≡◌, Bool, true, false, ◌&&◌, Option, some, List, lookup, adjust}
use frost_agent.Text.{Text}
use frost_agent.History.{ChatMessage}
use frost_agent.Turns.{
  queued, running, Turn, TurnState, empty_turns, may_start, reserve_sequence_turn, reserve_turn,
  done, cancel_sequences, reset_turns,
}
use frost_agent.Turns.Prepare.{prepare_turn_messages, save_transcript, memory_state}

-- The return of Wait.
unfoldable pub start : ℕ → TurnState → TurnState
start t s = record s { turns = adjust t (λ x. record x { place = running }) s.turns }

-- A step, and whether it is orderly: a turn that is done has been waited for.
pub data Step (s : TurnState) : Bool → TurnState → Type 0 where
  reserve :
      (key : Text) (interrupt proactive : Bool)
      → Step s true (reserve_sequence_turn key interrupt proactive s).0
  reserve_plain : Step s true (reserve_turn s).0
  wait :
      (t : ℕ) (x : Turn)
      → lookup t s.turns ≡ some x
      → x.place ≡ queued
      → may_start x s ≡ true
      → Step s true (start t s)
  prepare :
      (now : ℕ) (o : Option ℕ) (durable prompt : Text) (billing : Option ℕ)
      → Step s true (prepare_turn_messages now o durable prompt billing s).0
  save : (t : ℕ) (messages : List ChatMessage) → Step s true (save_transcript t messages s)
  remember : (o : Option ℕ) (written : Bool) → Step s true (memory_state o written s).0
  end : (t : ℕ) (x : Turn) → lookup t s.turns ≡ some x → x.place ≡ running → Step s true (done t s)
  give_up :
      (t : ℕ) (x : Turn) → lookup t s.turns ≡ some x → x.place ≡ queued → Step s false (done t s)
  cancel_run : Step s true (cancel_sequences s)
  reset : (now : ℕ) → Step s true (reset_turns now s)

-- The states of a session, and whether every step was orderly.
pub data Reach : Bool → TurnState → Type 0 where
  begin : Reach true empty_turns
  later : {o b : Bool} {s t : TurnState} → Reach o s → Step s b t → Reach (o && b) t
