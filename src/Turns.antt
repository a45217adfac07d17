-- ===== src/Turns.antt =====
-- internal/llm/sequence.go and session.go: the turns of a session and the lanes that they queue in.
-- A turn and a lane are named by numbers, which stand for the pointers to them; of an active skill
-- only its name is here.
pub mod Prepare
pub mod Steps
pub mod Chain
pub mod Shapes
pub mod Queue
pub mod Order
pub mod Interrupt
pub mod Transcript
use frost_agent.Prelude.{
  ℕ, zero, suc, ◌==◌, Bool, true, false, not, ◌||◌, Option, none, some, List, [], ◌∷◌,
  if◌then◌else◌, u64, lookup, adjust, map,
}
use frost_agent.Text.{Text}
use frost_agent.Text.Maps.{find, put}
use frost_agent.History.{ChatMessage, HistoryState, empty_history, reset_history}

-- Where the goroutine of a turn stands: before the return of Wait, before Done, or behind it.
pub data Place : Type 0 where
  queued : Place
  running : Place
  finished : Place

-- SessionTurn
pub record Turn : Type 0 where
  pub wait : Option ℕ  -- the turn whose channel `done` it waits for
  pub place : Place  -- `done` is closed where it is `finished`
  pub epoch : ℕ
  pub lane : Option ℕ
  pub canceled : Bool  -- ctx.Err() != nil
  pub previous : Option ℕ
  pub input_index : ℕ
  pub transcript_start : ℕ
  pub durable : Text
  pub message_seq : ℕ
  pub skills : List Text  -- the active skills of skillState

abbrev pub new_turn : Option ℕ → Option ℕ → Option ℕ → ℕ → Turn
new_turn wait lane previous epoch = record {
  wait = wait;
  place = queued;
  epoch = epoch;
  lane = lane;
  canceled = false;
  previous = previous;
  input_index = 0;
  transcript_start = 0;
  durable = [];
  message_seq = 0;
  skills = [];
}

-- executionSequence
pub record Lane : Type 0 where
  pub tail : Option ℕ
  pub active : Option ℕ
  pub transcript : List ChatMessage
  pub billing : Option ℕ  -- a pointer to the billing state of the run
  pub skills : Option ℕ  -- the turn whose skillState it is
  pub proactive : Bool
  pub message_ids : List ℕ
  pub memory_written : Bool
  pub skill_inputs : List Text

abbrev pub new_lane : Bool → Lane
new_lane proactive = record {
  tail = none;
  active = none;
  transcript = [];
  billing = none;
  skills = none;
  proactive = proactive;
  message_ids = [];
  memory_written = false;
  skill_inputs = [];
}

-- The part of a SessionContext that is about turns.
pub record TurnState : Type 0 where
  pub sequences : List (Text × ℕ)
  pub lanes : List (ℕ × Lane)
  pub turns : List (ℕ × Turn)
  pub next_lane : ℕ  -- a lane that is not used yet
  pub next_turn : ℕ
  pub turn_tail : Option ℕ  -- turnTail
  pub core : HistoryState

abbrev pub empty_turns : TurnState
empty_turns = record {
  sequences = [];
  lanes = [];
  turns = [];
  next_lane = 0;
  next_turn = 0;
  turn_tail = none;
  core = empty_history;
}

-- `if s.epoch == 0 { s.epoch = 1 }`
abbrev pub started_epoch : HistoryState → HistoryState
started_epoch h = if h.epoch == 0 then record h { epoch = 1 } else h

abbrev pub mark : Turn → Turn
mark t = record t { canceled = true }

-- t.cancel()
abbrev pub cancel : Option ℕ → List (ℕ × Turn) → List (ℕ × Turn)
cancel none turns = turns
cancel (some t) turns = adjust t mark turns

abbrev pub previous_of : ℕ → List (ℕ × Turn) → Option ℕ
previous_of t turns = elim (lookup t turns) [ none ↦ none | some x ↦ x.previous ]

-- The loop over a turn, the one before it, and so on; the fuel bounds how many there are.
unfoldable pub cancel_chain : ℕ → Option ℕ → List (ℕ × Turn) → List (ℕ × Turn)
cancel_chain zero o turns = turns
cancel_chain (suc fuel) none turns = turns
cancel_chain (suc fuel) (some t) turns =
    cancel_chain fuel (previous_of t turns) (cancel (some t) turns)

-- The lane of a key, made where there is none.
unfoldable pub lane_for : Text → Bool → TurnState → TurnState × ℕ
lane_for key proactive s = elim (find key s.sequences) [
  | some l ↦ (s, l)
  | none ↦ (
    record s {
      sequences = put key s.next_lane s.sequences;
      lanes = (s.next_lane, new_lane proactive) ∷ s.lanes;
      next_lane = suc s.next_lane;
    },
    s.next_lane,
  )
]

-- The lane that a pointer points to.
abbrev pub lane_at : ℕ → List (ℕ × Lane) → Lane
lane_at l lanes = elim (lookup l lanes) [ none ↦ new_lane false | some lane ↦ lane ]

-- What an explicit injection cancels: the active turn, and those that wait.
unfoldable pub cancel_lane : ℕ → Lane → List (ℕ × Turn) → List (ℕ × Turn)
unfolding cancel_chain
cancel_lane fuel lane turns = cancel_chain fuel lane.tail (cancel lane.active turns)

-- A new turn behind the last one of a lane.
unfoldable pub join_lane : Bool → ℕ → TurnState → TurnState × ℕ
join_lane interrupt l s =
    let lane = lane_at l s.lanes in
    let turns = if interrupt then cancel_lane s.next_turn lane s.turns else s.turns in
    let t = new_turn lane.tail (some l) lane.tail s.core.epoch in
    (
      record s {
        lanes = adjust l (λ x. record x { tail = some s.next_turn }) s.lanes;
        turns = (s.next_turn, t) ∷ turns;
        next_turn = suc s.next_turn;
      },
      s.next_turn,
    )

-- ReserveSequenceTurn
unfoldable pub reserve_sequence_turn : Text → Bool → Bool → TurnState → TurnState × ℕ
unfolding join_lane
reserve_sequence_turn key interrupt proactive s0 =
    let (s, l) = lane_for key proactive (record s0 { core = started_epoch s0.core }) in
    join_lane interrupt l s

-- ReserveTurn
unfoldable pub reserve_turn : TurnState → TurnState × ℕ
reserve_turn s =
    let core = started_epoch s.core in
    let t = new_turn s.turn_tail none none core.epoch in
    (
      record s {
        turns = (s.next_turn, t) ∷ s.turns;
        next_turn = suc s.next_turn;
        turn_tail = some s.next_turn;
        core = core;
      },
      s.next_turn,
    )

abbrev pub is_finished : Place → Bool
is_finished queued = false
is_finished running = false
is_finished finished = true

-- Whether Wait returns.
unfoldable pub may_start : Turn → TurnState → Bool
may_start x s = elim x.wait [
  | none ↦ true
  | some v ↦ elim (lookup v s.turns) [ none ↦ false | some y ↦ is_finished y.place ]
]

-- finishSequence, for a lane
abbrev pub leave : ℕ → Bool → Lane → Lane
leave t interrupted lane =
    let is_tail : Bool = elim lane.tail [ none ↦ false | some u ↦ u == t ] in
    let is_active : Bool = elim lane.active [ none ↦ false | some u ↦ u == t ] in
    let lane' = if is_active then record lane { active = none } else lane in
    let lane'' =
      if is_tail || not interrupted
      then record lane' {
        transcript = [];
        billing = none;
        message_ids = [];
        memory_written = false;
        skill_inputs = [];
      }
      else lane' in
    if is_tail then record lane'' { tail = none } else lane''

-- What Done makes of the turn itself.
abbrev pub finish : Turn → Turn
finish x = elim x.lane [
  | none ↦ record x { place = finished }
  | some l ↦ record x { previous = none; canceled = true; place = finished }
]

-- Done, the first time it is called; the staged guard of a turn is not here.
unfoldable pub done : ℕ → TurnState → TurnState
done t s = elim (lookup t s.turns) [
  | none ↦ s
  | some x ↦ record s {
    turns = adjust t finish s.turns;
    lanes = elim x.lane [ none ↦ s.lanes | some l ↦ adjust l (leave t x.canceled) s.lanes ];
  }
]

unfoldable pub cancel_lanes : ℕ → List ℕ → List (ℕ × Lane) → List (ℕ × Turn) → List (ℕ × Turn)
unfolding cancel_lane
cancel_lanes fuel [] lanes turns = turns
cancel_lanes fuel (l ∷ ls) lanes turns =
    cancel_lanes fuel ls lanes (cancel_lane fuel (lane_at l lanes) turns)

-- cancelSequencesLocked
unfoldable pub cancel_sequences : TurnState → TurnState
unfolding cancel_lanes
cancel_sequences s = record s {
  turns = cancel_lanes s.next_turn (map (λ e. e.1) s.sequences) s.lanes s.turns;
}

-- The part of ResetSession that is about turns.
unfoldable pub reset_turns : ℕ → TurnState → TurnState
unfolding cancel_sequences reset_history
reset_turns now s =
    let t = cancel_sequences s in record t { sequences = []; core = reset_history now t.core }
