-- ===== src/Planner.antt =====
-- internal/llm/group_compactor.go: when the compaction of one conversation starts, and the timer that
-- starts a later one. Times are nanoseconds of one clock. A timer is named by its token.
pub mod Steps
pub mod Sound
pub mod Promise
pub mod Outcome
use frost_agent.Prelude.{
  ℕ, suc, ◌+◌, ◌-◌, ◌*◌, ◌==◌, Bool, true, false, not, ◌||◌, Option, none, some, List, [], ◌∷◌,
  if◌then◌else◌, u64, ℤ, pos, to_nat, ltb, keep, max, drop, length,
}
use frost_agent.Text.{Text, is_empty, trim_space}
use frost_agent.GroupCompact.State.{GroupState, Snapshot}
use frost_agent.GroupCompact.Distill.{begin_distillation, cleanup_distillation}
use frost_agent.GroupCompact.Compact.{
  snapshot_compact, compact_ready, Persisted, commit_with_persistence,
}

pub record Planner : Type 0 where
  pub buffer_size : ℕ
  pub max_buffer_size : ℕ
  pub min_interval : ℕ
  pub retry_delay : ℕ
  pub canceled : Bool  -- c.Context().Err() != nil
  pub in_flight : Bool  -- inflight[key]
  pub last_run : Option ℕ  -- lastRun[key]
  pub scheduled : Option ℕ  -- scheduled[key]
  pub scheduled_token : ℕ  -- scheduledToken[key], 0 where it is missing
  pub timer_seq : ℕ  -- scheduledTimerSeq[key]
  pub armed : List (ℕ × ℕ)  -- the timers that run, with the time at which they fire
  pub fired : List ℕ  -- their functions that wait for the lock
  pub calls : ℕ  -- those about to call TriggerWithScope
  pub waiting : List Snapshot  -- compactions before c.Go
  pub running : List Snapshot  -- the goroutines of compact

abbrev default_buffer_size : ℕ
default_buffer_size = 20

abbrev default_max_buffer_size : ℕ
default_max_buffer_size = 200

abbrev default_min_interval : ℕ
default_min_interval = 30000000000

abbrev default_retry_delay : ℕ
default_retry_delay = 5000000000

abbrev pub grace : ℕ
grace = 5000000

-- `n`, or the default where it is not above 0.
unfoldable pub or_default : ℤ → ℕ → ℕ
or_default n default = if to_nat n == 0 then default else to_nat n

-- NewGroupCompactor
unfoldable pub new_planner : ℤ → ℤ → Planner
unfolding or_default
new_planner buffer_size min_interval =
    let size = or_default buffer_size default_buffer_size in
    record {
      buffer_size = size;
      max_buffer_size = max (size * 10) default_max_buffer_size;
      min_interval = or_default min_interval default_min_interval;
      retry_delay = default_retry_delay;
      canceled = false;
      in_flight = false;
      last_run = none;
      scheduled = none;
      scheduled_token = 0;
      timer_seq = 0;
      armed = [];
      fired = [];
      calls = 0;
      waiting = [];
      running = [];
    }

-- SetMaxBufferSize
unfoldable pub set_max_buffer_size : ℤ → Planner → Planner
set_max_buffer_size size p =
    if to_nat size == 0 then p else record p { max_buffer_size = max (to_nat size) p.buffer_size }

-- SetBufferSize
unfoldable pub set_buffer_size : ℤ → Planner → Planner
set_buffer_size size p = if to_nat size == 0 then p else record p {
  buffer_size = to_nat size;
  max_buffer_size = max p.max_buffer_size (to_nat size);
}

-- SetRetryDelay
unfoldable pub set_retry_delay : ℤ → Planner → Planner
set_retry_delay delay p = if to_nat delay == 0 then p else record p { retry_delay = to_nat delay }

-- What scheduleTriggerLocked does once nothing stands against it.
abbrev pub arm : ℕ → ℕ → Planner → Planner
arm now delay p =
    let token = u64 (p.timer_seq + 1) in
    record p {
      timer_seq = token;
      scheduled_token = token;
      scheduled = some token;
      armed = (token, now + delay) ∷ p.armed;
    }

-- scheduleTriggerLocked
unfoldable pub schedule_trigger : ℕ → ℕ → Planner → Planner
schedule_trigger now delay p = elim p.scheduled [
  | some t ↦ p
  | none ↦ if p.canceled then p else arm now delay p
]

-- cancelScheduledLocked, which is also StopTimers for this conversation
unfoldable pub cancel_scheduled : Planner → Planner
cancel_scheduled p = elim p.scheduled [
  | none ↦ p
  | some t ↦ record p {
    scheduled = none;
    scheduled_token = 0;
    armed = keep (λ e. not (e.0 == t)) p.armed;
  }
]

-- The time since the last start, where it is shorter than the interval by more than the grace.
unfoldable pub cooling : ℕ → Planner → Option ℕ
cooling now p = elim p.last_run [
  | none ↦ none
  | some at ↦ if ltb (now - at + grace) p.min_interval then some (now - at) else none
]

-- A compaction of `snap` starts.
unfoldable pub start : ℕ → Snapshot → Planner → Planner
unfolding cancel_scheduled
start now snap p =
    let p' = cancel_scheduled p in
    record p' { in_flight = true; last_run = some now; waiting = snap ∷ p'.waiting }

-- TriggerWithScope
unfoldable pub trigger : ℕ → GroupState → Planner → Planner
unfolding cooling start schedule_trigger
trigger now s p =
    let delayed : ℕ → Planner = λ elapsed.
      if compact_ready (pos p.buffer_size) s
      then schedule_trigger now (p.min_interval - elapsed + grace) p
      else p in
    let at_once : Planner = elim (snapshot_compact (pos p.buffer_size) s) [
      | none ↦ p
      | some snap ↦ start now snap p
    ] in
    let onward : Planner = elim (cooling now p) [
      | some elapsed ↦ delayed elapsed
      | none ↦ at_once
    ] in
    if p.canceled || p.in_flight then p else onward

pub data Refusal : Type 0 where
  stopped : Refusal  -- the error of the context
  already_compacting : Refusal  -- ErrAlreadyCompacting
  nothing_to_compact : Refusal  -- ErrNothingToCompact

-- ForceCompact
unfoldable pub force_compact : ℕ → GroupState → Planner → Planner × Option Refusal
unfolding start
force_compact now s p =
    let onward : Planner × Option Refusal = elim (snapshot_compact (pos 1) s) [
      | none ↦ (p, some nothing_to_compact)
      | some snap ↦ (start now snap p, none)
    ] in
    if p.canceled
    then (p, some stopped)
    else (if p.in_flight then (p, some already_compacting) else onward)

-- c.Go, which takes no work once the context is canceled
unfoldable pub launch_run : Planner → List Snapshot → Planner
launch_run p [] = p
launch_run p (snap ∷ rest) =
    let p' = record p { waiting = rest } in
    if p.canceled then p' else record p' { running = snap ∷ p.running }

unfoldable pub launch_compact : Planner → Planner
unfolding launch_run
launch_compact p = launch_run p p.waiting

-- What the language model answers: an error, a message that is no text, or a text.
pub data Answer : Type 0 where
  unavailable : Answer
  no_text : Answer
  text : Text → Answer

-- How compact ends: `succeeded`, only `retryOnFailure`, or neither.
pub data Ending : Type 0 where
  success : Ending
  failure : Ending
  given_up : Ending

unfoldable pub ending_of : GroupState × Persisted → GroupState × Ending
ending_of (s, (committed, some err)) = (s, given_up)
ending_of (s, (true, none)) = (s, success)
ending_of (s, (false, none)) = (s, failure)

-- What meets distillGroupMemories behind a commit: whether there are a group, a store that could be
-- bound and a writer, and what other calls make of the session up to BeginGroupDistillation and from
-- there to the cleanup.
pub record Aftermath : Type 0 where
  pub ready : Bool
  pub before : GroupState → GroupState
  pub during : GroupState → GroupState

-- distillGroupMemories, as far as it changes the session; the memories go to the group's store.
unfoldable pub distill_group_memories : Aftermath → Snapshot → GroupState → GroupState
distill_group_memories a snap s =
    let t = a.before s in
    let (begun, (id, barrier)) = begin_distillation snap t in
    if length snap.messages == 0 || not a.ready
    then t
    else (elim id [ none ↦ a.during begun | some k ↦ cleanup_distillation k snap (a.during begun) ])

-- What follows a compaction that has succeeded.
unfoldable pub followed : Aftermath → Snapshot → GroupState × Ending → GroupState × Ending
unfolding distill_group_memories
followed a snap (s, success) = (distill_group_memories a snap s, success)
followed a snap (s, failure) = (s, failure)
followed a snap (s, given_up) = (s, given_up)

-- compact before its deferred function. The request to the model is not here, only what it answers;
-- `bound` is bindGroupStore without an error, `persist` what the database answers. The session is
-- the one that the commit meets.
unfoldable pub compact :
    ℕ → Bool → Answer → Option Persisted → Aftermath → Snapshot → GroupState → GroupState × Ending
unfolding ending_of followed
compact now bound answer persist after snap s =
    let summarised : Text → GroupState × Ending = λ t.
      if is_empty (trim_space t)
      then (s, failure)
      else followed after snap
          (ending_of (commit_with_persistence now snap (trim_space t) persist s)) in
    if not bound then (s, given_up) else (elim answer [
      | unavailable ↦ (s, failure)
      | no_text ↦ (s, failure)
      | text t ↦ summarised t
    ])

-- What is left of the interval since the last start.
unfoldable pub remaining : ℕ → Planner → ℕ
remaining now p = elim p.last_run [ none ↦ 0 | some at ↦ p.min_interval - (now - at) ]

-- How long the next start has to wait, where there is to be one.
unfoldable pub pause : ℕ → Ending → Planner → Option ℕ
pause now success p = some (remaining now p)
pause now failure p = some (max p.retry_delay (remaining now p))
pause now given_up p = none

unfoldable pub with_grace : ℕ → ℕ
with_grace delay = if delay == 0 then 0 else delay + grace

-- The deferred function of compact.
unfoldable pub finish : ℕ → GroupState → Ending → Planner → Planner
unfolding pause with_grace schedule_trigger
finish now s ending p =
    let p' = record p { in_flight = false; running = drop 1 p.running } in
    elim (pause now ending p') [
      | none ↦ p'
      | some delay ↦
          if compact_ready (pos p.buffer_size) s
          then schedule_trigger now (with_grace delay) p'
          else p'
    ]

-- A timer that runs out: its function waits for the lock.
unfoldable pub fire : ℕ → Planner → Planner
fire t p = record p { armed = keep (λ e. not (e.0 == t)) p.armed; fired = t ∷ p.fired }

-- The function of a timer before it calls TriggerWithScope.
unfoldable pub call_back : ℕ → Planner → Planner
call_back t p =
    let p' = record p { fired = keep (λ u. not (u == t)) p.fired } in
    if p.scheduled_token == t
    then record p' { scheduled = none; scheduled_token = 0; calls = suc p.calls }
    else p'
