-- ===== src/Barrier/Extraction.antt =====
-- internal/llm/session.go: the methods of sessionExtractionBarrier, and the threads around one.
-- `current` is what the session's Epoch() returns at the call.
pub mod Safety
use frost_agent.Prelude.{
  ℕ, suc, ◌==◌, Bool, true, false, not, ◌||◌, ◌&&◌, Option, none, some, List, [], ◌∷◌,
  if◌then◌else◌,
}
use frost_agent.Barrier.{
  BarrierState, pending, writing, done, aborted, is_writing, is_open, Barrier, close_done, released,
}

-- A barrier with the session epoch that it was made in.
pub record EpochBarrier : Type 0 where
  pub base : Barrier
  pub open base use *
  pub epoch : ℕ

-- The tests that TryBeginCommit and EndCommit share.
abbrev is_stale : ℕ → EpochBarrier → Bool
is_stale current b = b.is_aborted || b.ctx_done || not (current == b.epoch)

unfoldable pub is_valid : ℕ → EpochBarrier → Bool
is_valid current b =
    if b.is_aborted
    then false
    else (if not (is_open b.state)
        then false
        else (if b.ctx_done then false else if current == b.epoch then true else false))

-- `moved s b` is the barrier in the state `s`, `shut s b` with its channel closed too.
abbrev moved : BarrierState → EpochBarrier → EpochBarrier
moved s b = let c = b.base in record b { base = record c { state = s } }

abbrev shut : BarrierState → EpochBarrier → EpochBarrier
shut s b = let c = b.base in record b { base = close_done (record c { state = s }) }

begin_from : BarrierState → ℕ → EpochBarrier → EpochBarrier × Bool
begin_from pending current b =
    if is_stale current b then (shut aborted b, false) else (moved writing b, true)
begin_from _ current b = (b, false)

unfoldable pub try_begin_commit : ℕ → EpochBarrier → EpochBarrier × Bool
unfolding begin_from
try_begin_commit current b = begin_from b.state current b

-- After a write the barrier is ready for another, with a new channel.
reopened : EpochBarrier → EpochBarrier
reopened b =
    let c = b.base in
    record b { base = record c { state = pending; channel = suc b.channel; done_closed = false } }

end_from : BarrierState → ℕ → EpochBarrier → EpochBarrier
unfolding reopened
end_from writing current b = if is_stale current b then shut aborted b else reopened b
end_from pending current b = shut done b
end_from _ current b = b

unfoldable pub end_commit : ℕ → EpochBarrier → EpochBarrier
unfolding end_from
end_commit current b = end_from b.state current b

-- Close
unfoldable pub close : EpochBarrier → EpochBarrier
close b = if is_open b.state then shut done b else b

unfoldable pub is_terminated : EpochBarrier → Bool
is_terminated b = not (is_open b.state)

-- AbortAndWait up to its receive: the channel that it then waits on, if any.
unfoldable pub abort : EpochBarrier → EpochBarrier × Option ℕ
abort b =
    let c = b.base in
    let b' = record b { base = record c { is_aborted = true } } in
    if is_writing b.state then (b', some b.channel) else (shut aborted b', none)

-- A barrier with one goroutine that writes under it and one that aborts it.
pub record World : Type 0 where
  pub barrier : EpochBarrier
  pub current : ℕ  -- the session's epoch
  pub in_commit : Bool  -- the writer is between TryBeginCommit and EndCommit
  pub waits_on : Option ℕ  -- the channel on which AbortAndWait is blocked
  pub returned : Bool  -- AbortAndWait has returned

pub data Event : Type 0 where
  begins ends closes cancels resets aborts wakes : Event

wake : Option ℕ → World → World
wake none w = w
wake (some c) w =
    if released w.barrier.base c then record w { waits_on = none; returned = true } else w

waits : Option ℕ → Bool
waits none = true
waits (some c) = false

-- One step; an event that cannot happen changes nothing. The goroutine that writes also closes.
unfoldable pub step : World → Event → World
unfolding try_begin_commit end_commit close abort wake waits
step w begins =
    if w.in_commit
    then w
    else (let (b, ok) = try_begin_commit w.current w.barrier in
        record w { barrier = b; in_commit = ok })
step w ends =
    if w.in_commit
    then record w { barrier = end_commit w.current w.barrier; in_commit = false }
    else w
step w closes = if w.in_commit then w else record w { barrier = close w.barrier }
step w cancels =
    let b = w.barrier in
    let c = b.base in record w { barrier = record b { base = record c { ctx_done = true } } }
step w resets = record w { current = suc w.current }
step w aborts =
    let (b, c) = abort w.barrier in
    if waits w.waits_on
    then record w { barrier = b; waits_on = c; returned = w.returned || waits c }
    else w
step w wakes = wake w.waits_on w

unfoldable pub run : World → List Event → World
run w [] = w
run w (e ∷ es) = run (step w e) es
