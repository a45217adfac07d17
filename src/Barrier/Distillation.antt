-- ===== src/Barrier/Distillation.antt =====
-- internal/llm/session.go: the methods of groupDistillationBarrier, and the threads around one.
pub mod Safety
use frost_agent.Prelude.{
  ℕ, Bool, true, false, not, ◌||◌, ◌&&◌, Option, none, some, List, [], ◌∷◌, if◌then◌else◌,
}
use frost_agent.Barrier.{
  BarrierState, pending, writing, done, aborted, is_writing, is_open, Barrier, close_done, released,
}

unfoldable pub is_valid : Barrier → Bool
is_valid b =
    if b.is_aborted
    then false
    else (if not (is_open b.state) then false else if b.ctx_done then false else true)

begin_from : BarrierState → Barrier → Barrier × Bool
begin_from pending b =
    if b.is_aborted || b.ctx_done
    then (close_done (record b { state = aborted }), false)
    else (record b { state = writing }, true)
begin_from _ b = (b, false)

unfoldable pub try_begin_commit : Barrier → Barrier × Bool
unfolding begin_from
try_begin_commit b = begin_from b.state b

end_from : BarrierState → Barrier → Barrier
end_from writing b =
    let b' = close_done b in
    record b' { state = if b.is_aborted || b.ctx_done then aborted else done }
end_from pending b = close_done (record b { state = done })
end_from _ b = b

unfoldable pub end_commit : Barrier → Barrier
unfolding end_from
end_commit b = end_from b.state b

-- AbortAndWait up to its receive: the channel that it then waits on, if any.
unfoldable pub abort : Barrier → Barrier × Option ℕ
abort b =
    let b' = record b { is_aborted = true; ctx_done = true } in
    if is_writing b.state
    then (b', some b.channel)
    else (close_done (record b' { state = aborted }), none)

-- A barrier with one goroutine that writes under it and one that aborts it.
pub record World : Type 0 where
  pub barrier : Barrier
  pub in_commit : Bool  -- the writer is between TryBeginCommit and EndCommit
  pub waits_on : Option ℕ  -- the channel on which AbortAndWait is blocked
  pub returned : Bool  -- AbortAndWait has returned

pub data Event : Type 0 where
  begins ends cleans_up cancels aborts wakes : Event

wake : Option ℕ → World → World
wake none w = w
wake (some c) w = if released w.barrier c then record w { waits_on = none; returned = true } else w

waits : Option ℕ → Bool
waits none = true
waits (some c) = false

-- One step; an event that cannot happen changes nothing.
unfoldable pub step : World → Event → World
unfolding try_begin_commit end_commit abort wake waits
step w begins =
    if w.in_commit
    then w
    else (let (b, ok) = try_begin_commit w.barrier in record w { barrier = b; in_commit = ok })
step w ends =
    if w.in_commit then record w { barrier = end_commit w.barrier; in_commit = false } else w
step w cleans_up = if w.in_commit then w else record w { barrier = end_commit w.barrier }
step w cancels = let b = w.barrier in record w { barrier = record b { ctx_done = true } }
step w aborts =
    let (b, c) = abort w.barrier in
    if waits w.waits_on
    then record w { barrier = b; waits_on = c; returned = w.returned || waits c }
    else w
step w wakes = wake w.waits_on w

unfoldable pub run : World → List Event → World
run w [] = w
run w (e ∷ es) = run (step w e) es
