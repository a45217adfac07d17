-- ===== src/Barrier/Distillation/Safety.antt =====
-- internal/llm/session.go, groupDistillationBarrier: writes against AbortAndWait.
use frost_agent.Prelude.{
  ℕ, ◌≡◌, ◌⊎◌, inl, inr, Bool-cases, true, false, Option, none, some, List, [], ◌∷◌, arith,
}
use frost_agent.Barrier.{is_writing, is_open, Barrier, fresh_barrier}
use frost_agent.Barrier.Distillation.{
  World, Event, begins, ends, cleans_up, cancels, aborts, wakes, step, run,
}

abbrev pub start : World
start = record { barrier = fresh_barrier; in_commit = false; waits_on = none; returned = false }

-- A blocked AbortAndWait has set the flag, and waits on the present channel.
abbrev WaitsRight : Option ℕ → Barrier → Type 0
WaitsRight none b = Unit {0}
WaitsRight (some c) b = (b.is_aborted ≡ true) × (c ≡ b.channel)

-- What links the barrier's state to the two goroutines.
record Inv (w : World) : Type 0 where
  writes : w.in_commit ≡ is_writing w.barrier.state
  open_channel : is_open w.barrier.state ≡ true → w.barrier.done_closed ≡ false
  closing : w.barrier.is_aborted ≡ true → (w.in_commit ≡ true) ⊎ (w.barrier.done_closed ≡ true)
  waiting : WaitsRight w.waits_on w.barrier
  settled : w.returned ≡ true → (w.barrier.is_aborted ≡ true) × (w.in_commit ≡ false)

start-Inv : Inv start
start-Inv = ground arith

step-Inv : (w : World) (e : Event) → Inv w → Inv (step w e)
unfolding step
step-Inv w begins v = ground arith
step-Inv w ends v = ground arith
step-Inv w cleans_up v = ground arith
step-Inv w cancels v = ground arith
step-Inv w aborts v = ground arith
step-Inv w wakes v = ground arith

run-Inv : (w : World) (es : List Event) → Inv w → Inv (run w es)
unfolding run
run-Inv w [] v = v
run-Inv w (e ∷ es) v = run-Inv (step w e) es (step-Inv w e v)

step-returned : (w : World) (e : Event) → w.returned ≡ true → (step w e).returned ≡ true
unfolding step
step-returned w begins h = ground arith
step-returned w ends h = ground arith
step-returned w cleans_up h = ground arith
step-returned w cancels h = ground arith
step-returned w aborts h = ground arith
step-returned w wakes h = ground arith

run-returned : (w : World) (es : List Event) → w.returned ≡ true → (run w es).returned ≡ true
unfolding run
run-returned w [] h = h
run-returned w (e ∷ es) h = run-returned (step w e) es (step-returned w e h)

run-append-Inv : (es fs : List Event) → Inv (run (run start es) fs)
run-append-Inv es fs = run-Inv (run start es) fs (run-Inv start es start-Inv)

-- groupDistillationBarrier: once AbortAndWait has returned, in any interleaving with the writer, no
-- write is in progress then or at any later time.
pub no_write_after_abort :
    (es fs : List Event)
    → (run start es).returned ≡ true
    → (run (run start es) fs).in_commit ≡ false
no_write_after_abort es fs h = ((run-append-Inv es fs).settled (run-returned (run start es) fs h)).1

wakes_after_end :
    (w : World) (c : ℕ) → Inv w → w.waits_on ≡ some c → (step (step w ends) wakes).returned ≡ true
unfolding step
wakes_after_end w c v h = elim (Bool-cases w.in_commit) [
  | inl busy ↦ ground arith
  | inr idle ↦ ground arith
]

-- groupDistillationBarrier: a blocked AbortAndWait returns once the writer has called EndCommit.
pub abort_released :
    (es : List Event) (c : ℕ)
    → (run start es).waits_on ≡ some c
    → (step (step (run start es) ends) wakes).returned ≡ true
abort_released es c h = wakes_after_end (run start es) c (run-Inv start es start-Inv) h
