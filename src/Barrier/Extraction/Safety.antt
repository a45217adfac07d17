-- ===== src/Barrier/Extraction/Safety.antt =====
-- internal/llm/session.go, sessionExtractionBarrier: writes against AbortAndWait and ResetSession.
use frost_agent.Prelude.{
  ℕ, ◌≡◌, refl, ◌≤◌, ◌<◌, ◌⊎◌, inl, inr, Bool-cases, true, false, Option, none, some, List, [], ◌∷◌,
  arith,
}
use frost_agent.Barrier.{is_writing, is_open, Barrier, fresh_barrier}
use frost_agent.Barrier.Extraction.{
  World, Event, begins, ends, closes, cancels, resets, aborts, wakes, step, run,
}

-- A barrier made by BeginExtraction in the session epoch `n`.
abbrev pub start : ℕ → World
start n = record {
  barrier = record { base = fresh_barrier; epoch = n };
  current = n;
  in_commit = false;
  waits_on = none;
  returned = false;
}

-- A blocked AbortAndWait has set the flag, and waits on the present channel.
abbrev WaitsRight : Option ℕ → Barrier → Type 0
WaitsRight none b = Unit {0}
WaitsRight (some c) b = (b.is_aborted ≡ true) × (c ≡ b.channel)

-- What links the barrier's state to the two goroutines.
record Inv (w : World) : Type 0 where
  writes : w.in_commit ≡ is_writing w.barrier.state
  open_channel : is_open w.barrier.state ≡ true → w.barrier.done_closed ≡ false
  closing : w.barrier.is_aborted ≡ true → (w.in_commit ≡ true) ⊎ (w.barrier.done_closed ≡ true)
  waiting : WaitsRight w.waits_on w.barrier.base
  settled : w.returned ≡ true → (w.barrier.is_aborted ≡ true) × (w.in_commit ≡ false)

start-Inv : (n : ℕ) → Inv (start n)
start-Inv n = ground arith

step-Inv : (w : World) (e : Event) → Inv w → Inv (step w e)
unfolding step
step-Inv w begins v = ground arith
step-Inv w ends v = ground arith
step-Inv w closes v = ground arith
step-Inv w cancels v = ground arith
step-Inv w resets v = ground arith
step-Inv w aborts v = ground arith
step-Inv w wakes v = ground arith

run-Inv : (w : World) (es : List Event) → Inv w → Inv (run w es)
unfolding run
run-Inv w [] v = v
run-Inv w (e ∷ es) v = run-Inv (step w e) es (step-Inv w e v)

step-returned : (w : World) (e : Event) → w.returned ≡ true → (step w e).returned ≡ true
unfolding step
step-returned w begins h = ground arith
step-returned w ends h = ground arith
step-returned w closes h = ground arith
step-returned w cancels h = ground arith
step-returned w resets h = ground arith
step-returned w aborts h = ground arith
step-returned w wakes h = ground arith

run-returned : (w : World) (es : List Event) → w.returned ≡ true → (run w es).returned ≡ true
unfolding run
run-returned w [] h = h
run-returned w (e ∷ es) h = run-returned (step w e) es (step-returned w e h)

run-start-Inv : (n : ℕ) (es fs : List Event) → Inv (run (run (start n) es) fs)
run-start-Inv n es fs = run-Inv (run (start n) es) fs (run-Inv (start n) es (start-Inv n))

-- sessionExtractionBarrier: once AbortAndWait has returned, in any interleaving with the writer and
-- with resets, no write is in progress then or at any later time.
pub no_extraction_after_abort :
    (n : ℕ) (es fs : List Event)
    → (run (start n) es).returned ≡ true
    → (run (run (start n) es) fs).in_commit ≡ false
no_extraction_after_abort n es fs h =
    ((run-start-Inv n es fs).settled (run-returned (run (start n) es) fs h)).1

wakes_after_end :
    (w : World) (c : ℕ) → Inv w → w.waits_on ≡ some c → (step (step w ends) wakes).returned ≡ true
unfolding step
wakes_after_end w c v h = elim (Bool-cases w.in_commit) [
  | inl busy ↦ ground arith
  | inr idle ↦ ground arith
]

-- sessionExtractionBarrier: a blocked AbortAndWait returns once the writer has called EndCommit.
pub extraction_abort_released :
    (n : ℕ) (es : List Event) (c : ℕ)
    → (run (start n) es).waits_on ≡ some c
    → (step (step (run (start n) es) ends) wakes).returned ≡ true
extraction_abort_released n es c h =
    wakes_after_end (run (start n) es) c (run-Inv (start n) es (start-Inv n)) h

-- The barrier belongs to an epoch that the session has left, and nothing is being written.
record IsOutdated (w : World) : Type 0 where
  passed : w.barrier.epoch < w.current
  idle : w.in_commit ≡ false

step-IsOutdated : (w : World) (e : Event) → IsOutdated w → IsOutdated (step w e)
unfolding step
step-IsOutdated w begins v = ground arith
step-IsOutdated w ends v = ground arith
step-IsOutdated w closes v = ground arith
step-IsOutdated w cancels v = ground arith
step-IsOutdated w resets v = ground arith
step-IsOutdated w aborts v = ground arith
step-IsOutdated w wakes v = ground arith

run-IsOutdated : (w : World) (es : List Event) → IsOutdated w → IsOutdated (run w es)
unfolding run
run-IsOutdated w [] v = v
run-IsOutdated w (e ∷ es) v = run-IsOutdated (step w e) es (step-IsOutdated w e v)

step-epoch :
    (w : World) (e : Event)
    → ((step w e).barrier.epoch ≡ w.barrier.epoch) × (w.current ≤ (step w e).current)
unfolding step
step-epoch w begins = ground arith
step-epoch w ends = ground arith
step-epoch w closes = ground arith
step-epoch w cancels = ground arith
step-epoch w resets = ground arith
step-epoch w aborts = ground arith
step-epoch w wakes = ground arith

run-epoch :
    (w : World) (es : List Event)
    → ((run w es).barrier.epoch ≡ w.barrier.epoch) × (w.current ≤ (run w es).current)
unfolding run
run-epoch w [] = (refl, omega arith)
run-epoch w (e ∷ es) = ground (arith, step-epoch w e, run-epoch (step w e) es)

-- sessionExtractionBarrier: a reset of the session that finds no write in progress keeps the
-- barrier from writing ever after, also before the barrier is aborted: the epoch has moved on.
pub no_extraction_after_reset :
    (n : ℕ) (es fs : List Event)
    → (run (start n) es).in_commit ≡ false
    → (run (step (run (start n) es) resets) fs).in_commit ≡ false
unfolding step
no_extraction_after_reset n es fs h =
    (run-IsOutdated _ fs (record { passed = omega (arith, run-epoch (start n) es); idle = h })).idle
