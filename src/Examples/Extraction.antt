-- ===== src/Examples/Extraction.antt =====
-- The theorems on sessionExtractionBarrier at concrete inputs.
use frost_agent.Prelude.{◌≡◌, refl, false, List, [], ◌∷◌}
use frost_agent.Barrier.Extraction.{Event, begins, ends, closes, aborts, wakes, step, run}
use frost_agent.Barrier.Extraction.Safety.{start, no_extraction_after_abort}

-- A first write ends before the abort, which meets the second.
abbrev aborted_run : List Event
aborted_run = begins ∷ ends ∷ begins ∷ aborts ∷ ends ∷ wakes ∷ []

no_extraction_after_abort_example :
    (run (run (start 4) aborted_run) (begins ∷ closes ∷ begins ∷ [])).in_commit ≡ false
unfolding run step
no_extraction_after_abort_example =
    no_extraction_after_abort 4 aborted_run (begins ∷ closes ∷ begins ∷ []) refl
