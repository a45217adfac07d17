-- ===== src/Examples/Distillation.antt =====
-- The theorems on groupDistillationBarrier at concrete inputs.
use frost_agent.Prelude.{◌≡◌, refl, false, List, [], ◌∷◌}
use frost_agent.Barrier.Distillation.{Event, begins, ends, cleans_up, aborts, wakes, step, run}
use frost_agent.Barrier.Distillation.Safety.{start, no_write_after_abort}

-- The abort meets a write and waits for its end.
abbrev aborted_run : List Event
aborted_run = begins ∷ aborts ∷ ends ∷ wakes ∷ []

no_write_after_abort_example :
    (run (run start aborted_run) (begins ∷ cleans_up ∷ begins ∷ [])).in_commit ≡ false
unfolding run step
no_write_after_abort_example =
    no_write_after_abort aborted_run (begins ∷ cleans_up ∷ begins ∷ []) refl
