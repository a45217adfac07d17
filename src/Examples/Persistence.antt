-- ===== src/Examples/Persistence.antt =====
-- The theorems on the way of a summary to the store at concrete inputs.
use frost_agent.Prelude.{◌≡◌, ◌⊎◌, refl, inr, true, false, none, some, [], ◌∷◌}
use frost_agent.Text.{codes}
use frost_agent.Summaries.{Store, open_store}
use frost_agent.Persistence.{
  Pending, head, failed, Persistence, idle, launch, fresh_record, queue, count_retry, leave_off,
  look,
}
use frost_agent.Persistence.Log.{Log, key_of_record, Recorded, Reach, begin, later, queues, looks}
use frost_agent.Persistence.Log.Kept.{queued_or_answered}
use frost_agent.Persistence.Races.{alone, queued_without_worker, two_workers}

abbrev store : Store
store = open_store (inr [])

-- A summary is queued, and its worker takes it up.
abbrev taken_up : Persistence
taken_up = look 0 (queue (codes "plans") 0 (idle store))

abbrev taken_up_log : Log
taken_up_log = record { last = some (codes "plans", 0); answered = [] }

taken_up_Reach : Reach (codes "group:7") taken_up taken_up_log
unfolding queue launch
taken_up_Reach = later (later (begin store) (queues (codes "plans") 0)) (looks 0 refl)

queued_or_answered_example :
    ((q : Pending) × (taken_up.pending ≡ some q) × (key_of_record q ≡ (codes "plans", 0)))
    ⊎ Recorded (codes "plans", 0) []
queued_or_answered_example = queued_or_answered taken_up_Reach (codes "plans", 0) refl

queued_without_worker_example :
    let q = leave_off 3 (queue (codes "plans") 2 (look 3 (alone none true 3 head 4 store))) in
    (q.pending ≡ some (fresh_record (codes "plans") 2)) × (q.active ≡ false) × (q.workers ≡ [])
queued_without_worker_example = queued_without_worker 3 4 2 store (codes "plans")

two_workers_example :
    let q = leave_off 0 (
      queue (codes "plans") 1 (
        count_retry 0
          (fresh_record (codes "old") 0)
          (alone none true 0 (failed (fresh_record (codes "old") 0)) 1 store))) in
    (queue (codes "late") 1 q).workers ≡ (2, head) ∷ (1, head) ∷ []
two_workers_example =
    two_workers 0 1 1 1 store (fresh_record (codes "old") 0) (codes "plans") (codes "late") refl
