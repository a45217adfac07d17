-- ===== src/Persistence/Races.antt =====
-- Two orders of the calls and of a worker that is about to end, and what they leave behind.
use frost_agent.Prelude.{
  ℕ, suc, ◌≡◌, refl, Bool, true, false, Option, none, some, [], ◌∷◌, ◌==◌, ==_refl,
}
use frost_agent.Text.{Text}
use frost_agent.Summaries.{Store}
use frost_agent.Persistence.{
  Place, Pending, head, failed, Persistence, fresh_record, launch, queue, count_retry, leave_off,
  look,
}

-- A state with one worker.
unfoldable pub alone : Option Pending → Bool → ℕ → Place → ℕ → Store → Persistence
alone pending active i place next store = record {
  pending = pending;
  active = active;
  workers = (i, place) ∷ [];
  next = next;
  store = store;
  canceled = false;
}

-- A worker that is the only one has found nothing to do and has let go of the lock. If a summary is
-- queued before its deferred function runs, the summary ends up pending with no worker at all, and
-- the owner counts as not active.
pub queued_without_worker :
    (i next gen : ℕ) (store : Store) (summary : Text)
    → let q = leave_off i (queue summary gen (look i (alone none true i head next store))) in
      (q.pending ≡ some (fresh_record summary gen)) × (q.active ≡ false) × (q.workers ≡ [])
unfolding queue leave_off look alone
queued_without_worker i next gen store summary = (refl, refl, rw (==_refl i) (rw (==_refl i) refl))

-- The only worker has had an error from Upsert and finds its record rolled back, so it declares the
-- owner not active before its deferred function does so again. If a summary is queued before the
-- deferred function and another one behind it, in a context that is not canceled, two workers run
-- for the owner.
pub two_workers :
    (i next gen gen' : ℕ) (store : Store) (r : Pending) (summary summary' : Text)
    → (next == i) ≡ false
    → let q =
        leave_off i
          (queue summary gen (count_retry i r (alone none true i (failed r) next store))) in
      (queue summary' gen' q).workers ≡ (suc next, head) ∷ (next, head) ∷ []
unfolding queue leave_off count_retry launch alone
two_workers i next gen gen' store r summary summary' new = rw (new, ==_refl i) (rw (==_refl i) refl)
