-- ===== src/Persistence/Log.antt =====
-- Every interleaving of the calls of a compactor and its workers, with a log of what was queued last
-- and of what Upsert has answered for without an error.
pub mod Tracked
pub mod Kept
use frost_agent.Prelude.{
  ℕ, ◌≡◌, ◌⊎◌, inl, inr, Bool, true, false, ◌&&◌, Option, none, some, List, [], ◌∷◌, ◌==◌,
  if◌then◌else◌, any, lookup,
}
use frost_agent.Text.{Text, is_empty, trim_space, text_eq}
use frost_agent.Summaries.{Failure, Store, generation, upsert}
use frost_agent.Persistence.{
  Pending, holding, failed, stored, sleeping, leaving, head, Persistence, idle, World, queue,
  roll_back_to, look, put_record, count_retry, settle_record, wake_up, leave_off,
}

-- A summary with the epoch for which it was made.
abbrev pub Key : Type 0
Key = Text × ℕ

abbrev pub key_of_record : Pending → Key
key_of_record r = (r.summary, r.generation)

pub record Log : Type 0 where
  pub last : Option Key  -- queued last, and not rolled back to nothing
  pub answered : List Key  -- Upsert stored it or discarded it as stale

abbrev pub empty_log : Log
empty_log = record { last = none; answered = [] }

abbrev pub note : Failure ⊎ Bool → Key → Log → Log
note (inl e) k g = g
note (inr applied) k g = record g { answered = k ∷ g.answered }

abbrev pub Recorded : Key → List Key → Type 0
Recorded k answered = any (λ a. text_eq a.0 k.0 && a.1 == k.1) answered ≡ true

-- What RollbackPersistence leaves in the log.
abbrev pub rolled : World → Text → Text → Persistence → Log → Log
rolled w owner clean p g =
    let k : Key = (trim_space clean, generation p.store owner) in
    let g' : Log = record g { last = some k } in
    let answer = (upsert w.now w.save p.store owner k.0 k.1).1 in
    if is_empty (trim_space clean)
    then record g { last = none }
    else (if p.active then g' else note answer k g')

pub data Step (owner : Text) (p : Persistence) (g : Log) : Persistence → Log → Type 0 where
  queues :
      (summary : Text) (gen : ℕ)
      → Step owner p g (queue summary gen p) (record g { last = some (summary, gen) })
  rolls_back :
      (w : World) (clean : Text)
      → Step owner p g (roll_back_to w owner clean p) (rolled w owner clean p g)
  looks : (i : ℕ) → lookup i p.workers ≡ some head → Step owner p g (look i p) g
  puts :
      (w : World) (i : ℕ) (r : Pending)
      → lookup i p.workers ≡ some (holding r)
      → Step owner p g
          (put_record w owner i r p)
          (note (upsert w.now w.save p.store owner r.summary r.generation).1 (key_of_record r) g)
  fails :
      (i : ℕ) (r : Pending)
      → lookup i p.workers ≡ some (failed r)
      → Step owner p g (count_retry i r p) g
  settles :
      (i : ℕ) (r : Pending)
      → lookup i p.workers ≡ some (stored r)
      → Step owner p g (settle_record i r p) g
  wakes :
      (i : ℕ) (by_context : Bool)
      → lookup i p.workers ≡ some sleeping
      → Step owner p g (wake_up i by_context p) g
  leaves : (i : ℕ) → lookup i p.workers ≡ some leaving → Step owner p g (leave_off i p) g
  cancels : Step owner p g (record p { canceled = true }) g
  elsewhere : (store : Store) → Step owner p g (record p { store = store }) g

pub data Reach (owner : Text) : Persistence → Log → Type 0 where
  begin : (store : Store) → Reach owner (idle store) empty_log
  later : {p q : Persistence} {g h : Log} → Reach owner p g → Step owner p g q h → Reach owner q h
