-- ===== src/Persistence.antt =====
-- internal/llm/group_compactor.go: how a new group summary gets to the summary store, for one owner
-- and a store that is a file. A worker is named by a number; the channel that wakes a sleeping worker
-- is not here, since its sleep may end at any time.
pub mod Log
pub mod Races
use frost_agent.Prelude.{
  ℕ, suc, ◌+◌, ◌==◌, ◌⊎◌, inl, inr, Bool, true, false, ◌&&◌, Option, none, some, List, [], ◌∷◌,
  if◌then◌else◌, lookup, delete, adjust,
}
use frost_agent.Text.{Text, is_empty, trim_space, text_eq}
use frost_agent.Summaries.{Records, Failure, Store, generation, upsert, delete_summary}

-- pendingPersistRecord
pub record Pending : Type 0 where
  pub summary : Text
  pub generation : ℕ
  pub retries : ℕ

-- Where a persistWorker stands.
pub data Place : Type 0 where
  head : Place  -- before it looks for a record
  holding : Pending → Place  -- before Upsert
  failed : Pending → Place  -- Upsert made an error
  stored : Pending → Place  -- Upsert made none
  sleeping : Place
  leaving : Place  -- before the deferred function

pub record Persistence : Type 0 where
  pub pending : Option Pending  -- pendingPersist[owner]
  pub active : Bool  -- persistActive[owner]
  pub workers : List (ℕ × Place)
  pub next : ℕ  -- a worker that is not used yet
  pub store : Store
  pub canceled : Bool  -- c.Context().Err() != nil

abbrev pub idle : Store → Persistence
idle store = record {
  pending = none;
  active = false;
  workers = [];
  next = 0;
  store = store;
  canceled = false;
}

-- What the surroundings do in one call of the store.
pub record World : Type 0 where
  pub now : ℕ
  pub save : Records → List (Text × ℕ) → Option Failure

abbrev pub fresh_record : Text → ℕ → Pending
fresh_record summary gen = record { summary = summary; generation = gen; retries = 0 }

-- `cur.summary == rec.summary && cur.storeGeneration == rec.storeGeneration`
abbrev pub same_record : Pending → Pending → Bool
same_record a b = text_eq a.summary b.summary && a.generation == b.generation

-- c.Go, which takes no work once the context is canceled
unfoldable pub launch : Persistence → Persistence
launch p =
    if p.canceled
    then record p { active = true }
    else record p { active = true; workers = (p.next, head) ∷ p.workers; next = suc p.next }

-- queuePersistence
unfoldable pub queue : Text → ℕ → Persistence → Persistence
unfolding launch
queue summary gen p =
    let p' = record p { pending = some (fresh_record summary gen) } in
    if p.active then p' else launch p'

-- RollbackPersistence
unfoldable pub roll_back_to : World → Text → Text → Persistence → Persistence
unfolding launch
roll_back_to w owner clean_summary p =
    let clean = trim_space clean_summary in
    let gen = generation p.store owner in
    let p' = record p { pending = some (fresh_record clean gen) } in
    let (store, answer) = upsert w.now w.save p.store owner clean gen in
    if is_empty clean
    then record p { pending = none; store = (delete_summary w.save p.store owner).0 }
    else (if p.active then p' else (elim answer [
      | inr applied ↦ record p { pending = none; store = store }
      | inl e ↦ launch (record p' { store = store })
    ]))

abbrev pub move_to : ℕ → Place → Persistence → Persistence
move_to i place p = record p { workers = adjust i (λ old. place) p.workers }

-- The head of the loop of persistWorker.
unfoldable pub look : ℕ → Persistence → Persistence
look i p =
    let onward : Persistence = elim p.pending [
      | none ↦ move_to i leaving p
      | some r ↦ move_to i (holding r) p
    ] in
    if p.canceled then move_to i leaving p else onward

-- Its call of Upsert.
unfoldable pub put_record : World → Text → ℕ → Pending → Persistence → Persistence
put_record w owner i r p =
    let (store, answer) = upsert w.now w.save p.store owner r.summary r.generation in
    let p' = record p { store = store } in
    elim answer [ inl e ↦ move_to i (failed r) p' | inr applied ↦ move_to i (stored r) p' ]

-- What follows an error of Upsert.
unfoldable pub count_retry : ℕ → Pending → Persistence → Persistence
count_retry i r p = elim p.pending [
  | none ↦ record (move_to i leaving p) { active = false }
  | some cur ↦
      let cur' = if same_record cur r then record cur { retries = cur.retries + 1 } else cur in
      record (move_to i sleeping p) { pending = some cur' }
]

-- What follows an Upsert without an error.
unfoldable pub settle_record : ℕ → Pending → Persistence → Persistence
settle_record i r p =
    let left : Option Pending = elim p.pending [
      | none ↦ none
      | some cur ↦ if same_record cur r then none else some cur
    ] in
    record (move_to i head p) { pending = left }

-- The end of a sleep: the timer or the channel, or the canceled context.
unfoldable pub wake_up : ℕ → Bool → Persistence → Persistence
wake_up i by_context p = move_to i (if by_context then leaving else head) p

-- The deferred function.
unfoldable pub leave_off : ℕ → Persistence → Persistence
leave_off i p = record p { active = false; workers = delete i p.workers }

-- calculatePersistRetryDelay, in milliseconds
unfoldable pub retry_delay : ℕ → ℕ
retry_delay n =
    if n == 1
    then 50
    else if n == 2
    then 150
    else if n == 3
    then 500
    else if n == 4
    then 1000
    else 2000
