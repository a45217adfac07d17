-- ===== src/GroupCompact/Guard.antt =====
-- internal/llm/session.go: StagedGroupCompactGuard.
use frost_agent.Prelude.{
  ℕ, Bool, true, false, ◌||◌, Option, none, some, List, [], ◌∷◌, ◌++◌, ℤ, ◌==◌, if◌then◌else◌, any,
  get_or,
}
use frost_agent.Text.{Text, is_empty, trim_space}
use frost_agent.GroupCompact.Message.{first_id}
use frost_agent.GroupCompact.State.{GroupState}
use frost_agent.GroupCompact.Ingest.{Item, append_internal, promote_slot, describe}
use frost_agent.GroupCompact.Revoke.{drop_slot_checked}

pub record Guard : Type 0 where
  pub sequences : List ℕ
  pub message_id : Text
  pub sender_id : Text
  pub finalized : Bool

-- NewStagedGroupCompactGuard
unfoldable pub new_guard : ℕ → Text → Text → Guard
new_guard seq message_id sender_id = record {
  sequences = if seq == 0 then [] else seq ∷ [];
  message_id = trim_space message_id;
  sender_id = trim_space sender_id;
  finalized = false;
}

-- Sequence
abbrev pub guard_sequence : Guard → ℕ
guard_sequence g = get_or g.sequences 0 0

-- AddSequence
unfoldable pub add_sequence : ℕ → Guard → Guard
add_sequence seq g =
    if seq == 0 || any (λ k. k == seq) g.sequences
    then g
    else record g { sequences = g.sequences ++ seq ∷ [] }

-- StageGroupCompactWithGuard
unfoldable pub stage_with_guard :
    ℕ → Item → ℤ → Text → List Text → GroupState → GroupState × (Guard × ℕ)
unfolding new_guard
stage_with_guard now item max sender_id ids s =
    let id = first_id ids in
    let (s', (seq, n)) = append_internal now item true max (id ∷ []) s in
    (s', (new_guard seq id sender_id, n))

-- The loop of Promote over the guard's slots.
unfoldable pub promote_all : ℕ → Text → List ℕ → GroupState → GroupState × Bool
promote_all now id [] s = (s, false)
promote_all now id (seq ∷ seqs) s =
    let (s1, hit) = promote_slot now seq id s in
    let (s2, hits) = promote_all now id seqs s1 in (s2, hit || hits)

-- What a call of a guard's method leaves and answers.
pub record Finalized : Type 0 where
  pub guard : Guard
  pub state : GroupState
  pub hit : Bool
  pub notified : Bool  -- onPromote was called
  pub errors : List Text

-- Promote, and Done
unfoldable pub guard_promote : ℕ → Guard → GroupState → Finalized
guard_promote now g s =
    let (s', hit) = promote_all now g.message_id g.sequences s in
    if g.finalized
    then record { guard = g; state = s; hit = false; notified = false; errors = [] }
    else record {
      guard = record g { finalized = true };
      state = s';
      hit = hit;
      notified = true;
      errors = [];
    }

abbrev error_list : Option Text → List Text
error_list none = []
error_list (some err) = err ∷ []

-- The loop of DropChecked: the message id goes with the last slot.
unfoldable pub drop_all :
    ℕ → Option (Text → Option Text) → Text → List ℕ → GroupState → GroupState × (Bool × List Text)
drop_all now store id [] s = (s, (false, []))
drop_all now store id (seq ∷ seqs) s =
    let (s1, (hit, err)) =
      drop_slot_checked now store seq (elim seqs [ [] ↦ id | k ∷ ks ↦ [] ]) s in
    let (s2, (hits, errs)) = drop_all now store id seqs s1 in
    (s2, (hit || hits, error_list err ++ errs))

drop_slots :
    ℕ → Option (Text → Option Text) → Text → List ℕ → GroupState → GroupState × (Bool × List Text)
unfolding drop_all
drop_slots now store id [] s =
    let (s', (hit, err)) = drop_slot_checked now store 0 id s in (s', (hit, error_list err))
drop_slots now store id (seq ∷ seqs) s = drop_all now store id (seq ∷ seqs) s

-- DropChecked
unfoldable pub guard_drop : ℕ → Option (Text → Option Text) → Guard → GroupState → Finalized
unfolding drop_slots
guard_drop now store g s =
    let (s', (hit, errs)) = drop_slots now store g.message_id g.sequences s in
    if g.finalized
    then record { guard = g; state = s; hit = false; notified = false; errors = [] }
    else record {
      guard = record g { finalized = true };
      state = s';
      hit = hit;
      notified = false;
      errors = errs;
    }

-- SetImageDescription
unfoldable pub set_image_description : Text → Guard → GroupState → GroupState × Bool
set_image_description description g s =
    let seq = guard_sequence g in
    if seq == 0 || (is_empty description || g.finalized)
    then (s, false)
    else (elim (describe seq description s.buffer) [
      | none ↦ (s, false)
      | some buffer ↦ (record s { buffer = buffer }, true)
    ])
