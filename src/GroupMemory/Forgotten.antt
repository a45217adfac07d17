-- ===== src/GroupMemory/Forgotten.antt =====
-- Once a message is dropped and its memories are purged, no distilled memory of it comes back.
pub mod Kept
pub mod Saved
use frost_agent.Prelude.{
  ℕ, ◌≡◌, refl, sym, ap, ◌∙◌, subst, ◌⊎◌, inl, inr, Bool, true, false, not, ◌&&◌, ◌||◌, Option,
  none, some, List, [], ◌∷◌, ◌++◌, map, any, keep, All, lookup, ◌==◌, if◌then◌else◌, arith,
  Bool-cases, Option-cases, some_injective,
}
use frost_agent.Text.{Text, is_empty, trim_space, text_eq, text_eq_iff, contains}
use frost_agent.Barrier.{Barrier}
use frost_agent.Barrier.Distillation.{try_begin_commit}
use frost_agent.GroupCompact.State.{GroupState, Snapshot, Distillation}
use frost_agent.GroupCompact.Compact.{abort_and_wait}
use frost_agent.GroupCompact.Revoke.{drop_message_checked}
use frost_agent.GroupCompact.Distill.{begin_distillation, is_refused, dead_barrier}
use frost_agent.GroupCompact.Ops.{Quiet, quiet_run}
use frost_agent.GroupCompact.Revoked.{IsAffected, drop_aborts, dropped_never_distilled}
use frost_agent.GroupMemory.{MemoryEntry, MergeArchive, GroupStore, Disk, Failure}
use frost_agent.GroupMemory.Save.{Watch, save_entries}
use frost_agent.GroupMemory.Edit.{
  is_distilled_from, purge_distilled_entries, delete_entry, update_entry, increment_access_count,
  save_merge_archive, import_data,
}
use frost_agent.GroupMemory.Merging.{Merge}
use frost_agent.GroupMemory.Reflect.{apply_reflection}
use frost_agent.GroupMemory.Forgotten.Kept.{
  Unrelated, Clean, purge-Clean, purge_any-Clean, delete-Clean, update-Clean, increment-Clean,
  archive-Clean,
}
use frost_agent.GroupMemory.Forgotten.Saved.{
  refused_save, save-Clean, import-Clean, reflection-Clean,
}

-- Where the barrier of a distillation comes from, and the ids of the messages of its batch: it began
-- behind the drop and calls that drop and reset nothing, or it was registered when the message was
-- dropped. `s` is the session before the
-- drop and `t` the one behind it.
pub data Origin (id : Text) (s t : GroupState) : Barrier → List Text → Type 0 where
  late :
      (qs : List (ℕ × Quiet)) (snap : Snapshot)
      → Origin id s t (begin_distillation snap (quiet_run qs t)).1.1 snap.message_ids
  early :
      (k : ℕ) (d e : Distillation)
      → any (λ j. j == k) s.registered ≡ true
      → lookup k s.distillations ≡ some d
      → lookup k t.distillations ≡ some e
      → Origin id s t e.barrier d.snapshot.message_ids

-- Every memory names a message of the batch.
abbrev pub Grounded : List Text → List MemoryEntry → Type 0
Grounded ids es = All (λ e. contains ids e.source_message_id ≡ true) es

-- What may happen to the memories behind the drop.
pub data Step (id : Text) (s t : GroupState) : GroupStore → GroupStore → Type 0 where
  distills :
      (m : GroupStore) (w : Watch) (b : Barrier) (ids : List Text) (d : Disk) (now : ℕ)
      (fresh : ℕ → Text) (es : List MemoryEntry)
      → w.barrier ≡ some b
      → Origin id s t b ids
      → Grounded ids es
      → Step id s t m (save_entries w d now fresh es m).0
  saves :
      (m : GroupStore) (w : Watch) (d : Disk) (now : ℕ) (fresh : ℕ → Text) (es : List MemoryEntry)
      → Unrelated id es
      → Step id s t m (save_entries w d now fresh es m).0
  deletes : (m : GroupStore) (d : Disk) (k : Text) → Step id s t m (delete_entry d k m).0
  updates :
      (m : GroupStore) (d : Disk) (now : ℕ) (e : MemoryEntry)
      → Step id s t m (update_entry d now e m).0
  recalls :
      (m : GroupStore) (d : Disk) (now : ℕ) (ids : List Text)
      → Step id s t m (increment_access_count d now ids m).0
  archives :
      (m : GroupStore) (d : Disk) (a : MergeArchive) → Step id s t m (save_merge_archive d a m).0
  imports :
      (m : GroupStore) (d : Disk) (now : ℕ) (overwrite : Bool) (es : List MemoryEntry)
      → All (λ e. is_distilled_from id e ≡ false) es
      → Step id s t m (import_data d now overwrite es m).0
  reflects :
      (m : GroupStore) (fresh : List Text → Text) (d : Disk) (now : ℕ) (merges : List Merge)
      (outdated : List Text) (snapshots : Option (Text → Option MemoryEntry))
      → Step id s t m (apply_reflection fresh d now merges outdated snapshots m).0
  purges : (m : GroupStore) (d : Disk) (k : Text) → Step id s t m (purge_distilled_entries d k m).0

pub data Reach (id : Text) (s t : GroupState) (m : GroupStore) : GroupStore → Type 0 where
  here : Reach id s t m m
  later : (n k : GroupStore) → Reach id s t m n → Step id s t n k → Reach id s t m k

refusal-dead :
    (snap : Snapshot) (s : GroupState)
    → (begin_distillation snap s).1.0 ≡ none
    → (begin_distillation snap s).1.1 ≡ dead_barrier
unfolding begin_distillation
refusal-dead snap s e = elim (Bool-cases (is_refused snap s)) [
  | inl refused ↦ rw refused refl
  | inr begun ↦ absurd (ground (arith, rw (begun, begin_distillation) at e))
]

begins_dead : (try_begin_commit dead_barrier).1 ≡ false
unfolding try_begin_commit
begins_dead = refl

-- No memory of a batch without the message names the message.
elsewhere :
    (id : Text) (ids : List Text) (es : List MemoryEntry)
    → contains ids id ≡ false
    → Grounded ids es
    → Unrelated id es
elsewhere id ids [] out g = tt
elsewhere id ids (e ∷ es) out g =
    let differs : text_eq e.source_message_id id ≡ false =
      elim (Bool-cases (text_eq e.source_message_id id)) [
        | inr other ↦ other
        | inl same ↦ absurd (
            ground (
              arith,
              out,
              subst (λ k. contains ids k ≡ true) ((text_eq_iff e.source_message_id id).0 same) g.0,
            ))
      ] in
    (differs, elsewhere id ids es out g.1)

Clean-any :
    (id : Text) (es : List MemoryEntry)
    → All (λ e. is_distilled_from id e ≡ false) es
    → any (is_distilled_from id) es ≡ false
Clean-any id [] v = refl
Clean-any id (e ∷ es) v = ground (arith, v.0, Clean-any id es v.1)

module _ (now : ℕ) (purge : Option (Text → Option Text)) (message_id : Text) (s : GroupState)
    (named : is_empty (trim_space message_id) ≡ false) where
  abbrev dropped : GroupState
  dropped = (drop_message_checked now purge message_id s).0

  -- A barrier of a batch with the message lets nothing begin.
  Origin-refuses :
      (b : Barrier) (ids : List Text)
      → Origin (trim_space message_id) s dropped b ids
      → contains ids (trim_space message_id) ≡ true
      → (try_begin_commit b).1 ≡ false
  Origin-refuses _ _ (late qs snap) held =
      subst (λ b. (try_begin_commit b).1 ≡ false)
        (sym (
          refusal-dead snap (quiet_run qs dropped)
            (dropped_never_distilled now purge message_id s named qs snap held)))
        begins_dead
  Origin-refuses _ _ (early k d e r before behind) held =
      let facts = drop_aborts now purge message_id s named k d (r, before, held) in
      subst (λ (x : Distillation). (try_begin_commit x.barrier).1 ≡ false)
        (some_injective (sym facts.0 ∙ behind)) facts.2

  step-Clean :
      (n k : GroupStore)
      → Step (trim_space message_id) s dropped n k
      → Clean (trim_space message_id) n
      → Clean (trim_space message_id) k
  step-Clean _ _ (distills m w b ids d at fresh es there from grounded) v =
      let id = trim_space message_id in
      elim (Bool-cases (contains ids id)) [
        | inr out ↦ save-Clean id w d at fresh es m (elsewhere id ids es out grounded) v
        | inl held ↦
            subst (Clean id)
              (sym (refused_save w b d at fresh es m there (Origin-refuses b ids from held))) v
      ]
  step-Clean _ _ (saves m w d at fresh es h) v =
      save-Clean (trim_space message_id) w d at fresh es m h v
  step-Clean _ _ (deletes m d k) v = delete-Clean (trim_space message_id) d k m v
  step-Clean _ _ (updates m d at e) v = update-Clean (trim_space message_id) d at e m v
  step-Clean _ _ (recalls m d at ids) v = increment-Clean (trim_space message_id) d at ids m v
  step-Clean _ _ (archives m d a) v = archive-Clean (trim_space message_id) d a m v
  step-Clean _ _ (imports m d at overwrite es h) v =
      import-Clean (trim_space message_id) d at overwrite es m h v
  step-Clean _ _ (reflects m fresh d at merges outdated snapshots) v =
      reflection-Clean (trim_space message_id) fresh d at merges outdated snapshots m v
  step-Clean _ _ (purges m d k) v = purge_any-Clean (trim_space message_id) d k m v

  reach-Clean :
      (m n : GroupStore)
      → Reach (trim_space message_id) s dropped m n
      → Clean (trim_space message_id) m
      → Clean (trim_space message_id) n
  reach-Clean m _ here v = v
  reach-Clean m _ (later n k before step) v = step-Clean n k step (reach-Clean m n before v)

  -- A message is dropped by an id that is not blank, and a purge of it then makes no error. Whatever
  -- is saved, deleted, edited, recalled, archived, imported, reflected on and purged after that,
  -- the group's store holds no memory that was distilled from the message. A distillation that saves
  -- was registered when the message was dropped, or it begins behind the drop and behind further calls
  -- of the session that drop and reset nothing; a reset forgets which messages were dropped, so a
  -- distillation behind one is not covered. A distillation's memories name messages of its batch;
  -- other saves do not name the message, and an import has no memory distilled from it. A memory that a reflection has merged no longer counts as distilled.
  pub dropped_stays_forgotten :
      (d : Disk) (m n : GroupStore)
      → (purge_distilled_entries d message_id m).1 ≡ none
      → Reach (trim_space message_id) s dropped (purge_distilled_entries d message_id m).0 n
      → any (is_distilled_from (trim_space message_id)) n.brain.entries ≡ false
  dropped_stays_forgotten d m n fine reach = Clean-any (trim_space message_id) n.brain.entries (
      reach-Clean (purge_distilled_entries d message_id m).0 n reach
        (purge-Clean d message_id m named fine))
