-- ===== src/GroupMemory/Save.antt =====
-- internal/memory/group_store.go: SaveGroupEntriesConditionallyContext, under a commit barrier.
use frost_agent.Prelude.{
  ℕ, suc, ◌==◌, Bool, true, not, ◌&&◌, Option, none, some, List, [], ◌∷◌, if◌then◌else◌,
}
use frost_agent.Text.{Text, is_empty, text_eq}
use frost_agent.Barrier.{Barrier}
use frost_agent.Barrier.Distillation.{is_valid, try_begin_commit, end_commit}
use frost_agent.GroupMemory.{
  MemoryEntry, BrainData, GroupStore, Disk, Failure, condition_failed, rewrite, canonical_owner,
  scope_group, group_owner_explicit, owner_group, source_manual,
}
use frost_agent.GroupMemory.Same.{is_same_group_memory, merge_memory_tags}

-- The fields that a save sets before it looks for the same memory.
unfoldable pub prepared : ℕ → Text → MemoryEntry → MemoryEntry
prepared now group_id e = record e {
  scope_type = scope_group;
  group_id = group_id;
  updated_at = now;
  created_at = if e.created_at == 0 then now else e.created_at;
  owner = if is_empty e.owner then group_owner_explicit else canonical_owner e.owner;
}

abbrev pub or_else : Text → Text → Text
or_else a b = if is_empty a then b else a

-- What becomes of a memory that is saved once more.
unfoldable pub absorbed : ℕ → MemoryEntry → MemoryEntry → MemoryEntry
absorbed now existing incoming =
    let moves =
      not (text_eq existing.source source_manual) && not (text_eq existing.owner incoming.owner) in
    record existing {
      owner = if moves then group_owner_explicit else existing.owner;
      owner_type = if moves then owner_group else existing.owner_type;
      source_message_id = or_else existing.source_message_id incoming.source_message_id;
      source_sender_id = or_else existing.source_sender_id incoming.source_sender_id;
      evidence = or_else existing.evidence incoming.evidence;
      summary = or_else existing.summary incoming.summary;
      tags = elim incoming.tags [
        | [] ↦ existing.tags
        | t ∷ ts ↦ merge_memory_tags existing.tags incoming.tags
      ];
      updated_at = now;
    }

-- The first memory that is the same takes the incoming one in; where there is none, it goes to the
-- end. The id is the one under which it is kept.
unfoldable pub place_entry : ℕ → Text → MemoryEntry → List MemoryEntry → List MemoryEntry × Text
unfolding absorbed
place_entry now fresh incoming [] =
    let id = or_else incoming.id fresh in (record incoming { id = id } ∷ [], id)
place_entry now fresh incoming (e ∷ es) =
    let (rest, id) = place_entry now fresh incoming es in
    if is_same_group_memory e incoming then (absorbed now e incoming ∷ es, e.id) else (e ∷ rest, id)

-- The loop over the incoming entries; `ids` are the generated ids, `n` how many were met before.
unfoldable pub place_all :
    ℕ → Text → (ℕ → Text) → ℕ → List MemoryEntry → List MemoryEntry → List MemoryEntry
unfolding place_entry prepared
place_all now group_id ids n [] entries = entries
place_all now group_id ids n (e ∷ es) entries =
    place_all now group_id ids (suc n) es
      (place_entry now (ids n) (prepared now group_id e) entries).0

-- What a save asks and finds while it runs: whether the context has no error and the validator says
-- yes, three times, and the barrier, which others may touch between the calls of its methods.
pub record Watch : Type 0 where
  pub first : Bool
  pub second : Bool
  pub third : Bool
  pub barrier : Option Barrier
  pub before_second : Barrier → Barrier
  pub before_third : Barrier → Barrier
  pub before_end : Barrier → Barrier

-- The changed brain, if both checks before the save succeed; without a barrier only theirs count.
unfoldable pub checked_change :
    Watch → Option Barrier → ℕ → (ℕ → Text) → Text → List MemoryEntry → BrainData → Option BrainData
unfolding place_all
checked_change w begun now ids group_id incoming brain =
    let stays : Bool = elim begun [
      | none ↦ true
      | some b ↦ is_valid (w.before_second b) && is_valid (w.before_third (w.before_second b))
    ] in
    if w.second && w.third && stays
    then some (record brain { entries = place_all now group_id ids 0 incoming brain.entries })
    else none

-- The save once the barrier, if any, has let it begin.
unfoldable pub save_begun :
    Watch
    → Option Barrier
    → Disk
    → ℕ
    → (ℕ → Text)
    → List MemoryEntry
    → GroupStore
    → GroupStore × Option Failure
unfolding checked_change rewrite
save_begun w begun d now ids incoming s =
    rewrite d (some condition_failed) (checked_change w begun now ids s.group_id incoming) s

-- SaveGroupEntriesConditionallyContext: the store, the barrier behind EndCommit, and the error.
unfoldable pub save_entries :
    Watch
    → Disk
    → ℕ
    → (ℕ → Text)
    → List MemoryEntry
    → GroupStore
    → GroupStore × (Option Barrier × Option Failure)
unfolding save_begun
save_entries w d now ids [] s = (s, (w.barrier, none))
save_entries w d now ids (e ∷ es) s =
    let unguarded = save_begun w none d now ids (e ∷ es) s in
    let guarded : Barrier → GroupStore × (Option Barrier × Option Failure) = λ b.
      let (b', ok) = try_begin_commit b in
      let (s', failed) = save_begun w (some b') d now ids (e ∷ es) s in
      if not ok
      then (s, (some b', some condition_failed))
      else (s', (some (end_commit (w.before_end (w.before_third (w.before_second b')))), failed)) in
    if not w.first
    then (s, (w.barrier, some condition_failed))
    else (elim w.barrier [ none ↦ (unguarded.0, (none, unguarded.1)) | some b ↦ guarded b ])
