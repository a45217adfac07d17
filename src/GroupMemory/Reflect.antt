-- ===== src/GroupMemory/Reflect.antt =====
-- internal/memory/group_store.go and store.go: applyReflectionWithMerges, which merges and deletes
-- memories after a reflection.
pub mod Lossless
use frost_agent.Prelude.{
  ℕ, ◌+◌, ◌==◌, ◌⊎◌, inl, inr, Bool, true, false, not, ◌&&◌, ◌||◌, Option, none, some, List, [],
  ◌∷◌, ◌++◌, map, any, keep, length, ltb, max, if◌then◌else◌,
}
use frost_agent.Text.{Text, codes, is_empty, trim_space, text_eq, text_ltb, contains}
use frost_agent.GroupMemory.{
  MemoryEntry, MergeArchive, BrainData, GroupStore, Disk, Failure, rewrite, load_memory,
  owners_match, scope_group, group_owner_explicit, source_reflect,
}
use frost_agent.GroupMemory.Merging.{Merge, Merged, same_merge_source, merge_all}

-- A source of one of the merges.
unfoldable pub is_named : List Merge → Text → Bool
is_named merges id = any (λ m. any (λ e. text_eq e.id id) m.sources) merges

-- The entry is as the snapshots have it; without snapshots, every entry is.
unfoldable pub is_unchanged : Option (Text → Option MemoryEntry) → MemoryEntry → Bool
unfolding same_merge_source
is_unchanged none e = true
is_unchanged (some snapshots) e = elim (snapshots e.id) [
  | none ↦ false
  | some snapshot ↦ same_merge_source e snapshot
]

-- An entry that leaves as outdated, if no merge consumes it.
unfoldable pub expires :
    List Text → List Merge → Option (Text → Option MemoryEntry) → MemoryEntry → Bool
unfolding is_named is_unchanged
expires outdated merges snapshots e =
    contains outdated e.id && not (is_named merges e.id) && is_unchanged snapshots e

-- reflectionApplyResult
pub record ReflectionApplyResult : Type 0 where
  pub remaining : List MemoryEntry
  pub removed_ids : List Text
  pub outdated_ids : List Text
  pub merged_entries : List MemoryEntry
  pub merged_source_count : ℕ

unfoldable pub source_count : List MergeArchive → ℕ
source_count [] = 0
source_count (a ∷ rest) = length a.sources + source_count rest

-- What the merges make of the entries of the brain.
unfoldable pub merge_brain : (List Text → Text) → Text → ℕ → List Merge → List MemoryEntry → Merged
unfolding merge_all
merge_brain fresh_id group_id now merges entries =
    merge_all fresh_id group_id now entries merges (record {
      existing_ids = map (λ e. e.id) entries;
      consumed = [];
      entries = [];
      archives = [];
    })

-- The entries that neither a merge consumes nor the reflection calls outdated, then the merged ones.
unfoldable pub surviving :
    List Text
    → List Merge
    → Option (Text → Option MemoryEntry)
    → Merged
    → List MemoryEntry
    → List MemoryEntry
unfolding expires
surviving outdated merges snapshots r entries =
    keep (λ e. not (contains r.consumed e.id) && not (expires outdated merges snapshots e)) entries
    ++ r.entries

-- applyReflectionWithMerges
unfoldable pub apply_reflection :
    (List Text → Text)
    → Disk
    → ℕ
    → List Merge
    → List Text
    → Option (Text → Option MemoryEntry)
    → GroupStore
    → GroupStore × (Failure ⊎ ReflectionApplyResult)
unfolding merge_brain surviving expires source_count
apply_reflection fresh_id d now merges outdated snapshots s =
    let entries = (load_memory s).entries in
    let r = merge_brain fresh_id s.group_id now merges entries in
    let remaining = surviving outdated merges snapshots r entries in
    let leaves =
      λ (e : MemoryEntry). contains r.consumed e.id || expires outdated merges snapshots e in
    let old =
      λ (e : MemoryEntry). not (contains r.consumed e.id) && expires outdated merges snapshots e in
    let (s', failed) =
      rewrite d none
        (λ brain.
          some
            (record { entries = remaining; merge_archives = brain.merge_archives ++ r.archives }))
        s in
    (
      s',
      elim failed [
        | some e ↦ inl e
        | none ↦ inr (record {
          remaining = remaining;
          removed_ids = map (λ e. e.id) (keep leaves entries);
          outdated_ids = map (λ e. e.id) (keep old entries);
          merged_entries = r.entries;
          merged_source_count = source_count r.archives;
        })
      ],
    )
