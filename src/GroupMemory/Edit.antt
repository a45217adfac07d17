-- ===== src/GroupMemory/Edit.antt =====
-- internal/memory/group_store.go: the purge of a dropped message, the edits of memories, and reads.
use frost_agent.Prelude.{
  ℕ, suc, ◌==◌, ◌⊎◌, inl, inr, Bool, true, false, not, ◌&&◌, ◌||◌, Option, none, some, List, [],
  ◌∷◌, ◌++◌, any, keep, if◌then◌else◌,
}
use frost_agent.Text.{Text, is_empty, trim_space, text_eq, contains, index}
use frost_agent.GroupMemory.{
  MemoryEntry, MergeArchive, BrainData, GroupStore, Disk, Failure, not_found, disk_error, rewrite,
  load_memory, canonical_owner, owners_match, scope_group, group_owner_explicit, source_manual,
  source_extract, source_distill,
}

-- A memory that was distilled from the message.
unfoldable pub is_distilled_from : Text → MemoryEntry → Bool
is_distilled_from id e = text_eq e.source source_distill && text_eq e.source_message_id id

unfoldable pub purged : Text → BrainData → Option BrainData
unfolding is_distilled_from
purged id brain =
    if any (is_distilled_from id) brain.entries
    then some (record brain { entries = keep (λ e. not (is_distilled_from id e)) brain.entries })
    else none

-- PurgeDistilledEntries
unfoldable pub purge_distilled_entries : Disk → Text → GroupStore → GroupStore × Option Failure
unfolding purged
purge_distilled_entries d message_id s =
    let id = trim_space message_id in
    if is_empty id then (s, none) else rewrite d none (purged id) s

-- The entries without the first that has the id, if one has it.
unfoldable pub without_first : Text → List MemoryEntry → Option (List MemoryEntry)
without_first id [] = none
without_first id (e ∷ es) =
    let rest : Option (List MemoryEntry) = elim (without_first id es) [
      | none ↦ none
      | some r ↦ some (e ∷ r)
    ] in
    if text_eq e.id id then some es else rest

-- Delete
unfoldable pub delete_entry : Disk → Text → GroupStore → GroupStore × Option Failure
unfolding without_first
delete_entry d id s =
    rewrite d (some not_found)
      (λ brain. elim (without_first id brain.entries) [
        | none ↦ none
        | some es ↦ some (record brain { entries = es })
      ])
      s

-- A memory with the fields of an edit; an edited text counts as written by hand.
unfoldable pub edited : Bool → ℕ → MemoryEntry → MemoryEntry → MemoryEntry
edited refresh now update e =
    let e' = if text_eq e.content update.content then e else record e {
      summary = if refresh then [] else e.summary;
      summary_needs_refresh = true;
      content = update.content;
      source =
          if text_eq e.source source_extract || text_eq e.source source_distill
          then source_manual
          else e.source;
    } in
    record e' { tags = update.tags; updated_at = now }

unfoldable pub edit_first : Bool → ℕ → MemoryEntry → List MemoryEntry → Option (List MemoryEntry)
unfolding edited
edit_first refresh now update [] = none
edit_first refresh now update (e ∷ es) =
    let rest : Option (List MemoryEntry) = elim (edit_first refresh now update es) [
      | none ↦ none
      | some r ↦ some (e ∷ r)
    ] in
    if text_eq e.id update.id then some (edited refresh now update e ∷ es) else rest

-- UpdateEntry
unfoldable pub update_entry : Disk → ℕ → MemoryEntry → GroupStore → GroupStore × Option Failure
unfolding edit_first
update_entry d now update s =
    rewrite d (some not_found)
      (λ brain. elim (edit_first s.refresh_edited_summaries now update brain.entries) [
        | none ↦ none
        | some es ↦ some (record brain { entries = es })
      ])
      s

unfoldable pub recalled : ℕ → List Text → List MemoryEntry → List MemoryEntry
recalled now ids [] = []
recalled now ids (e ∷ es) =
    let e' = record e { access_count = suc e.access_count; updated_at = now } in
    (if contains ids e.id then e' else e) ∷ recalled now ids es

-- IncrementAccessCount
unfoldable pub increment_access_count :
    Disk → ℕ → List Text → GroupStore → GroupStore × Option Failure
unfolding recalled
increment_access_count d now given s =
    let ids = keep (λ id. not (is_empty id)) given in
    rewrite d none
      (λ brain.
        if any (λ e. contains ids e.id) brain.entries
        then some (record brain { entries = recalled now ids brain.entries })
        else none)
      s

-- SaveMergeArchive
unfoldable pub save_merge_archive : Disk → MergeArchive → GroupStore → GroupStore × Option Failure
save_merge_archive d archive s =
    rewrite d none
      (λ brain. some (record brain { merge_archives = brain.merge_archives ++ archive ∷ [] })) s

-- An imported memory with the fields that ImportData sets.
unfoldable pub adopted : ℕ → Text → MemoryEntry → MemoryEntry
adopted now group_id e = record e {
  scope_type = scope_group;
  group_id = group_id;
  owner = if is_empty e.owner then group_owner_explicit else canonical_owner e.owner;
  created_at = if e.created_at == 0 then now else e.created_at;
  updated_at = now;
}

-- The last entry with the id is replaced, since the map of ImportData has the last place of an id.
unfoldable pub replace_last : MemoryEntry → List MemoryEntry → Option (List MemoryEntry)
replace_last new [] = none
replace_last new (e ∷ es) = elim (replace_last new es) [
  | some r ↦ some (e ∷ r)
  | none ↦ if text_eq e.id new.id then some (new ∷ es) else none
]

-- The loop of ImportData, with the numbers of the imported and the skipped.
unfoldable pub import_all :
    ℕ → Text → Bool → List MemoryEntry → List MemoryEntry → (ℕ × ℕ) → List MemoryEntry × (ℕ × ℕ)
unfolding adopted replace_last
import_all now group_id overwrite [] entries (imported, skipped) = (entries, (imported, skipped))
import_all now group_id overwrite (given ∷ rest) entries (imported, skipped) =
    let e = adopted now group_id given in
    let found = any (λ k. text_eq k.id e.id) entries in
    let replaced : List MemoryEntry = elim (replace_last e entries) [
      | none ↦ entries
      | some es ↦ es
    ] in
    import_all now group_id overwrite rest
      (if found then (if overwrite then replaced else entries) else entries ++ e ∷ [])
      (if found && not overwrite then (imported, suc skipped) else (suc imported, skipped))

-- ImportData: the numbers of the imported and the skipped, or an error.
unfoldable pub import_data :
    Disk → ℕ → Bool → List MemoryEntry → GroupStore → GroupStore × (Failure ⊎ (ℕ × ℕ))
unfolding import_all
import_data d now overwrite given s =
    let (es, counts) = import_all now s.group_id overwrite given (load_memory s).entries (0, 0) in
    let (s', failed) = rewrite d none (λ brain. some (record brain { entries = es })) s in
    (s', elim failed [ some e ↦ inl e | none ↦ inr counts ])

-- matchEntry; `lower` is strings.ToLower.
unfoldable pub match_entry : (Text → Text) → Text → MemoryEntry → Bool
match_entry lower query e =
    let found =
      λ (t : Text). elim (index query (lower t)) as (λ o. Bool) [ none ↦ false | some n ↦ true ] in
    found e.content || any found e.tags

-- The first of the matches, as many as `limit` says if it is above 0.
unfoldable pub search_all : (MemoryEntry → Bool) → ℕ → ℕ → List MemoryEntry → List MemoryEntry
search_all matches limit n [] = []
search_all matches limit n (e ∷ es) =
    let n' = if matches e then suc n else n in
    let rest = search_all matches limit n' es in
    if not (matches e) then rest else (if limit == n' then e ∷ [] else e ∷ rest)

-- Search
unfoldable pub search_entries :
    (Text → Text) → Disk → Text → ℕ → GroupStore → Failure ⊎ List MemoryEntry
unfolding search_all
search_entries lower d query limit s = elim d.load_fails [
  | some e ↦ inl (disk_error e)
  | none ↦ inr (search_all (match_entry lower (lower query)) limit 0 (load_memory s).entries)
]

-- ListByOwner
unfoldable pub list_by_owner : Disk → Text → GroupStore → Failure ⊎ List MemoryEntry
list_by_owner d owner s = elim d.load_fails [
  | some e ↦ inl (disk_error e)
  | none ↦ inr (keep (λ e. owners_match e.owner owner) (load_memory s).entries)
]

unfoldable pub first_with : Text → List MemoryEntry → Failure ⊎ MemoryEntry
first_with id [] = inl not_found
first_with id (e ∷ es) = let rest = first_with id es in if text_eq e.id id then inr e else rest

-- GetByID
unfoldable pub get_by_id : Disk → Text → GroupStore → Failure ⊎ MemoryEntry
get_by_id d id s = elim d.load_fails [
  | some e ↦ inl (disk_error e)
  | none ↦ first_with id (load_memory s).entries
]
