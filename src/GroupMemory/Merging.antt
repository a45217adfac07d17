-- ===== src/GroupMemory/Merging.antt =====
-- internal/memory/group_store.go, store.go and reflector.go: the merges of applyReflectionWithMerges.
use frost_agent.Prelude.{
  ℕ, ◌==◌, Bool, true, false, not, ◌&&◌, ◌||◌, Option, none, some, List, [], ◌∷◌, ◌++◌, map, any,
  length, ltb, max, if◌then◌else◌,
}
use frost_agent.Text.{Text, codes, is_empty, trim_space, text_eq, text_ltb, contains}
use frost_agent.GroupMemory.{
  MemoryEntry, MergeArchive, owners_match, scope_group, group_owner_explicit, source_reflect,
}

-- validatedMerge
pub record Merge : Type 0 where
  pub sources : List MemoryEntry
  pub content : Text
  pub tags : List Text

abbrev pub max_merge_sources : ℕ
max_merge_sources = 8

abbrev pub max_merged_content : ℕ
max_merged_content = 1200

abbrev pub max_merged_tags : ℕ
max_merged_tags = 8

abbrev pub source_media_image : Text
source_media_image = codes "image"

abbrev pub visibility_private : Text
visibility_private = codes "private"

abbrev pub visibility_public : Text
visibility_public = codes "public"

-- slices.Equal on strings
unfoldable pub texts_eq : List Text → List Text → Bool
texts_eq [] [] = true
texts_eq [] (b ∷ bs) = false
texts_eq (a ∷ rest) [] = false
texts_eq (a ∷ rest) (b ∷ bs) = text_eq a b && texts_eq rest bs

-- sameMergeSource
unfoldable pub same_merge_source : MemoryEntry → MemoryEntry → Bool
unfolding texts_eq
same_merge_source current snapshot =
    text_eq current.id snapshot.id
    && owners_match current.owner snapshot.owner
    && text_eq current.content snapshot.content
    && texts_eq current.tags snapshot.tags
    && text_eq current.source snapshot.source
    && text_eq current.source_media snapshot.source_media
    && text_eq current.visibility snapshot.visibility
    && (current.created_at == snapshot.created_at)
    && (current.updated_at == snapshot.updated_at)
    && (current.access_count == snapshot.access_count)
    && texts_eq current.merged_from snapshot.merged_from

insert_text : Text → List Text → List Text
insert_text t [] = t ∷ []
insert_text t (u ∷ us) =
    let rest = insert_text t us in if text_ltb u t then u ∷ rest else t ∷ u ∷ us

-- sort.Strings
unfoldable pub sorted_texts : List Text → List Text
unfolding insert_text
sorted_texts [] = []
sorted_texts (t ∷ ts) = insert_text t (sorted_texts ts)

unfoldable pub highest_access : List MemoryEntry → ℕ
highest_access [] = 0
highest_access (e ∷ es) = max e.access_count (highest_access es)

-- buildMergedEntry, and the fields that are set behind it
unfoldable pub merged_entry : Text → Text → Text → Merge → List MemoryEntry → ℕ → MemoryEntry
unfolding highest_access sorted_texts
merged_entry id group_id owner merge sources now = record {
  id = id;
  owner = owner;
  owner_type = [];
  scope_type = scope_group;
  group_id = group_id;
  content = merge.content;
  summary_needs_refresh = false;
  summary = [];
  evidence = [];
  source_media =
      if any (λ e. text_eq e.source_media source_media_image) sources
      then source_media_image
      else [];
  source_message_id = [];
  source_sender_id = [];
  tags = merge.tags;
  source = source_reflect;
  visibility =
      if any (λ e. not (text_eq e.visibility visibility_public)) sources
      then visibility_private
      else visibility_public;
  created_at = now;
  updated_at = now;
  access_count = highest_access sources;
  merged_from = sorted_texts (map (λ e. e.id) sources);
}

-- The tests on the form of a merge.
unfoldable pub is_well_formed : Merge → Bool
is_well_formed merge =
    let n = length merge.sources in
    let tags = length merge.tags in
    not (
      ltb n 2
      || ltb max_merge_sources n
      || is_empty (trim_space merge.content)
      || ltb max_merged_content (length merge.content)
      || (tags == 0)
      || ltb max_merged_tags tags)

-- currentByID; the last entry with an id has its place.
unfoldable pub current_by_id : Text → List MemoryEntry → Option MemoryEntry
current_by_id id [] = none
current_by_id id (e ∷ es) = elim (current_by_id id es) [
  | some k ↦ some k
  | none ↦ if text_eq e.id id then some e else none
]

-- The current memories for the snapshots of a merge, unless one is missing, changed, or taken already.
unfoldable pub current_sources :
    List MemoryEntry → List Text → List Text → List MemoryEntry → Option (List MemoryEntry)
unfolding current_by_id same_merge_source
current_sources entries consumed seen [] = some []
current_sources entries consumed seen (snapshot ∷ snapshots) =
    elim (current_by_id snapshot.id entries) [
      | none ↦ none
      | some current ↦
          let rest : Option (List MemoryEntry) =
            elim (current_sources entries consumed (current.id ∷ seen) snapshots) [
              | none ↦ none
              | some es ↦ some (current ∷ es)
            ] in
          if contains seen current.id
            || contains consumed current.id
            || not (same_merge_source current snapshot)
          then none
          else rest
    ]

-- The owner that all sources have, if they have one.
unfoldable pub merged_owner : List MemoryEntry → Text
merged_owner [] = group_owner_explicit
merged_owner (e ∷ es) =
    if not (any (λ k. not (text_eq k.owner e.owner)) es) && not (is_empty e.owner)
    then e.owner
    else group_owner_explicit

-- What the loop over the merges collects: existingIDs, consumed, mergedEntries and archives.
pub record Merged : Type 0 where
  pub existing_ids : List Text
  pub consumed : List Text
  pub entries : List MemoryEntry
  pub archives : List MergeArchive

-- A merge whose sources are found; the id is the first generated one that no memory has.
unfoldable pub join_sources :
    (List Text → Text) → Text → ℕ → Merge → List MemoryEntry → Merged → Merged
unfolding merged_entry merged_owner
join_sources fresh_id group_id now merge sources r =
    let id = fresh_id r.existing_ids in
    let owner = merged_owner sources in
    record {
      existing_ids = id ∷ r.existing_ids;
      consumed = map (λ e. e.id) sources ++ r.consumed;
      entries = r.entries ++ merged_entry id group_id owner merge sources now ∷ [];
      archives =
          r.archives
          ++ record { merged_id = id; owner = owner; sources = sources; merged_at = now } ∷ [];
    }

-- The loop over the merges.
unfoldable pub merge_all :
    (List Text → Text) → Text → ℕ → List MemoryEntry → List Merge → Merged → Merged
unfolding is_well_formed current_sources join_sources
merge_all fresh_id group_id now entries [] r = r
merge_all fresh_id group_id now entries (merge ∷ merges) r =
    let joined : Merged = elim (current_sources entries r.consumed [] merge.sources) [
      | none ↦ r
      | some sources ↦ join_sources fresh_id group_id now merge sources r
    ] in
    merge_all fresh_id group_id now entries merges (if is_well_formed merge then joined else r)
