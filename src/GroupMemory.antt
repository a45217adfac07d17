-- ===== src/GroupMemory.antt =====
-- internal/memory: the durable memories of one group (group_store.go, models.go, owner_type.go), for a
-- store that is a file. What the disk answers, the clock and generated ids are arguments.
pub mod Same
pub mod Save
pub mod Edit
pub mod Merging
pub mod Reflect
pub mod Forgotten
pub mod Repeated
use frost_agent.Prelude.{
  ℕ, Bool, true, false, ◌||◌, Option, none, some, List, [], ◌∷◌, ◌++◌, map, if◌then◌else◌,
}
use frost_agent.Text.{Text, codes, is_empty, trim_space, text_eq}
use frost_agent.Sessions.Keys.{first_cut, group_prefixes}

-- MemoryEntry; the named strings of models.go are strings here too.
pub record MemoryEntry : Type 0 where
  pub id : Text
  pub owner : Text
  pub owner_type : Text
  pub scope_type : Text
  pub group_id : Text
  pub content : Text
  pub summary_needs_refresh : Bool
  pub summary : Text
  pub evidence : Text
  pub source_media : Text
  pub source_message_id : Text
  pub source_sender_id : Text
  pub tags : List Text
  pub source : Text
  pub visibility : Text
  pub created_at : ℕ
  pub updated_at : ℕ
  pub access_count : ℕ
  pub merged_from : List Text

-- MemoryMergeArchive
pub record MergeArchive : Type 0 where
  pub merged_id : Text
  pub owner : Text
  pub sources : List MemoryEntry
  pub merged_at : ℕ

pub record BrainData : Type 0 where
  pub entries : List MemoryEntry
  pub merge_archives : List MergeArchive

-- GroupStore; `brain` is what its file holds.
pub record GroupStore : Type 0 where
  pub group_id : Text
  pub refresh_edited_summaries : Bool
  pub brain : BrainData

abbrev pub scope_group : Text
scope_group = codes "group"

abbrev pub group_owner_explicit : Text
group_owner_explicit = codes "group"

abbrev pub owner_group : Text
owner_group = codes "group"

abbrev pub source_extract : Text
source_extract = codes "extract"

abbrev pub source_manual : Text
source_manual = codes "manual"

abbrev pub source_reflect : Text
source_reflect = codes "reflect"

abbrev pub source_distill : Text
source_distill = codes "distill"

abbrev pub user_prefixes : List Text
user_prefixes = codes "aiocqhttp:user:" ∷ codes "qq:user:" ∷ codes "onebot:user:" ∷ []

-- CanonicalOwner
unfoldable pub canonical_owner : Text → Text
canonical_owner given =
    let owner = trim_space given in
    let cut : Text = elim (first_cut user_prefixes owner) [
      | some cut ↦ cut
      | none ↦ elim (first_cut group_prefixes owner) [
        | some cut ↦ codes "group:" ++ cut
        | none ↦ owner
      ]
    ] in
    if is_empty owner then [] else cut

-- OwnersMatch
unfoldable pub owners_match : Text → Text → Bool
owners_match a b = text_eq a b || text_eq (canonical_owner a) (canonical_owner b)

-- An error: the condition of a save that does not hold, a missing memory, or one of the disk.
pub data Failure : Type 0 where
  condition_failed not_found : Failure
  disk_error : Text → Failure

-- The errors of loadMemoryLocked and saveMemoryLocked.
pub record Disk : Type 0 where
  pub load_fails : Option Text
  pub save_fails : Option Text

-- What loadMemoryLocked makes of an entry of the file.
unfoldable pub loaded : Text → MemoryEntry → MemoryEntry
loaded group_id e = record e {
  scope_type = scope_group;
  group_id = group_id;
  owner = canonical_owner e.owner;
}

-- loadMemoryLocked, without its errors
unfoldable pub load_memory : GroupStore → BrainData
load_memory s = record s.brain { entries = map (loaded s.group_id) s.brain.entries }

-- The load, the change and the save that all writing methods consist of. Where `change` answers none
-- nothing is saved, and `missing` is the error.
unfoldable pub rewrite :
    Disk
    → Option Failure
    → (BrainData → Option BrainData)
    → GroupStore
    → GroupStore × Option Failure
rewrite d missing change s = elim d.load_fails [
  | some e ↦ (s, some (disk_error e))
  | none ↦ elim (change (load_memory s)) [
    | none ↦ (s, missing)
    | some brain ↦ elim d.save_fails [
      | some e ↦ (s, some (disk_error e))
      | none ↦ (record s { brain = brain }, none)
    ]
  ]
]
