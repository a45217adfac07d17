-- ===== src/GroupMemory/Forgotten/Kept.antt =====
-- What each call makes of the memories that were distilled from a message.
use frost_agent.Prelude.{
  if-some, ℕ, ◌≡◌, refl, subst, inl, inr, Bool, true, false, not, ◌||◌, Option, none, some, List,
  [], ◌∷◌, map, any, keep, All, All-keep, if◌then◌else◌, arith, Bool-cases, Option-cases, if-case,
  option-case, some_injective,
}
use frost_agent.Text.{Text, is_empty, trim_space, text_eq, contains}
use frost_agent.GroupMemory.{
  MemoryEntry, MergeArchive, BrainData, GroupStore, Disk, Failure, loaded, load_memory, rewrite,
  not_found, source_distill, source_extract,
}
use frost_agent.GroupMemory.Edit.{
  is_distilled_from, purged, purge_distilled_entries, without_first, delete_entry, edited,
  edit_first, update_entry, recalled, increment_access_count, save_merge_archive,
}

-- No memory of the store was distilled from the message.
abbrev pub AllOthers : Text → List MemoryEntry → Type 0
AllOthers id es = All (λ e. is_distilled_from id e ≡ false) es

-- No memory names the message.
abbrev pub Unrelated : Text → List MemoryEntry → Type 0
Unrelated id es = All (λ e. text_eq e.source_message_id id ≡ false) es

abbrev pub Clean : Text → GroupStore → Type 0
Clean id m = AllOthers id m.brain.entries

pub load-AllOthers :
    (id group : Text) (es : List MemoryEntry)
    → AllOthers id es
    → AllOthers id (map (loaded group) es)
unfolding loaded is_distilled_from
load-AllOthers id group [] v = v
load-AllOthers id group (e ∷ es) v = (v.0, load-AllOthers id group es v.1)

-- A change that keeps a clean brain clean, and its save.
pub rewrite-Clean :
    (id : Text) (d : Disk) (missing : Option Failure) (change : BrainData → Option BrainData)
    (m : GroupStore)
    → ((brain next : BrainData)
        → AllOthers id brain.entries
        → change brain ≡ some next
        → AllOthers id next.entries)
    → Clean id m
    → Clean id (rewrite d missing change m).0
unfolding rewrite load_memory
rewrite-Clean id d missing change m keeps v =
    option-case (λ (r : GroupStore × Option Failure). Clean id r.0) d.load_fails _ _
      (option-case (λ (r : GroupStore × Option Failure). Clean id r.0) (change (load_memory m)) _ _
        v
        (λ next e.
          option-case (λ (r : GroupStore × Option Failure). Clean id r.0) d.save_fails _ _
            (keeps (load_memory m) next (load-AllOthers id m.group_id m.brain.entries v) e)
            (λ f g. v)))
      (λ f g. v)

keep-AllOthers :
    (id : Text) (es : List MemoryEntry) → AllOthers id (keep (λ e. not (is_distilled_from id e)) es)
keep-AllOthers id [] = tt
keep-AllOthers id (e ∷ es) = elim (Bool-cases (is_distilled_from id e)) [
  | inl from ↦ rw from (keep-AllOthers id es)
  | inr other ↦ rw other (other, keep-AllOthers id es)
]

any-AllOthers :
    (id group : Text) (es : List MemoryEntry)
    → any (is_distilled_from id) (map (loaded group) es) ≡ false
    → AllOthers id es
any-AllOthers id group [] h = tt
any-AllOthers id group (e ∷ es) h =
    let same : is_distilled_from id (loaded group e) ≡ is_distilled_from id e =
      unfold is_distilled_from loaded in refl in
    (ground (arith, h, same), any-AllOthers id group es (ground (arith, h)))

-- A purge that makes no error leaves no memory that was distilled from the message.
pub purge-Clean :
    (d : Disk) (message_id : Text) (m : GroupStore)
    → is_empty (trim_space message_id) ≡ false
    → (purge_distilled_entries d message_id m).1 ≡ none
    → Clean (trim_space message_id) (purge_distilled_entries d message_id m).0
unfolding purge_distilled_entries rewrite purged load_memory
purge-Clean d message_id m named fine =
    let id = trim_space message_id in
    elim (Option-cases d.load_fails) [
      | inr (e, bad) ↦
          absurd (ground (arith, rw (named, bad, purge_distilled_entries, rewrite) at fine))
      | inl loads ↦ elim (Bool-cases (any (is_distilled_from id) (load_memory m).entries)) [
        | inr none_there ↦
            rw (named, loads, none_there, purge_distilled_entries, rewrite, purged)
              (any-AllOthers id m.group_id m.brain.entries none_there)
        | inl some_there ↦ elim (Option-cases d.save_fails) [
          | inr (e, bad) ↦ absurd (
              ground (
                arith,
                rw (named, loads, some_there, bad, purge_distilled_entries, rewrite, purged) at
                    fine,
              ))
          | inl saves ↦
              rw (named, loads, some_there, saves, purge_distilled_entries, rewrite, purged)
                (keep-AllOthers id (load_memory m).entries)
        ]
      ]
    ]

-- A purge for any message brings none back.
pub purge_any-Clean :
    (id : Text) (d : Disk) (message_id : Text) (m : GroupStore)
    → Clean id m
    → Clean id (purge_distilled_entries d message_id m).0
unfolding purge_distilled_entries purged
purge_any-Clean id d message_id m v =
    let gone = is_distilled_from (trim_space message_id) in
    if-case (λ (r : GroupStore × Option Failure). Clean id r.0) (is_empty (trim_space message_id)) _
      _ v
      (rewrite-Clean id d none (purged (trim_space message_id)) m
        (λ brain next w e. elim (Bool-cases (any gone brain.entries)) [
          | inl some_there ↦
              subst (λ b. AllOthers id b.entries) (some_injective (rw (some_there, purged) at e))
                (All-keep (λ k. is_distilled_from id k ≡ false) (λ k. not (gone k)) brain.entries w)
          | inr none_there ↦ absurd (ground (arith, rw (none_there, purged) at e))
        ])
        v)

-- A change of the entries that keeps a clean list clean, as the change of a brain.
entries-Clean :
    (id : Text) (f : List MemoryEntry → Option (List MemoryEntry))
    → ((es rs : List MemoryEntry) → AllOthers id es → f es ≡ some rs → AllOthers id rs)
    → (brain next : BrainData) → AllOthers id brain.entries
    → (elim (f brain.entries) as (λ o. Option BrainData) [
      | none ↦ none
      | some es ↦ some (record brain { entries = es })
    ])
      ≡ some next
    → AllOthers id next.entries
entries-Clean id f keeps brain next w e = elim (Option-cases (f brain.entries)) [
  | inl nothing ↦ absurd (ground (arith, rw nothing at e))
  | inr (rs, there) ↦
      subst (λ b. AllOthers id b.entries) (some_injective (rw there at e))
        (keeps brain.entries rs w there)
]

-- A change of the first entry that fits.
first-AllOthers :
    (id : Text) (b : Bool) (x : MemoryEntry) (hit rs : List MemoryEntry)
    (o : Option (List MemoryEntry))
    → is_distilled_from id x ≡ false
    → AllOthers id hit
    → ((r : List MemoryEntry) → o ≡ some r → AllOthers id r)
    → (if b
        then some hit
        else (elim o as (λ z. Option (List MemoryEntry)) [ none ↦ none | some r ↦ some (x ∷ r) ]))
      ≡ some rs
    → AllOthers id rs
first-AllOthers id true x hit rs o v w next e = subst (AllOthers id) (some_injective e) w
first-AllOthers id false x hit rs none v w next e = absurd (ground (arith, e))
first-AllOthers id false x hit rs (some r) v w next e =
    subst (AllOthers id) (some_injective e) (v, next r refl)

without_first-AllOthers :
    (id k : Text) (es rs : List MemoryEntry)
    → AllOthers id es
    → without_first k es ≡ some rs
    → AllOthers id rs
unfolding without_first
without_first-AllOthers id k [] rs v e = absurd (ground (arith, e))
without_first-AllOthers id k (x ∷ es) rs v e =
    first-AllOthers id (text_eq x.id k) x es rs (without_first k es) v.0 v.1
      (λ r there. without_first-AllOthers id k es r v.1 there) e

pub delete-Clean :
    (id : Text) (d : Disk) (k : Text) (m : GroupStore)
    → Clean id m
    → Clean id (delete_entry d k m).0
unfolding delete_entry
delete-Clean id d k m v =
    rewrite-Clean id d (some not_found) _ m
      (entries-Clean id (without_first k) (without_first-AllOthers id k)) v

pub archive-Clean :
    (id : Text) (d : Disk) (a : MergeArchive) (m : GroupStore)
    → Clean id m
    → Clean id (save_merge_archive d a m).0
unfolding save_merge_archive
archive-Clean id d a m v =
    rewrite-Clean id d none _ m
      (λ brain next w e. subst (λ b. AllOthers id b.entries) (some_injective e) w) v

edited-others :
    (id : Text) (refresh : Bool) (now : ℕ) (update e : MemoryEntry)
    → is_distilled_from id e ≡ false
    → is_distilled_from id (edited refresh now update e) ≡ false
unfolding edited is_distilled_from
edited-others id refresh now update e v = elim (Bool-cases (text_eq e.content update.content)) [
  | inl same ↦ rw same v
  | inr other ↦
      rw other
        (elim (Bool-cases (text_eq e.source source_extract || text_eq e.source source_distill)) [
          | inl automatic ↦ rw automatic (unfold text_eq in refl)
          | inr by_hand ↦ rw by_hand v
        ])
]

edit_first-AllOthers :
    (id : Text) (refresh : Bool) (now : ℕ) (update : MemoryEntry) (es rs : List MemoryEntry)
    → AllOthers id es
    → edit_first refresh now update es ≡ some rs
    → AllOthers id rs
unfolding edit_first
edit_first-AllOthers id refresh now update [] rs v e = absurd (ground (arith, e))
edit_first-AllOthers id refresh now update (x ∷ es) rs v e =
    first-AllOthers id (text_eq x.id update.id) x (edited refresh now update x ∷ es) rs
      (edit_first refresh now update es) v.0 (edited-others id refresh now update x v.0, v.1)
      (λ r there. edit_first-AllOthers id refresh now update es r v.1 there) e

pub update-Clean :
    (id : Text) (d : Disk) (now : ℕ) (e : MemoryEntry) (m : GroupStore)
    → Clean id m
    → Clean id (update_entry d now e m).0
unfolding update_entry
update-Clean id d now e m v =
    rewrite-Clean id d (some not_found) _ m
      (entries-Clean id (edit_first m.refresh_edited_summaries now e)
        (edit_first-AllOthers id m.refresh_edited_summaries now e))
      v

recalled-AllOthers :
    (id : Text) (now : ℕ) (ids : List Text) (es : List MemoryEntry)
    → AllOthers id es
    → AllOthers id (recalled now ids es)
unfolding recalled is_distilled_from
recalled-AllOthers id now ids [] v = v
recalled-AllOthers id now ids (e ∷ es) v = (
  if-case (λ k. is_distilled_from id k ≡ false) (contains ids e.id) _ _ v.0 v.0,
  recalled-AllOthers id now ids es v.1,
)

pub increment-Clean :
    (id : Text) (d : Disk) (now : ℕ) (ids : List Text) (m : GroupStore)
    → Clean id m
    → Clean id (increment_access_count d now ids m).0
unfolding increment_access_count
increment-Clean id d now given m v =
    let ids = keep (λ k. not (is_empty k)) given in
    rewrite-Clean id d none _ m
      (λ brain next w e.
        subst (λ b. AllOthers id b.entries)
          (if-some (any (λ k. contains ids k.id) brain.entries)
            (record brain { entries = recalled now ids brain.entries }) next e)
          (recalled-AllOthers id now ids brain.entries w))
      v
