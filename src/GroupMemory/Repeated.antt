-- ===== src/GroupMemory/Repeated.antt =====
-- A memory that is saved once more meets the one that is kept.
use frost_agent.Prelude.{
  ℕ, ◌≡◌, ◌∙◌, refl, sym, ap, inl, inr, Bool, true, false, ◌&&◌, Option, none, some, List, [], ◌∷◌,
  map, arith, Bool-cases, Option-cases, if-some,
}
use frost_agent.Text.{Text, is_empty, text_eq, text_eq_refl}
use frost_agent.Barrier.{Barrier}
use frost_agent.Barrier.Distillation.{is_valid, try_begin_commit}
use frost_agent.GroupMemory.{
  MemoryEntry, BrainData, GroupStore, Disk, Failure, condition_failed, source_manual, loaded,
  load_memory, rewrite,
}
use frost_agent.GroupMemory.Same.{agree, is_same_group_memory}
use frost_agent.GroupMemory.Save.{
  Watch, absorbed, place_entry, place_all, prepared, or_else, checked_change, save_begun,
  save_entries,
}

-- A memory of a model, which has a content or an evidence.
abbrev pub Automatic : MemoryEntry → Type 0
Automatic i =
    (text_eq i.source source_manual ≡ false) × ((is_empty i.content && is_empty i.evidence) ≡ false)

same_as_stored :
    (id : Text) (i : MemoryEntry)
    → Automatic i
    → is_same_group_memory (record i { id = id }) i ≡ true
unfolding is_same_group_memory agree
same_as_stored id i a = ground (
  arith,
  a.0,
  a.1,
  text_eq_refl i.source_media,
  text_eq_refl i.source_message_id,
  text_eq_refl i.owner,
  text_eq_refl i.content,
  text_eq_refl i.evidence,
)

same_as_absorbed :
    (now : ℕ) (e i : MemoryEntry)
    → is_same_group_memory e i ≡ true
    → is_same_group_memory (absorbed now e i) i ≡ true
unfolding is_same_group_memory absorbed agree
same_as_absorbed now e i h = ground (arith, h)

ids_loaded :
    (group : Text) (es : List MemoryEntry)
    → map (λ e. e.id) (map (loaded group) es) ≡ map (λ e. e.id) es
unfolding loaded
ids_loaded group [] = refl
ids_loaded group (e ∷ es) = ap (λ ids. e.id ∷ ids) (ids_loaded group es)

-- What a load makes of an entry has the same messages and contents, so that it is still the same as a
-- memory that names its message.
same_as_loaded :
    (group : Text) (e i j : MemoryEntry)
    → is_empty i.source_message_id ≡ false
    → ((k : MemoryEntry) → is_same_group_memory k j ≡ is_same_group_memory k i)
    → is_same_group_memory (loaded group e) j ≡ is_same_group_memory e i
unfolding is_same_group_memory loaded
same_as_loaded group e i j named alike =
    alike (loaded group e) ∙ unfold is_same_group_memory in ground (arith, named)

-- `j` is the same memory as `i` at a later time; in between the entries are loaded.
place_again :
    (now later : ℕ) (fresh fresh' group : Text) (i j : MemoryEntry)
    → Automatic i
    → is_empty i.source_message_id ≡ false
    → ((k : MemoryEntry) → is_same_group_memory k j ≡ is_same_group_memory k i)
    → (es : List MemoryEntry)
    → let first = (place_entry now fresh i es).0 in
      let second = (place_entry later fresh' j (map (loaded group) first)).0 in
      map (λ e. e.id) second ≡ map (λ e. e.id) first
unfolding place_entry absorbed loaded
place_again now later fresh fresh' group i j a named alike [] =
    let kept : MemoryEntry = record i { id = or_else i.id fresh } in
    rw
      (
        same_as_loaded group kept i j named alike ∙ same_as_stored (or_else i.id fresh) i a,
        place_entry,
      )
      refl
place_again now later fresh fresh' group i j a named alike (e ∷ es) =
    elim (Bool-cases (is_same_group_memory e i)) [
      | inl same ↦
          rw
            (
              same,
              place_entry,
              same_as_loaded group (absorbed now e i) i j named alike
                  ∙ same_as_absorbed now e i same,
            )
            (ap (λ ids. e.id ∷ ids) (ids_loaded group es))
      | inr other ↦
          rw (other, place_entry, same_as_loaded group e i j named alike ∙ other)
            (ap (λ ids. e.id ∷ ids) (place_again now later fresh fresh' group i j a named alike es))
    ]

-- What a save that makes no error leaves.
rewrite-done :
    (d : Disk) (missing : Failure) (change : BrainData → Option BrainData) (s : GroupStore)
    → (rewrite d (some missing) change s).1 ≡ none
    → (brain : BrainData) × (change (load_memory s) ≡ some brain)
      × ((rewrite d (some missing) change s).0 ≡ record s { brain = brain })
unfolding rewrite
rewrite-done d missing change s fine = elim (Option-cases d.load_fails) [
  | inr (e, bad) ↦ absurd (ground (arith, rw (bad, rewrite) at fine))
  | inl loads ↦ elim (Option-cases (change (load_memory s))) [
    | inl nothing ↦ absurd (ground (arith, rw (loads, nothing, rewrite) at fine))
    | inr (brain, there) ↦ elim (Option-cases d.save_fails) [
      | inr (e, bad) ↦ absurd (ground (arith, rw (loads, there, bad, rewrite) at fine))
      | inl saves ↦ (brain, there, rw (loads, there, saves, rewrite) refl)
    ]
  ]
]

-- The entries behind a save of one memory that makes no error.
abbrev Placed : ℕ → (ℕ → Text) → MemoryEntry → GroupStore → GroupStore → Type 0
Placed now ids given s t =
    (t.group_id ≡ s.group_id)
    × (t.brain.entries
        ≡ (place_entry now (ids 0) (prepared now s.group_id given) (load_memory s).entries).0)

begun-Placed :
    (w : Watch) (begun : Option Barrier) (d : Disk) (now : ℕ) (ids : ℕ → Text) (given : MemoryEntry)
    (s : GroupStore)
    → (save_begun w begun d now ids (given ∷ []) s).1 ≡ none
    → Placed now ids given s (save_begun w begun d now ids (given ∷ []) s).0
unfolding save_begun checked_change place_all
begun-Placed w begun d now ids given s fine =
    let change = checked_change w begun now ids s.group_id (given ∷ []) in
    let (brain, there, whole) = rewrite-done d condition_failed change s fine in
    let stays : Bool = elim begun [
      | none ↦ true
      | some b ↦ is_valid (w.before_second b) && is_valid (w.before_third (w.before_second b))
    ] in
    let made = if-some (w.second && w.third && stays) _ brain there in
    (ap (λ t. t.group_id) whole, ap (λ t. t.brain.entries) whole ∙ sym (ap (λ b. b.entries) made))

save_entries-Placed :
    (w : Watch) (d : Disk) (now : ℕ) (ids : ℕ → Text) (given : MemoryEntry) (s : GroupStore)
    → (save_entries w d now ids (given ∷ []) s).1.1 ≡ none
    → Placed now ids given s (save_entries w d now ids (given ∷ []) s).0
unfolding save_entries
save_entries-Placed w d now ids given s fine = elim (Bool-cases w.first) [
  | inr late ↦ absurd (ground (arith, rw (late, save_entries) at fine))
  | inl first ↦ elim (Option-cases w.barrier) [
    | inl unguarded ↦
        rw (first, unguarded, save_entries)
          (begun-Placed w none d now ids given s (rw (first, unguarded, save_entries) at fine))
    | inr (b, there) ↦ elim (Bool-cases (try_begin_commit b).1) [
      | inr refused ↦ absurd (ground (arith, rw (first, there, refused, save_entries) at fine))
      | inl ok ↦
          rw (first, there, ok, save_entries)
            (begun-Placed w (some (try_begin_commit b).0) d now ids given s
              (rw (first, there, ok, save_entries) at fine))
    ]
  ]
]

-- A memory that is not by hand, names its message, and has a content or an evidence is saved by
-- SaveGroupEntriesConditionallyContext, and at any later time once more, each time alone and without an
-- error, under any barriers and checks. The second save leaves the ids of the group's memories as they
-- were: no memory comes or goes.
pub repeated_save :
    (w w' : Watch) (d d' : Disk) (now later : ℕ) (ids ids' : ℕ → Text) (given : MemoryEntry)
    (s : GroupStore)
    → Automatic given
    → is_empty given.source_message_id ≡ false
    → let first = save_entries w d now ids (given ∷ []) s in
      let second = save_entries w' d' later ids' (given ∷ []) first.0 in
      first.1.1 ≡ none
      → second.1.1 ≡ none
      → map (λ e. e.id) second.0.brain.entries ≡ map (λ e. e.id) first.0.brain.entries
unfolding load_memory prepared
repeated_save w w' d d' now later ids ids' given s a named fine again =
    let first = (save_entries w d now ids (given ∷ []) s).0 in
    let one = save_entries-Placed w d now ids given s fine in
    let two = save_entries-Placed w' d' later ids' given first again in
    ap (map (λ e. e.id)) two.1
    ∙ ap
        (λ es.
          map (λ e. e.id)
            (place_entry later (ids' 0) (prepared later first.group_id given)
              (map (loaded first.group_id) es)).0)
        one.1
    ∙ place_again now later (ids 0) (ids' 0) first.group_id (prepared now s.group_id given)
        (prepared later first.group_id given) a named (λ k. unfold is_same_group_memory in refl)
        (load_memory s).entries
    ∙ sym (ap (map (λ e. e.id)) one.1)
