-- ===== src/GroupMemory/Forgotten/Saved.antt =====
-- What saves, imports and reflections make of the memories that were distilled from a message.
use frost_agent.Prelude.{
  if-some, ℕ, suc, ◌≡◌, refl, subst, inl, inr, Bool, true, false, not, ◌&&◌, Option, none, some,
  List, [], ◌∷◌, any, keep, All-keep, All-append, arith, Bool-cases, Option-cases, if-case,
  option-case, some_injective,
}
use frost_agent.Text.{Text, is_empty, text_eq}
use frost_agent.Barrier.{Barrier}
use frost_agent.Barrier.Distillation.{is_valid, try_begin_commit}
use frost_agent.GroupMemory.{
  MemoryEntry, BrainData, GroupStore, Disk, Failure, load_memory, condition_failed, source_distill,
}
use frost_agent.GroupMemory.Same.{is_same_group_memory}
use frost_agent.GroupMemory.Save.{
  Watch, prepared, absorbed, place_entry, place_all, checked_change, save_begun, save_entries,
  or_else,
}
use frost_agent.GroupMemory.Edit.{is_distilled_from, adopted, replace_last, import_all, import_data}
use frost_agent.GroupMemory.Merging.{
  Merge, Merged, current_sources, is_well_formed, join_sources, merged_entry, merge_all,
}
use frost_agent.GroupMemory.Reflect.{merge_brain, surviving, apply_reflection}
use frost_agent.GroupMemory.Forgotten.Kept.{
  AllOthers, Unrelated, Clean, load-AllOthers, rewrite-Clean,
}

-- A memory that does not name the message was not distilled from it.
unrelated :
    (id : Text) (e : MemoryEntry)
    → text_eq e.source_message_id id ≡ false
    → is_distilled_from id e ≡ false
unfolding is_distilled_from
unrelated id e h = ground (arith, h)

absorbed-others :
    (id : Text) (now : ℕ) (e i : MemoryEntry)
    → text_eq i.source_message_id id ≡ false
    → is_distilled_from id e ≡ false
    → is_distilled_from id (absorbed now e i) ≡ false
unfolding absorbed is_distilled_from
absorbed-others id now e i h v =
    if-case (λ k. (text_eq e.source source_distill && text_eq k id) ≡ false)
      (is_empty e.source_message_id) i.source_message_id e.source_message_id
      (unfold is_distilled_from in unrelated id (record i { source = e.source }) h) v

place_entry-AllOthers :
    (id : Text) (now : ℕ) (fresh : Text) (i : MemoryEntry) (es : List MemoryEntry)
    → text_eq i.source_message_id id ≡ false
    → AllOthers id es
    → AllOthers id (place_entry now fresh i es).0
unfolding place_entry
place_entry-AllOthers id now fresh i [] h v =
    (unrelated id (record i { id = or_else i.id fresh }) h, tt)
place_entry-AllOthers id now fresh i (e ∷ es) h v =
    if-case (λ (r : List MemoryEntry × Text). AllOthers id r.0) (is_same_group_memory e i) _ _
      (absorbed-others id now e i h v.0, v.1) (v.0, place_entry-AllOthers id now fresh i es h v.1)

place_all-AllOthers :
    (id : Text) (now : ℕ) (group : Text) (ids : ℕ → Text) (n : ℕ) (given es : List MemoryEntry)
    → Unrelated id given
    → AllOthers id es
    → AllOthers id (place_all now group ids n given es)
unfolding place_all prepared
place_all-AllOthers id now group ids n [] es h v = v
place_all-AllOthers id now group ids n (i ∷ given) es h v =
    place_all-AllOthers id now group ids (suc n) given _ h.1
      (place_entry-AllOthers id now (ids n) (prepared now group i) es h.0 v)

checked-AllOthers :
    (id : Text) (w : Watch) (begun : Option Barrier) (now : ℕ) (ids : ℕ → Text) (group : Text)
    (given : List MemoryEntry) (brain next : BrainData)
    → Unrelated id given
    → AllOthers id brain.entries
    → checked_change w begun now ids group given brain ≡ some next
    → AllOthers id next.entries
unfolding checked_change
checked-AllOthers id w begun now ids group given brain next h v e =
    let stays : Bool = elim begun [
      | none ↦ true
      | some b ↦ is_valid (w.before_second b) && is_valid (w.before_third (w.before_second b))
    ] in
    let es = place_all now group ids 0 given brain.entries in
    subst (λ b. AllOthers id b.entries)
      (if-some (w.second && w.third && stays) (record brain { entries = es }) next e)
      (place_all-AllOthers id now group ids 0 given brain.entries h v)

begun-Clean :
    (id : Text) (w : Watch) (begun : Option Barrier) (d : Disk) (now : ℕ) (ids : ℕ → Text)
    (given : List MemoryEntry) (m : GroupStore)
    → Unrelated id given
    → Clean id m
    → Clean id (save_begun w begun d now ids given m).0
unfolding save_begun
begun-Clean id w begun d now ids given m h v =
    rewrite-Clean id d (some condition_failed) (checked_change w begun now ids m.group_id given) m
      (λ brain next. checked-AllOthers id w begun now ids m.group_id given brain next h) v

-- A save of memories that do not name the message.
pub save-Clean :
    (id : Text) (w : Watch) (d : Disk) (now : ℕ) (ids : ℕ → Text) (given : List MemoryEntry)
    (m : GroupStore)
    → Unrelated id given
    → Clean id m
    → Clean id (save_entries w d now ids given m).0
unfolding save_entries
save-Clean id w d now ids [] m h v = v
save-Clean id w d now ids (e ∷ es) m h v =
    let P = λ (r : GroupStore × (Option Barrier × Option Failure)). Clean id r.0 in
    if-case P (not w.first) _ _ v (
      option-case P w.barrier _ _ (begun-Clean id w none d now ids (e ∷ es) m h v) (λ b there.
        if-case P (not (try_begin_commit b).1) _ _ v
          (begun-Clean id w (some (try_begin_commit b).0) d now ids (e ∷ es) m h v)))

-- A save whose barrier does not let it begin.
pub refused_save :
    (w : Watch) (b : Barrier) (d : Disk) (now : ℕ) (ids : ℕ → Text) (given : List MemoryEntry)
    (m : GroupStore)
    → w.barrier ≡ some b
    → (try_begin_commit b).1 ≡ false
    → (save_entries w d now ids given m).0 ≡ m
unfolding save_entries
refused_save w b d now ids [] m there refused = refl
refused_save w b d now ids (e ∷ es) m there refused = elim (Bool-cases w.first) [
  | inl first ↦ rw (first, there, refused, save_entries) refl
  | inr late ↦ rw (late, save_entries) refl
]

replace_last-AllOthers :
    (id : Text) (new : MemoryEntry) (es rs : List MemoryEntry)
    → is_distilled_from id new ≡ false
    → AllOthers id es
    → replace_last new es ≡ some rs
    → AllOthers id rs
unfolding replace_last
replace_last-AllOthers id new [] rs h v e = absurd (ground (arith, e))
replace_last-AllOthers id new (x ∷ es) rs h v e = elim (Option-cases (replace_last new es)) [
  | inr (r, there) ↦
      subst (AllOthers id) (some_injective (rw there at e))
        (v.0, replace_last-AllOthers id new es r h v.1 there)
  | inl nothing ↦
      subst (AllOthers id) (if-some (text_eq x.id new.id) (new ∷ es) rs (rw nothing at e)) (h, v.1)
]

import_all-AllOthers :
    (id : Text) (now : ℕ) (group : Text) (overwrite : Bool) (given es : List MemoryEntry)
    (counts : ℕ × ℕ)
    → AllOthers id given
    → AllOthers id es
    → AllOthers id (import_all now group overwrite given es counts).0
unfolding import_all adopted is_distilled_from
import_all-AllOthers id now group overwrite [] es (a, b) h v = v
import_all-AllOthers id now group overwrite (i ∷ given) es (a, b) h v =
    let e = adopted now group i in
    import_all-AllOthers id now group overwrite given _ _ h.1 (
      if-case (AllOthers id) (any (λ k. text_eq k.id e.id) es) _ _
        (if-case (AllOthers id) overwrite _ _
          (option-case (AllOthers id) (replace_last e es) es (λ rs. rs) v
            (λ rs there. replace_last-AllOthers id e es rs h.0 v there))
          v)
        (All-append (λ k. is_distilled_from id k ≡ false) es (e ∷ []) v (h.0, tt)))

pub import-Clean :
    (id : Text) (d : Disk) (now : ℕ) (overwrite : Bool) (given : List MemoryEntry) (m : GroupStore)
    → AllOthers id given
    → Clean id m
    → Clean id (import_data d now overwrite given m).0
unfolding import_data load_memory
import-Clean id d now overwrite given m h v =
    rewrite-Clean id d none _ m
      (λ brain next w e.
        subst (λ b. AllOthers id b.entries) (some_injective e)
          (import_all-AllOthers id now m.group_id overwrite given (load_memory m).entries (0, 0) h
            (load-AllOthers id m.group_id m.brain.entries v)))
      v

merge_all-AllOthers :
    (id : Text) (fresh : List Text → Text) (group : Text) (now : ℕ) (es : List MemoryEntry)
    (merges : List Merge) (r : Merged)
    → AllOthers id r.entries
    → AllOthers id (merge_all fresh group now es merges r).entries
unfolding merge_all join_sources merged_entry is_distilled_from text_eq
merge_all-AllOthers id fresh group now es [] r v = v
merge_all-AllOthers id fresh group now es (m ∷ ms) r v =
    let others = λ (e : MemoryEntry). is_distilled_from id e ≡ false in
    merge_all-AllOthers id fresh group now es ms _ (
      if-case (λ (k : Merged). AllOthers id k.entries) (is_well_formed m) _ _
        (option-case (λ (k : Merged). AllOthers id k.entries)
          (current_sources es r.consumed [] m.sources) r
          (λ sources. join_sources fresh group now m sources r) v
          (λ sources found. All-append others r.entries _ v (refl, tt)))
        v)

-- A reflection makes no memory that counts as distilled.
pub reflection-Clean :
    (id : Text) (fresh : List Text → Text) (d : Disk) (now : ℕ) (merges : List Merge)
    (outdated : List Text) (snapshots : Option (Text → Option MemoryEntry)) (m : GroupStore)
    → Clean id m
    → Clean id (apply_reflection fresh d now merges outdated snapshots m).0
unfolding apply_reflection surviving merge_brain load_memory
reflection-Clean id fresh d now merges outdated snapshots m v =
    let es = (load_memory m).entries in
    let loaded = load-AllOthers id m.group_id m.brain.entries v in
    let others = λ (e : MemoryEntry). is_distilled_from id e ≡ false in
    rewrite-Clean id d none _ m
      (λ brain next w e.
        subst (λ b. AllOthers id b.entries) (some_injective e)
          (All-append others (keep _ es) _ (All-keep others _ es loaded)
            (merge_all-AllOthers id fresh m.group_id now es merges _ tt)))
      v
