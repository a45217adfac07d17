-- ===== src/Examples/GroupMemory.antt =====
-- The theorems on the memories of a group at concrete inputs.
use mathlib.Core.List.{Memᴰ}
use frost_agent.Prelude.{
  ℕ, ◌≡◌, refl, ap, sym, ◌∙◌, ◌++◌, ◌⊎◌, true, false, Option, none, some, List, [], ◌∷◌, map, any,
  arith, lookup,
}
use frost_agent.Text.{Text, codes, trim_space, text_eq, contains}
use frost_agent.Barrier.{Barrier, fresh_barrier, writing}
use frost_agent.GroupCompact.State.{GroupState, Snapshot, Distillation, empty_group}
use frost_agent.GroupCompact.Compact.{abort_and_wait}
use frost_agent.GroupCompact.Revoke.{drop_message_checked}
use frost_agent.GroupCompact.Revoked.{drop_aborts}
use frost_agent.GroupMemory.{
  MemoryEntry, GroupStore, Disk, load_memory, loaded, rewrite, scope_group, source_distill,
}
use frost_agent.GroupMemory.Save.{Watch, save_entries, save_begun, checked_change}
use frost_agent.GroupMemory.Edit.{is_distilled_from, purged, purge_distilled_entries}
use frost_agent.GroupMemory.Repeated.{repeated_save}
use frost_agent.GroupMemory.Merging.{Merge}
use frost_agent.GroupMemory.Reflect.{apply_reflection}
use frost_agent.GroupMemory.Reflect.Lossless.{
  Archived, Outdated, Distinct, reflection_loses_nothing,
}
use frost_agent.GroupMemory.Forgotten.{early, distills, here, later, dropped_stays_forgotten}

abbrev memory : Text → Text → Text → MemoryEntry
memory id message content = record {
  id = id;
  owner = codes "42";
  owner_type = [];
  scope_type = scope_group;
  group_id = codes "7";
  content = content;
  summary_needs_refresh = false;
  summary = [];
  evidence = content;
  source_media = [];
  source_message_id = message;
  source_sender_id = codes "42";
  tags = codes "food" ∷ [];
  source = source_distill;
  visibility = [];
  created_at = 3;
  updated_at = 3;
  access_count = 0;
  merged_from = [];
}

abbrev likes_tea : MemoryEntry
likes_tea = memory (codes "a") (codes "m1") (codes "likes tea")

abbrev likes_rice : MemoryEntry
likes_rice = memory (codes "b") (codes "m2") (codes "likes rice")

abbrev brain_store : GroupStore
brain_store = record {
  group_id = codes "7";
  refresh_edited_summaries = true;
  brain = record { entries = likes_tea ∷ likes_rice ∷ []; merge_archives = [] };
}

abbrev good_disk : Disk
good_disk = record { load_fails = none; save_fails = none }

abbrev fresh_id : ℕ → Text
fresh_id n = n ∷ []

-- A save that nothing hinders and no barrier guards.
abbrev free : Watch
free = record {
  first = true;
  second = true;
  third = true;
  barrier = none;
  before_second = λ b. b;
  before_third = λ b. b;
  before_end = λ b. b;
}

abbrev likes_cake : MemoryEntry
likes_cake = memory [] (codes "m3") (codes "likes cake")

abbrev saved_once : GroupStore
saved_once = (save_entries free good_disk 5 fresh_id (likes_cake ∷ []) brain_store).0

first_fine : (save_entries free good_disk 5 fresh_id (likes_cake ∷ []) brain_store).1.1 ≡ none
unfolding save_entries save_begun checked_change rewrite
first_fine = refl

second_fine : (save_entries free good_disk 9 fresh_id (likes_cake ∷ []) saved_once).1.1 ≡ none
unfolding save_entries save_begun checked_change rewrite
second_fine = refl

repeated_save_example :
    map
      (λ e. e.id)
      (save_entries free good_disk 9 fresh_id (likes_cake ∷ []) saved_once).0.brain.entries
    ≡ map (λ e. e.id) saved_once.brain.entries
repeated_save_example =
    repeated_save free free good_disk good_disk 5 9 fresh_id fresh_id likes_cake brain_store
      (unfold text_eq in refl, refl) refl first_fine second_fine

-- The batch of both messages.
abbrev batch : Snapshot
batch = record {
  summary = codes "they eat";
  messages = [];
  message_ids = codes "m1" ∷ codes "m2" ∷ [];
  through = 2;
  generation = 0;
}

abbrev under_way : Distillation
under_way = record { snapshot = batch; barrier = record fresh_barrier { state = writing } }

abbrev distilling : GroupState
distilling = record empty_group {
  distillations = (1, under_way) ∷ [];
  registered = 1 ∷ [];
  next_distill = 1;
}

-- The store answers every purge.
abbrev purge : Option (Text → Option Text)
purge = some (λ id. none)

abbrev stopped : Barrier
stopped = (abort_and_wait under_way).barrier

abbrev watch : Watch
watch = record {
  first = true;
  second = true;
  third = true;
  barrier = some stopped;
  before_second = λ b. b;
  before_third = λ b. b;
  before_end = λ b. b;
}

purge_fine : (purge_distilled_entries good_disk (codes " m2") brain_store).1 ≡ none
unfolding purge_distilled_entries purged is_distilled_from rewrite load_memory loaded trim_space
    text_eq
purge_fine = refl

aborted_there :
    lookup 1 (drop_message_checked 8 purge (codes " m2") distilling).0.distillations
    ≡ some (abort_and_wait under_way)
unfolding trim_space contains
aborted_there = (drop_aborts 8 purge (codes " m2") distilling refl 1 under_way (refl, refl, refl)).0

-- The distillation that was under way comes to its save once more.
dropped_stays_forgotten_example :
    any
      (is_distilled_from (trim_space (codes " m2")))
      (save_entries watch good_disk 9 fresh_id
        (likes_rice ∷ [])
        (purge_distilled_entries good_disk (codes " m2") brain_store).0).0.brain.entries
    ≡ false
unfolding trim_space
dropped_stays_forgotten_example =
    dropped_stays_forgotten 8 purge (codes " m2") distilling refl good_disk brain_store _ purge_fine
      (later _ _ here (
        distills _ watch stopped batch.message_ids good_disk 9 fresh_id (likes_rice ∷ []) refl
          (early 1 under_way (abort_and_wait under_way) refl refl aborted_there)
          (unfold contains in refl, tt)))

-- Both memories become one, and nothing is outdated.
abbrev merge : Merge
merge = record {
  sources = likes_tea ∷ likes_rice ∷ [];
  content = codes "likes rice with tea";
  tags = codes "food" ∷ [];
}

-- The id is longer than all others.
abbrev longer_id : List Text → Text
longer_id [] = codes "m"
longer_id (t ∷ ts) = t ++ longer_id ts

ids_differ : ¬ (codes "a" ≡ codes "b")
ids_differ h = ground (arith, h)

stored-Distinct : Distinct (load_memory brain_store).entries
unfolding load_memory loaded
stored-Distinct x y (Memᴰ.head e) (Memᴰ.head f) same = e ∙ sym f
stored-Distinct x y (Memᴰ.tail (Memᴰ.head e)) (Memᴰ.tail (Memᴰ.head f)) same = e ∙ sym f
stored-Distinct x y (Memᴰ.head e) (Memᴰ.tail (Memᴰ.head f)) same =
    absurd (ids_differ (sym (ap (λ k. k.id) e) ∙ same ∙ ap (λ k. k.id) f))
stored-Distinct x y (Memᴰ.tail (Memᴰ.head e)) (Memᴰ.head f) same =
    absurd (ids_differ (sym (ap (λ k. k.id) f) ∙ sym same ∙ ap (λ k. k.id) e))
stored-Distinct x y (Memᴰ.head e) (Memᴰ.tail (Memᴰ.tail none_there)) same = elim none_there [ ]
stored-Distinct x y (Memᴰ.tail (Memᴰ.head e)) (Memᴰ.tail (Memᴰ.tail none_there)) same =
    elim none_there [ ]
stored-Distinct x y (Memᴰ.tail (Memᴰ.tail none_there)) b same = elim none_there [ ]

reflection_loses_nothing_example :
    let t =
      (apply_reflection longer_id good_disk 9 (merge ∷ []) (codes "a" ∷ []) none brain_store).0 in
    let e = loaded (codes "7") likes_tea in
    Memᴰ e t.brain.entries
    ⊎ (Archived e t.brain.merge_archives ⊎ Outdated (codes "a" ∷ []) (merge ∷ []) none e)
unfolding load_memory
reflection_loses_nothing_example =
    reflection_loses_nothing longer_id good_disk 9 (merge ∷ []) (codes "a" ∷ []) none brain_store
      refl refl stored-Distinct (loaded (codes "7") likes_tea) (Memᴰ.head refl)
