-- ===== src/GroupMemory/Reflect/Lossless.antt =====
-- What becomes of each memory in a reflection.
use mathlib.Core.List.{Memᴰ}
use mathlib.Core.List.Memᴰ
use frost_agent.Prelude.{
  ℕ, ◌≡◌, refl, sym, ◌∙◌, subst, ◌⊎◌, inl, inr, Bool, true, false, not, ◌&&◌, ◌||◌, Option, none,
  some, List, [], ◌∷◌, ◌++◌, map, any, keep, if◌then◌else◌, arith, Bool-cases, Option-cases,
  if-case, option-case, some_injective,
}
use frost_agent.Text.{Text, text_eq, text_eq_iff, contains}
use frost_agent.GroupMemory.{MemoryEntry, MergeArchive, GroupStore, Disk, load_memory, rewrite}
use frost_agent.GroupMemory.Merging.{
  Merge, Merged, current_by_id, current_sources, same_merge_source, join_sources, merge_all,
  is_well_formed,
}
use frost_agent.GroupMemory.Reflect.{
  merge_brain, is_named, is_unchanged, expires, surviving, apply_reflection,
}

-- Some archive keeps the memory.
abbrev pub Archived : MemoryEntry → List MergeArchive → Type 0
Archived e archives = (a : MergeArchive) × Memᴰ a archives × Memᴰ e a.sources

-- No two memories have one id.
abbrev pub Distinct : List MemoryEntry → Type 0
Distinct es = (x y : MemoryEntry) → Memᴰ x es → Memᴰ y es → x.id ≡ y.id → x ≡ y

-- A memory of the list with the id.
abbrev Held : Text → List MemoryEntry → Type 0
Held id es = (x : MemoryEntry) × Memᴰ x es × (x.id ≡ id)

-- Every consumed id is that of a memory which an archive keeps.
abbrev Accounted : List MemoryEntry → Merged → Type 0
Accounted es r =
    (id : Text)
    → contains r.consumed id ≡ true
    → (x : MemoryEntry) × Memᴰ x es × (x.id ≡ id) × Archived x r.archives

current_by_id-Held :
    (id : Text) (es : List MemoryEntry) (e : MemoryEntry) → current_by_id id es ≡ some e → Memᴰ e es
unfolding current_by_id
current_by_id-Held id [] e h = absurd (ground (arith, h))
current_by_id-Held id (x ∷ es) e h = elim (Option-cases (current_by_id id es)) [
  | inr (k, there) ↦ Memᴰ.tail (current_by_id-Held id es e (there ∙ rw (there, current_by_id) at h))
  | inl nothing ↦ elim (Bool-cases (text_eq x.id id)) [
    | inl same ↦ Memᴰ.head (sym (some_injective (rw (nothing, same, current_by_id) at h)))
    | inr other ↦ absurd (ground (arith, rw (nothing, other, current_by_id) at h))
  ]
]

-- An answer that passes a test.
unless-none :
    (b : Bool) (o : Option (List MemoryEntry)) (y : List MemoryEntry)
    → (if b then none else o) ≡ some y
    → o ≡ some y
unless-none true o y h = absurd (ground (arith, h))
unless-none false o y h = h

-- All sources of a merge are current memories.
current_sources-held :
    (es : List MemoryEntry) (consumed seen : List Text) (snapshots sources : List MemoryEntry)
    → current_sources es consumed seen snapshots ≡ some sources
    → (x : MemoryEntry) → Memᴰ x sources
    → Memᴰ x es
unfolding current_sources
current_sources-held es consumed seen [] sources h x m =
    elim (subst (Memᴰ x) (sym (some_injective h)) m) [ ]
current_sources-held es consumed seen (s ∷ rest) sources h x m =
    elim (Option-cases (current_by_id s.id es)) [
      | inl nothing ↦ absurd (ground (arith, rw (nothing, current_sources) at h))
      | inr (c, there) ↦
          let bad = contains seen c.id || contains consumed c.id || not (same_merge_source c s) in
          let more = current_sources es consumed (c.id ∷ seen) rest in
          let h' =
            unless-none bad
              (elim more as (λ o. Option (List MemoryEntry)) [
                | none ↦ none
                | some ks ↦ some (c ∷ ks)
              ])
              sources (rw (there, current_sources) at h) in
          elim (Option-cases more) [
            | inl nothing ↦ absurd (ground (arith, rw nothing at h'))
            | inr (ks, found) ↦
                elim (Memᴰ.cases_cons (subst (Memᴰ x) (sym (some_injective (rw found at h'))) m)) [
                  | inl same ↦ Memᴰ.cast same (current_by_id-Held s.id es c there)
                  | inr later ↦ current_sources-held es consumed (c.id ∷ seen) rest ks found x later
                ]
          ]
    ]

contains-ids :
    (es : List MemoryEntry) (id : Text) → contains (map (λ e. e.id) es) id ≡ true → Held id es
unfolding contains
contains-ids [] id h = absurd (ground (arith, h))
contains-ids (e ∷ es) id h = elim (Bool-cases (text_eq e.id id)) [
  | inl same ↦ (e, Memᴰ.head refl, (text_eq_iff e.id id).0 same)
  | inr other ↦
      let rest = contains-ids es id (ground (arith, h, other)) in (rest.0, Memᴰ.tail rest.1, rest.2)
]

any-append : (p : Text → Bool) (xs ys : List Text) → any p (xs ++ ys) ≡ (any p xs || any p ys)
any-append p [] ys = refl
any-append p (x ∷ xs) ys = ground (arith, any-append p xs ys)

join_sources-Accounted :
    (fresh : List Text → Text) (group : Text) (now : ℕ) (merge : Merge)
    (es sources : List MemoryEntry) (r : Merged)
    → ((x : MemoryEntry) → Memᴰ x sources → Memᴰ x es)
    → Accounted es r
    → Accounted es (join_sources fresh group now merge sources r)
unfolding join_sources contains
join_sources-Accounted fresh group now merge es sources r held v id c =
    let ids = map (λ e. e.id) sources in
    let split : (contains ids id || contains r.consumed id) ≡ true =
      sym (any-append (λ t. text_eq t id) ids r.consumed) ∙ c in
    elim (Bool-cases (contains ids id)) [
      | inl new ↦
          let found = contains-ids sources id new in
          (
            found.0,
            held found.0 found.1,
            found.2,
            (_, Memᴰ.append_right r.archives (Memᴰ.head refl), found.1),
          )
      | inr not_new ↦
          let old = v id (ground (arith, split, not_new)) in
          (old.0, old.1, old.2, (old.3.0, Memᴰ.append_left _ old.3.1, old.3.2))
    ]

merge_all-Accounted :
    (fresh : List Text → Text) (group : Text) (now : ℕ) (es : List MemoryEntry)
    (merges : List Merge) (r : Merged)
    → Accounted es r
    → Accounted es (merge_all fresh group now es merges r)
unfolding merge_all
merge_all-Accounted fresh group now es [] r v = v
merge_all-Accounted fresh group now es (m ∷ ms) r v = merge_all-Accounted fresh group now es ms _ (
    if-case (Accounted es) (is_well_formed m) _ _
      (option-case (Accounted es) (current_sources es r.consumed [] m.sources) r
        (λ sources. join_sources fresh group now m sources r) v
        (λ sources found.
          join_sources-Accounted fresh group now m es sources r
            (current_sources-held es r.consumed [] m.sources sources found) v))
      v)

keep-Mem :
    (p : MemoryEntry → Bool) (es : List MemoryEntry) (x : MemoryEntry)
    → p x ≡ true
    → Memᴰ x es
    → Memᴰ x (keep p es)
keep-Mem p [] x h m = m
keep-Mem p (e ∷ es) x h m = elim (Memᴰ.cases_cons m) [
  | inl same ↦ elim (Bool-cases (p e)) [
    | inl stays ↦ rw stays (Memᴰ.head same)
    | inr leaves ↦ absurd (ground (arith, leaves, subst (λ k. p k ≡ true) same h))
  ]
  | inr later ↦
      let rest = keep-Mem p es x h later in
      if-case (Memᴰ x) (p e) (e ∷ keep p es) (keep p es) (Memᴰ.tail rest) rest
]

-- What the reflection calls outdated, that no merge has as a source and nothing has changed.
abbrev pub Outdated :
    List Text → List Merge → Option (Text → Option MemoryEntry) → MemoryEntry → Type 0
Outdated outdated merges snapshots e =
    (contains outdated e.id ≡ true)
    × (is_named merges e.id ≡ false)
    × (is_unchanged snapshots e ≡ true)

expires-Outdated :
    (outdated : List Text) (merges : List Merge) (snapshots : Option (Text → Option MemoryEntry))
    (e : MemoryEntry)
    → expires outdated merges snapshots e ≡ true
    → Outdated outdated merges snapshots e
unfolding expires
expires-Outdated outdated merges snapshots e h =
    (ground (arith, h), ground (arith, h), ground (arith, h))

nothing_consumed : (id : Text) → contains [] id ≡ false
unfolding contains
nothing_consumed id = refl

merge_brain-Accounted :
    (fresh : List Text → Text) (group : Text) (now : ℕ) (merges : List Merge)
    (es : List MemoryEntry)
    → Accounted es (merge_brain fresh group now merges es)
unfolding merge_brain
merge_brain-Accounted fresh group now merges es =
    merge_all-Accounted fresh group now es merges _
      (λ id h. absurd (ground (arith, nothing_consumed id, h)))

-- A reflection whose load and save make no error, on a store in which no two memories have one id,
-- loses no memory: each is still there as it was, or an archive keeps it as it was, or the reflection
-- calls it outdated, no merge has it as a source, and it is as it was in the snapshots, if there are
-- any.
pub reflection_loses_nothing :
    (fresh : List Text → Text) (d : Disk) (now : ℕ) (merges : List Merge) (outdated : List Text)
    (snapshots : Option (Text → Option MemoryEntry)) (m : GroupStore)
    → d.load_fails ≡ none
    → d.save_fails ≡ none
    → Distinct (load_memory m).entries
    → (e : MemoryEntry) → Memᴰ e (load_memory m).entries
    → let t = (apply_reflection fresh d now merges outdated snapshots m).0 in
      Memᴰ e t.brain.entries
      ⊎ (Archived e t.brain.merge_archives ⊎ Outdated outdated merges snapshots e)
unfolding apply_reflection rewrite surviving
reflection_loses_nothing fresh d now merges outdated snapshots m loads saves distinct e there =
    let es = (load_memory m).entries in
    let r = merge_brain fresh m.group_id now merges es in
    let old = expires outdated merges snapshots in
    rw (loads, saves, rewrite, apply_reflection)
      (elim (Bool-cases (contains r.consumed e.id)) [
        | inl consumed ↦
            let kept = merge_brain-Accounted fresh m.group_id now merges es e.id consumed in
            inr (
              inl (
                subst (λ x. Archived x ((load_memory m).merge_archives ++ r.archives))
                  (distinct kept.0 e kept.1 there kept.2)
                  (kept.3.0, Memᴰ.append_right (load_memory m).merge_archives kept.3.1, kept.3.2)))
        | inr free ↦ elim (Bool-cases (old e)) [
          | inl gone ↦ inr (inr (expires-Outdated outdated merges snapshots e gone))
          | inr stays ↦ inl (
              Memᴰ.append_left r.entries (
                keep-Mem (λ k. not (contains r.consumed k.id) && not (old k)) es e
                  (ground (arith, free, stays)) there))
        ]
      ])
