-- ===== src/Summaries.antt =====
-- internal/groupsummary/store.go: the durable summaries of groups. A time is a number; what the
-- disk or the database answers to a whole replacement is an argument of the operations.
pub mod Ids
pub mod Board
use frost_agent.Prelude.{
  refl, ◌≡◌, ◌⊎◌, inl, inr, ◌++◌, ℕ, zero, suc, ◌==◌, Bool, true, false, not, ◌&&◌, ◌||◌, Option,
  none, some, List, [], ◌∷◌, ltb, if◌then◌else◌, map, u64, get_or,
}
use frost_agent.Text.{Text, codes, is_empty, trim_space, text_eq, text_ltb}
use frost_agent.Text.Maps.{find, remove, put, remove_all}
use frost_agent.Summaries.Ids.{canonical_session_id, session_id_aliases}

-- Record
pub record Summary : Type 0 where
  pub session_id : Text
  pub summary : Text
  pub created_at : ℕ
  pub updated_at : ℕ

abbrev pub Records : Type 0
Records = List (Text × Summary)

-- An error: the one that Upsert makes itself, or the text of one from outside.
pub data Failure : Type 0 where
  required : Failure
  outside : Text → Failure

-- Store, without the place where it is saved
pub record Store : Type 0 where
  pub records : Records
  pub generations : List (Text × ℕ)
  pub blocked : Option Failure  -- blockedErr
  pub save_hook : Option (Records → Option Failure)

-- What a call does to the store, with its answer: an error, or a result.
abbrev pub Outcome : Type 0 → Type 0
Outcome A = Store × (Failure ⊎ A)

-- The save hook, then the disk.
unfoldable pub persist :
    (Records → List (Text × ℕ) → Option Failure) → Store → Records → Option Failure
persist save s next =
    let hook : Records → Option Failure = elim s.save_hook [ none ↦ (λ r. none) | some h ↦ h ] in
    elim (hook next) [ some e ↦ some e | none ↦ save next s.generations ]

unfoldable pub generation_at : Text → List (Text × ℕ) → ℕ
generation_at id gens = elim (find id gens) [ none ↦ 0 | some n ↦ n ]

-- Generation
unfoldable pub generation : Store → Text → ℕ
generation s session_id = generation_at (canonical_session_id session_id) s.generations

-- Get
unfoldable pub get : Store → Text → Failure ⊎ Option Summary
get s session_id = elim s.blocked [
  | some e ↦ inl e
  | none ↦ inr (elim (find (canonical_session_id session_id) s.records) [
    | some r ↦ some r
    | none ↦ find session_id s.records
  ])
]

-- The records with the summary of a group replaced; CreatedAt is kept.
unfoldable pub replaced : ℕ → Text → Text → Records → Records
replaced now sid summary records =
    let key = canonical_session_id sid in
    let created : ℕ = elim (find key records) [ none ↦ now | some old ↦ old.created_at ] in
    let r : Summary = record {
      session_id = key;
      summary = summary;
      created_at = created;
      updated_at = now;
    } in
    put key r (remove_all (session_id_aliases sid) records)

-- Upsert
unfoldable pub upsert :
    ℕ → (Records → List (Text × ℕ) → Option Failure) → Store → Text → Text → ℕ → Outcome Bool
upsert now save s session_id text expected =
    let sid = trim_space session_id in
    let summary = trim_space text in
    let next = replaced now sid summary s.records in
    if is_empty sid || is_empty summary
    then (s, inl required)
    else (if not (generation_at (canonical_session_id sid) s.generations == expected)
        then (s, inr false)
        else (elim s.blocked [
          | some e ↦ (s, inl e)
          | none ↦ elim (persist save s next) [
            | some e ↦ (s, inl e)
            | none ↦ (record s { records = next }, inr true)
          ]
        ]))

-- s.generations[id] = n for every id but the canonical one
unfoldable pub spread : Text → ℕ → List Text → List (Text × ℕ) → List (Text × ℕ)
spread key n [] gens = gens
spread key n (id ∷ ids) gens = spread key n ids (if text_eq id key then gens else put id n gens)

-- The deletion epoch of a group, one further, under all its names.
unfoldable pub advance_epoch : Text → List (Text × ℕ) → List (Text × ℕ)
unfolding spread
advance_epoch sid gens =
    let key = canonical_session_id sid in
    let n = u64 (suc (generation_at key gens)) in
    spread key n (session_id_aliases sid) (put key n gens)

unfoldable pub any_record : List Text → Records → Bool
any_record [] records = false
any_record (k ∷ ks) records =
    let rest = any_record ks records in elim (find k records) [ none ↦ rest | some r ↦ true ]

-- Delete
unfoldable pub delete_summary :
    (Records → List (Text × ℕ) → Option Failure) → Store → Text → Outcome Unit
delete_summary save s session_id =
    let sid = trim_space session_id in
    let names = session_id_aliases sid ++ canonical_session_id sid ∷ [] in
    let next = remove_all names s.records in
    let s' = record s { generations = advance_epoch sid s.generations } in
    if is_empty sid then (s, inr tt) else (elim s.blocked [
      | some e ↦ (s', inl e)
      | none ↦
          if not (any_record names s.records) then (s', inr tt) else (elim (persist save s' next) [
            | some e ↦ (s', inl e)
            | none ↦ (record s' { records = next }, inr tt)
          ])
    ])

-- The loop of NewStore: the records that the file has, under their canonical ids; of two under one
-- id the newer one stays.
unfoldable pub take_in : Summary → Records → Records
take_in r records =
    let sid = trim_space r.session_id in
    let text = trim_space r.summary in
    let key = canonical_session_id sid in
    let r' : Summary = record r { session_id = key; summary = text } in
    let kept : Records = elim (find key records) [
      | none ↦ put key r' records
      | some old ↦ if ltb old.updated_at r.updated_at then put key r' records else records
    ] in
    if is_empty sid || is_empty text then records else kept

unfoldable pub load_records : List Summary → Records → Records
unfolding take_in
load_records [] records = records
load_records (r ∷ rs) records = load_records rs (take_in r records)

-- NewStore; `file` is what load makes of the file.
unfoldable pub open_store : Failure ⊎ List Summary → Store
unfolding load_records
open_store (inl e) = record { records = []; generations = []; blocked = some e; save_hook = none }
open_store (inr rows) = record {
  records = load_records rows [];
  generations = [];
  blocked = none;
  save_hook = none;
}

-- SetSaveHook
abbrev pub set_save_hook : Store → Option (Records → Option Failure) → Store
set_save_hook s hook = record s { save_hook = hook }

-- The order of List: the newest first, and by id where two are equally old.
unfoldable pub before : Summary → Summary → Bool
before a b =
    if a.updated_at == b.updated_at
    then text_ltb a.session_id b.session_id
    else ltb b.updated_at a.updated_at

unfoldable pub insert_summary : Summary → List Summary → List Summary
insert_summary r [] = r ∷ []
insert_summary r (x ∷ xs) =
    let rest = insert_summary r xs in if before x r then x ∷ rest else r ∷ x ∷ xs

unfoldable pub sorted : List Summary → List Summary
unfolding insert_summary
sorted [] = []
sorted (r ∷ rs) = insert_summary r (sorted rs)

-- List
unfoldable pub list : Store → Failure ⊎ List Summary
list s = elim s.blocked [ some e ↦ inl e | none ↦ inr (sorted (map (λ e. e.1) s.records)) ]
