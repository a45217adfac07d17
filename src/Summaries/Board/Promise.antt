-- ===== src/Summaries/Board/Promise.antt =====
-- The summary store as its callers use it: opened from a file, called, and read.
use frost_agent.Prelude.{
  ◌≡◌, refl, subst, ◌∙◌, ap, inl, inr, true, false, Option, none, some, List, [], ◌∷◌, arith, All,
  map, ==_iff, ◌==◌, Bool-cases, Option-cases,
}
use frost_agent.Text.{Text, is_empty, trim_space, text_eq, text_eq_iff}
use frost_agent.Text.Maps.{find}
use frost_agent.Summaries.Ids.{canonical_session_id}
use frost_agent.Summaries.Ids.Agreement.{canonical_session_id-trim}
use frost_agent.Summaries.{
  Summary, Records, Store, generation_at, generation, persist, replaced, upsert, get, open_store,
}
use frost_agent.Summaries.Board.{text_of, view, same_group, Request, Surroundings}
use frost_agent.Summaries.Board.Refinement.{written-view}
use frost_agent.Summaries.Board.Runs.{
  replaced-Canonical, Open, Steps, serve_all, serve_all_refines, serve_all-Open, open_store-Open,
}

find-canonical_id :
    (k : Text) (r : Summary) (records : Records)
    → All (λ e. canonical_session_id e.0 ≡ e.0) records
    → find k records ≡ some r
    → canonical_session_id k ≡ k
unfolding find
find-canonical_id k r [] v h = ground arith
find-canonical_id k r ((j, a) ∷ rest) v h = elim (Bool-cases (text_eq j k)) [
  | inl same ↦ subst (λ t. canonical_session_id t ≡ t) ((text_eq_iff j k).0 same) v.0
  | inr other ↦ find-canonical_id k r rest v.1 (ground (arith, h, other))
]

-- Get answers with what the board has.
pub get-view :
    (s : Store) (k : Text)
    → Open s
    → (r : Option Summary) × (get s k ≡ inr r) × (text_of r ≡ (view s k).summary)
unfolding get view
get-view s k v = elim (Option-cases (find (canonical_session_id k) s.records)) [
  | inr (r, e) ↦ (some r, rw (v.free, e) refl, rw e refl)
  | inl missing ↦ elim (Option-cases (find k s.records)) [
    | inl nowhere ↦ (none, rw (v.free, missing, nowhere) refl, rw missing refl)
    | inr (r, e) ↦
        let own : canonical_session_id k ≡ k = find-canonical_id k r s.records v.canonical e in
        let gone : find k s.records ≡ none = rw own at missing in absurd (ground (arith, e, gone))
  ]
]

-- A store that is opened from a readable file behaves as a board with a summary and a deletion
-- epoch for each group, whatever the disk and the save hook answer: each call of Upsert and Delete
-- answers, and changes the board, as a step of the board may, and Get afterwards answers without
-- an error, under every name of a group, with the summary that the board has for it.
pub store_refines :
    (rows : List Summary) (cs : List (Surroundings × Request))
    → let (t, answers) = serve_all cs (open_store (inr rows)) in
      Steps (view (open_store (inr rows))) (map (λ c. c.1) cs) answers (view t)
      × ((k : Text) → (r : Option Summary) × (get t k ≡ inr r) × (text_of r ≡ (view t k).summary))
store_refines rows cs =
    let s = open_store (inr rows) in
    (
      serve_all_refines cs s,
      λ k. get-view (serve_all cs s).0 k (serve_all-Open cs s (open_store-Open rows)),
    )

text_of-some :
    (o : Option Summary) (text : Text)
    → text_of o ≡ some text
    → (r : Summary) × (o ≡ some r) × (r.summary ≡ text)
text_of-some none text h = ground arith
text_of-some (some r) text h = (r, refl, ground (arith, h))

upsert-written :
    (w : Surroundings) (s : Store) (id text : Text)
    → Open s
    → is_empty (trim_space id) ≡ false
    → is_empty (trim_space text) ≡ false
    → persist w.save s (replaced w.now (trim_space id) (trim_space text) s.records) ≡ none
    → upsert w.now w.save s id text (generation s id) ≡ (
      record s { records = replaced w.now (trim_space id) (trim_space text) s.records },
      inr true,
    )
unfolding upsert generation
upsert-written w s id text v given full saved =
    let own : (generation_at (canonical_session_id (trim_space id)) s.generations
          == generation_at (canonical_session_id id) s.generations)
        ≡ true =
      (==_iff _ _).1 (ap (λ c. generation_at c s.generations) (canonical_session_id-trim id)) in
    simp (given, full, own, v.free, saved)

-- In a store that was opened from a readable file, after any row of calls: an Upsert of a summary
-- that is not blank, for an id that is not blank, with the epoch that Generation answers, where the
-- hook and the disk make no error, answers true, and Get under every name of the group then answers
-- with the trimmed summary.
pub write_then_read :
    (rows : List Summary) (cs : List (Surroundings × Request)) (w : Surroundings) (id text : Text)
    → let s = (serve_all cs (open_store (inr rows))).0 in
      is_empty (trim_space id) ≡ false
      → is_empty (trim_space text) ≡ false
      → persist w.save s (replaced w.now (trim_space id) (trim_space text) s.records) ≡ none
      → let (t, a) = upsert w.now w.save s id text (generation s id) in
        (a ≡ inr true)
        × ((k : Text)
            → same_group k id ≡ true
            → (r : Summary) × (get t k ≡ inr (some r)) × (r.summary ≡ trim_space text))
write_then_read rows cs w id text given full saved =
    let s = (serve_all cs (open_store (inr rows))).0 in
    let v = serve_all-Open cs (open_store (inr rows)) (open_store-Open rows) in
    let t = record s { records = replaced w.now (trim_space id) (trim_space text) s.records } in
    let t_open : Open t = record {
      free = v.free;
      canonical = replaced-Canonical w.now (trim_space id) (trim_space text) s.records v.canonical;
    } in
    rw (upsert-written w s id text v given full saved) (
      refl,
      λ k same.
          let (o, got, seen) = get-view t k t_open in
          let now_there = rw same at (written-view w.now id text s k) in
          let (r, is_r, e) =
            text_of-some o (trim_space text) (seen ∙ ap (λ x. x.summary) now_there) in
          (r, (got ∙ ap inr is_r), e),
    )
