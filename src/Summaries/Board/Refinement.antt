-- ===== src/Summaries/Board/Refinement.antt =====
-- The summary store against the board that its callers see.
use frost_agent.Prelude.{
  false, ℕ, suc, ◌==◌, ◌≡◌, refl, ap, inl, inr, true, none, some, List, ◌||◌, if◌then◌else◌, u64,
  arith, Bool-cases, Option-cases,
}
use frost_agent.Text.{Text, is_empty, trim_space, text_eq}
use frost_agent.Text.Maps.{find, remove_all}
use frost_agent.Summaries.Ids.{canonical_session_id}
use frost_agent.Summaries.Ids.Agreement.{canonical_session_id_idem, canonical_session_id-trim}
use frost_agent.Summaries.{
  Records, Store, generation, generation_at, advance_epoch, replaced, any_record, persist, upsert,
  delete_summary,
}
use frost_agent.Summaries.Board.{
  Entry, text_of, view, same_group, write, erase, Step, written, stale, refused, erased, kept,
  blank, Surroundings, done,
}
use frost_agent.Summaries.Board.Changes.{
  generation_at-advance_epoch, find-replaced, names, find-deleted, find-unknown,
}

entry-eq : {a b : Entry} → a.summary ≡ b.summary → a.epoch ≡ b.epoch → a ≡ b
entry-eq {a} {b} h g = cc

same_group-trim :
    (k id : Text)
    → text_eq (canonical_session_id k) (canonical_session_id (trim_space id)) ≡ same_group k id
same_group-trim k id = rw (canonical_session_id-trim id) refl

-- The board after a write that went through.
pub written-view :
    (now : ℕ) (id text : Text) (s : Store) (k : Text)
    → view (record s { records = replaced now (trim_space id) (trim_space text) s.records }) k ≡ (
        if same_group k id
        then record { summary = some (trim_space text); epoch = (view s k).epoch }
        else view s k)
unfolding view
written-view now id text s k =
    let c = canonical_session_id k in
    let e =
      find-replaced now (trim_space id) (trim_space text) c s.records
        (canonical_session_id_idem k) in
    elim (Bool-cases (same_group k id)) [
      | inl same ↦ rw same (entry-eq (ground (arith, e, same_group-trim k id, same)) refl)
      | inr other ↦ rw other (entry-eq (ground (arith, e, same_group-trim k id, other)) refl)
    ]

-- The epochs after Delete.
advanced :
    (id k : Text) (gens : List (Text × ℕ))
    → generation_at (canonical_session_id k) (advance_epoch (trim_space id) gens) ≡ (
        if same_group k id
        then u64 (suc (generation_at (canonical_session_id k) gens))
        else generation_at (canonical_session_id k) gens)
advanced id k gens = rw (← same_group-trim k id) (
    generation_at-advance_epoch (trim_space id) (canonical_session_id k) gens
      (canonical_session_id_idem k))

-- The board after Delete where the summary is gone, and where it stays.
erased-view :
    (id : Text) (s : Store) (records : Records) (k : Text)
    → find (canonical_session_id k) records
      ≡ (if same_group k id then none else find (canonical_session_id k) s.records)
    → view
        (record s { records = records; generations = advance_epoch (trim_space id) s.generations })
        k
      ≡ (if same_group k id
          then record { summary = none; epoch = u64 (suc (view s k).epoch) }
          else view s k)
unfolding view generation
erased-view id s records k h =
    let e = advanced id k s.generations in
    elim (Bool-cases (same_group k id)) [
      | inl same ↦ rw same (entry-eq (ap text_of (rw same at h)) (rw same at e))
      | inr other ↦ rw other (entry-eq (ap text_of (rw other at h)) (rw other at e))
    ]

kept-view :
    (id : Text) (s : Store) (k : Text)
    → view (record s { generations = advance_epoch (trim_space id) s.generations }) k ≡ (
        if same_group k id
        then record { summary = (view s k).summary; epoch = u64 (suc (view s k).epoch) }
        else view s k)
unfolding view generation
kept-view id s k =
    let e = advanced id k s.generations in
    elim (Bool-cases (same_group k id)) [
      | inl same ↦ rw same (entry-eq refl (rw same at e))
      | inr other ↦ rw other (entry-eq refl (rw other at e))
    ]

module _ (w : Surroundings) (s : Store) where
  pub upsert_refines :
      (id text : Text) (epoch : ℕ)
      → let (t, a) = upsert w.now w.save s id text epoch in
        Step (view s) (write id text epoch) a (view t)
  unfolding upsert generation view
  upsert_refines id text epoch =
      let sid = trim_space id in
      let summary = trim_space text in
      let next = replaced w.now sid summary s.records in
      let own : generation_at (canonical_session_id sid) s.generations ≡ (view s id).epoch =
        ap (λ c. generation_at c s.generations) (canonical_session_id-trim id) in
      elim (Bool-cases (is_empty sid || is_empty summary)) [
        | inl missing ↦ rw missing refused
        | inr given ↦
            elim (Bool-cases (generation_at (canonical_session_id sid) s.generations == epoch)) [
              | inr old ↦ rw (given, old) (stale (λ e. absurd (ground (arith, own, old, e))))
              | inl current ↦ elim (Option-cases s.blocked) [
                | inr (e, blocked) ↦ rw (given, current, blocked) refused
                | inl free ↦ elim (Option-cases (persist w.save s next)) [
                  | inr (e, failed) ↦ rw (given, current, free, failed) refused
                  | inl saved ↦
                      rw (given, current, free, saved)
                        (written given (ground (arith, own, current))
                          (written-view w.now id text s))
                ]
              ]
            ]
      ]

  pub delete_refines :
      (id : Text)
      → let (t, a) = delete_summary w.save s id in Step (view s) (erase id) (done a) (view t)
  unfolding delete_summary view
  delete_refines id =
      let sid = trim_space id in
      let next = remove_all (names sid) s.records in
      let s' = record s { generations = advance_epoch sid s.generations } in
      let gone : is_empty sid ≡ false
          → (records : Records)
          → ((k : Text)
              → find (canonical_session_id k) records ≡ (
                  if text_eq (canonical_session_id k) (canonical_session_id sid)
                  then none
                  else find (canonical_session_id k) s.records))
          → Step (view s) (erase id) (inr true) (view (record s' { records = records })) =
        λ given records h.
          erased given (λ k. erased-view id s records k (rw (← same_group-trim k id) (h k))) in
      elim (Bool-cases (is_empty sid)) [
        | inl empty ↦ rw empty (blank empty)
        | inr given ↦ elim (Option-cases s.blocked) [
          | inr (e, blocked) ↦ rw (given, blocked) (kept given (kept-view id s))
          | inl free ↦ elim (Bool-cases (any_record (names sid) s.records)) [
            | inr unknown ↦
                rw (given, free, unknown)
                  (gone given s.records
                    (λ k. find-unknown sid (canonical_session_id k) s.records unknown))
            | inl known ↦ elim (Option-cases (persist w.save s' next)) [
              | inr (e, failed) ↦ rw (given, free, known, failed) (kept given (kept-view id s))
              | inl saved ↦
                  rw (given, free, known, saved)
                    (gone given next (λ k.
                      find-deleted sid (canonical_session_id k) s.records
                        (canonical_session_id_idem k)))
            ]
          ]
        ]
      ]
