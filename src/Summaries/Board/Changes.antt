-- ===== src/Summaries/Board/Changes.antt =====
-- What the operations of the summary store change in its maps.
use frost_agent.Prelude.{
  ℕ, suc, ◌≡◌, refl, sym, ◌∙◌, ap, inl, inr, false, none, some, List, [], ◌∷◌, ◌++◌, if◌then◌else◌,
  u64, arith, All, All-append, Bool-cases, Option-cases,
}
use frost_agent.Text.{Text, text_eq, text_eq_iff}
use frost_agent.Text.Maps.{
  find, put, remove, remove_all, find-put, find-put_other, find-remove, find-remove_all_last,
}
use frost_agent.Summaries.Ids.{canonical_session_id, session_id_aliases}
use frost_agent.Summaries.Ids.Agreement.{session_id_aliases-agree, canonical_session_id_idem}
use frost_agent.Summaries.Board.{text_of}
use frost_agent.Summaries.{Records, replaced, generation_at, spread, advance_epoch, any_record}

-- Names of one group.
module _ (key : Text) where
  Names : List Text → Type 0
  Names ks = All (λ k. canonical_session_id k ≡ key) ks

  -- A canonical id that is one of them is the group's own.
  apart :
      (k c : Text)
      → canonical_session_id k ≡ key
      → canonical_session_id c ≡ c
      → text_eq key c ≡ false
      → text_eq k c ≡ false
  apart k c h v other = elim (Bool-cases (text_eq k c)) [
    | inr e ↦ e
    | inl same ↦
        let e : k ≡ c = (text_eq_iff k c).0 same in
        let e' : key ≡ c = sym h ∙ ap canonical_session_id e ∙ v in
        absurd (ground (arith, (text_eq_iff key c).1 e', other))
  ]

  pub find-remove_names :
      {A : Type 0} (c : Text) (ks : List Text) (m : List (Text × A))
      → canonical_session_id c ≡ c
      → text_eq key c ≡ false
      → All (λ k. canonical_session_id k ≡ key) ks
      → find c (remove_all ks m) ≡ find c m
  unfolding remove_all
  find-remove_names c [] m v other h = refl
  find-remove_names c (k ∷ ks) m v other h =
      find-remove_names c ks (remove k m) v other h.1 ∙ find-remove k c m (apart k c h.0 v other)

  -- The other names of a group do not touch what stands under a canonical id.
  pub find-spread :
      (c : Text) (n : ℕ) (ks : List Text) (gens : List (Text × ℕ))
      → canonical_session_id c ≡ c
      → All (λ k. canonical_session_id k ≡ key) ks
      → find c (spread key n ks gens) ≡ find c gens
  unfolding spread
  find-spread c n [] gens v h = refl
  find-spread c n (k ∷ ks) gens v h = elim (Bool-cases (text_eq k key)) [
    | inl own ↦ rw own (find-spread c n ks gens v h.1)
    | inr alias ↦ rw alias (
        find-spread c n ks (put k n gens) v h.1
        ∙ find-put_other k c n gens (elim (Bool-cases (text_eq k c)) [
          | inr e ↦ e
          | inl same ↦
              let e : k ≡ c = (text_eq_iff k c).0 same in
              let e' : k ≡ key = e ∙ sym v ∙ ap canonical_session_id (sym e) ∙ h.0 in
              absurd (ground (arith, (text_eq_iff k key).1 e', alias))
        ]))
  ]

text_eq-swap : (s t : Text) → text_eq s t ≡ false → text_eq t s ≡ false
text_eq-swap s t h = ground (arith, text_eq_iff s t, text_eq_iff t s, h)

any_record-none :
    (k : Text) (ks : List Text) (m : Records)
    → any_record (ks ++ k ∷ []) m ≡ false
    → find k m ≡ none
unfolding any_record
any_record-none k [] m h = elim (Option-cases (find k m)) [
  | inl e ↦ e
  | inr (r, e) ↦ absurd (ground (arith, h, e))
]
any_record-none k (j ∷ ks) m h = elim (Option-cases (find j m)) [
  | inl e ↦ any_record-none k ks m (ground (arith, h, e))
  | inr (r, e) ↦ absurd (ground (arith, h, e))
]

-- The epoch that stands under a canonical id after Delete of a session id.
pub generation_at-advance_epoch :
    (sid c : Text) (gens : List (Text × ℕ))
    → canonical_session_id c ≡ c
    → generation_at c (advance_epoch sid gens) ≡ (
        if text_eq c (canonical_session_id sid)
        then u64 (suc (generation_at c gens))
        else generation_at c gens)
unfolding generation_at advance_epoch
generation_at-advance_epoch sid c gens v =
    let key = canonical_session_id sid in
    let n = u64 (suc (generation_at key gens)) in
    let spread_over : find c (advance_epoch sid gens) ≡ find c (put key n gens) =
      find-spread key c n (session_id_aliases sid) (put key n gens) v
        (session_id_aliases-agree sid) in
    elim (Bool-cases (text_eq c key)) [
      | inl same ↦
          let e : c ≡ key = (text_eq_iff c key).0 same in
          rw (generation_at, spread_over, same, e, find-put key n gens) refl
      | inr other ↦
          let differ : text_eq key c ≡ false = text_eq-swap c key other in
          rw (generation_at, spread_over, other, find-put_other key c n gens differ) refl
    ]

-- The record that stands under a canonical id after Upsert.
pub find-replaced :
    (now : ℕ) (sid text c : Text) (records : Records)
    → canonical_session_id c ≡ c
    → text_of (find c (replaced now sid text records))
      ≡ (if text_eq c (canonical_session_id sid) then some text else text_of (find c records))
unfolding replaced
find-replaced now sid text c records v =
    let key = canonical_session_id sid in
    elim (Bool-cases (text_eq c key)) [
      | inl same ↦
          let e : c ≡ key = (text_eq_iff c key).0 same in
          rw (same, e, find-put key _ (remove_all (session_id_aliases sid) records)) refl
      | inr other ↦
          let differ : text_eq key c ≡ false = text_eq-swap c key other in
          rw
            (
              other,
              find-put_other key c _ (remove_all (session_id_aliases sid) records) differ,
              find-remove_names key c (session_id_aliases sid) records v differ
                  (session_id_aliases-agree sid),
            )
            refl
    ]

-- The names that Delete removes.
abbrev pub names : Text → List Text
names sid = session_id_aliases sid ++ canonical_session_id sid ∷ []

names-agree :
    (sid : Text) → All (λ k. canonical_session_id k ≡ canonical_session_id sid) (names sid)
names-agree sid =
    All-append _ (session_id_aliases sid) (canonical_session_id sid ∷ [])
      (session_id_aliases-agree sid) (canonical_session_id_idem sid, tt)

pub find-deleted :
    (sid c : Text) (records : Records)
    → canonical_session_id c ≡ c
    → find c (remove_all (names sid) records)
      ≡ (if text_eq c (canonical_session_id sid) then none else find c records)
find-deleted sid c records v =
    let key = canonical_session_id sid in
    elim (Bool-cases (text_eq c key)) [
      | inl same ↦
          let e : c ≡ key = (text_eq_iff c key).0 same in
          rw (same, e) (find-remove_all_last key (session_id_aliases sid) records)
      | inr other ↦ rw other (
          find-remove_names key c (names sid) records v (text_eq-swap c key other)
            (names-agree sid))
    ]

-- Where Delete finds nothing to remove, nothing is there.
pub find-unknown :
    (sid c : Text) (records : Records)
    → any_record (names sid) records ≡ false
    → find c records ≡ (if text_eq c (canonical_session_id sid) then none else find c records)
find-unknown sid c records h =
    let key = canonical_session_id sid in
    elim (Bool-cases (text_eq c key)) [
      | inr other ↦ rw other refl
      | inl same ↦
          let e : c ≡ key = (text_eq_iff c key).0 same in
          rw (same, e) (any_record-none key (session_id_aliases sid) records h)
    ]
