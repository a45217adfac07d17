-- ===== src/Sessions/Lookup.antt =====
-- What GetOrCreate does where every key of the map is canonical.
use frost_agent.Prelude.{
  ℕ, ◌≡◌, refl, subst, sym, ◌∙◌, ap, true, false, Option, none, some, List, [], ◌∷◌, arith, All,
  Bool-cases, Option-cases, inl, inr,
}
use frost_agent.Text.{Text, is_empty, trim_space, text_eq, text_eq_iff}
use frost_agent.Text.Trim.{trim_space-Trimmed, trim_space-id}
use frost_agent.GroupCompact.Message.{or_else}
use frost_agent.Sessions.Keys.{
  group_prefixes, private_prefixes, canonical_key, canonical_trimmed, first_cut, key_aliases,
}
use frost_agent.Sessions.Keys.Canonical.{aliases_agree, canonical_key_idem}
use frost_agent.Text.Maps.{find}
use frost_agent.Sessions.{
  found_at, Manager, key_of, add_session, find_session, create_session, get_or_create,
}

pub canonical_key-trim : (s : Text) → canonical_key (trim_space s) ≡ canonical_key s
unfolding canonical_key
canonical_key-trim s = rw (trim_space-id (trim_space s) (trim_space-Trimmed s)) refl

canonical_trimmed-not_empty :
    (s : Text) → is_empty s ≡ false → is_empty (canonical_trimmed s) ≡ false
unfolding canonical_trimmed
canonical_trimmed-not_empty s h = elim (Option-cases (first_cut group_prefixes s)) [
  | inr (cut, e) ↦ rw (canonical_trimmed, e) refl
  | inl no_group ↦ elim (Option-cases (first_cut private_prefixes s)) [
    | inr (cut, e) ↦ rw (canonical_trimmed, no_group, e) refl
    | inl no_private ↦ rw (canonical_trimmed, no_group, no_private) h
  ]
]

empty-nil : (s : Text) → is_empty s ≡ true → s ≡ []
empty-nil [] h = refl
empty-nil (c ∷ s) h = ground arith

or_else-left : (s t : Text) → is_empty s ≡ false → or_else s t ≡ s
or_else-left [] t h = ground arith
or_else-left (c ∷ s) t h = refl

or_else-canonical : (s : Text) → or_else (canonical_key s) (trim_space s) ≡ canonical_key s
unfolding canonical_key
or_else-canonical s = elim (Bool-cases (is_empty (trim_space s))) [
  | inl blank ↦ rw (canonical_key, blank) (empty-nil (trim_space s) blank)
  | inr solid ↦
      rw (canonical_key, solid)
        (or_else-left (canonical_trimmed (trim_space s)) (trim_space s)
          (canonical_trimmed-not_empty (trim_space s) solid))
]

-- canonicalID is the canonical key, also where it is empty.
pub key_of_lem : (s : Text) → key_of (trim_space s) ≡ canonical_key s
unfolding key_of
key_of_lem s = ap (λ c. or_else c (trim_space s)) (canonical_key-trim s) ∙ or_else-canonical s

-- Every key of the map is canonical.
abbrev pub AllCanonical : List (Text × ℕ) → Type 0
AllCanonical m = All (λ e. canonical_key e.0 ≡ e.0) m

find-canonical :
    (k : Text) (r : ℕ) (m : List (Text × ℕ))
    → AllCanonical m
    → find k m ≡ some r
    → canonical_key k ≡ k
unfolding find
find-canonical k r [] v h = ground arith
find-canonical k r ((j, a) ∷ rest) v h = elim (Bool-cases (text_eq j k)) [
  | inl same ↦ subst (λ t. canonical_key t ≡ t) ((text_eq_iff j k).0 same) v.0
  | inr other ↦ find-canonical k r rest v.1 (ground (arith, h, other))
]

-- Where the map has no session under the canonical key, it has none under an alias.
found_at-none :
    (c : Text) (ks : List Text) (m : List (Text × ℕ))
    → AllCanonical m
    → All (λ k. canonical_key k ≡ c) ks
    → find c m ≡ none
    → found_at ks m ≡ none
unfolding found_at
found_at-none c [] m v h e = refl
found_at-none c (k ∷ ks) m v h e = elim (Option-cases (find k m)) [
  | inl missing ↦ rw (found_at, missing) (found_at-none c ks m v h.1 e)
  | inr (r, there) ↦
      let same : k ≡ c = sym (find-canonical k r m v there) ∙ h.0 in
      let gone : find k m ≡ none = rw same e in absurd (ground (arith, there, gone))
]

-- GetOrCreate finds the session under the canonical key or makes one there.
module _ (now : ℕ) (stored : Text → Option Text) (session_id : Text) (m : Manager)
    (v : AllCanonical m.sessions) where
  other_keys :
      All
        (λ k. canonical_key k ≡ canonical_key session_id)
        (trim_space session_id ∷ key_aliases (trim_space session_id))
  other_keys = (
    canonical_key-trim session_id,
    subst (λ c. All (λ k. canonical_key k ≡ c) (key_aliases (trim_space session_id)))
        (canonical_key-trim session_id) (aliases_agree (trim_space session_id)),
  )

  pub get_or_create-found :
      (r : ℕ)
      → find (canonical_key session_id) m.sessions ≡ some r
      → get_or_create now stored session_id m ≡ (m, r)
  unfolding get_or_create find_session found_at
  get_or_create-found r e =
      rw (get_or_create, find_session, found_at, key_of_lem session_id, e) refl

  module _ (absent : find (canonical_key session_id) m.sessions ≡ none) where
    pub find_session-none : find_session (trim_space session_id) m ≡ none
    unfolding find_session
    find_session-none =
        rw
          (
            find_session,
            key_of_lem session_id,
            found_at-none (canonical_key session_id)
                (canonical_key session_id
                  ∷ trim_space session_id
                  ∷ key_aliases (trim_space session_id))
                m.sessions v (canonical_key_idem session_id, other_keys) absent,
          )
          refl

    create_session-made :
        create_session now stored (trim_space session_id) m
        ≡ add_session now stored (canonical_key session_id) (trim_space session_id) m
    unfolding create_session
    create_session-made =
        rw
          (
            create_session,
            key_of_lem session_id,
            absent,
            found_at-none (canonical_key session_id)
                (trim_space session_id ∷ key_aliases (trim_space session_id)) m.sessions v
                other_keys absent,
          )
          (ap (λ key. add_session now stored key (trim_space session_id) m) (key_of_lem session_id))

    pub get_or_create-made :
        get_or_create now stored session_id m
        ≡ add_session now stored (canonical_key session_id) (trim_space session_id) m
    unfolding get_or_create
    get_or_create-made = rw (get_or_create, find_session-none) create_session-made
