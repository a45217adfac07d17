-- ===== src/Summaries/Ids/Agreement.antt =====
-- The names of one group have one canonical id.
use frost_agent.Prelude.{
  ◌≡◌, refl, sym, ◌∙◌, ap, ◌++◌, false, Option-cases, Bool-cases, inl, inr, All,
}
use frost_agent.Text.{Text, codes, is_empty, is_space, trim_left, trim_space}
use frost_agent.Text.Trim.{
  Trimmed, trim_right, trim_space-id, trim_space-Trimmed, trim_right-append,
}
use frost_agent.Sessions.Keys.{cut_prefix, first_cut, group_prefixes}
use frost_agent.Sessions.Keys.Canonical.{cut_prefix-append, group_key-Trimmed}
use frost_agent.Summaries.Ids.{canonical_group, canonical_session_id, names_of, session_id_aliases}

-- An id without a platform in front.
record CanonicalId (s : Text) : Type 0 where
  trimmed : Trimmed s
  fixed : canonical_group s ≡ s

canonical_group-CanonicalId : (s : Text) → Trimmed s → CanonicalId (canonical_group s)
unfolding canonical_group first_cut cut_prefix
canonical_group-CanonicalId s v = elim (Option-cases (first_cut group_prefixes s)) [
  | inr (cut, e) ↦ rw e (record { trimmed = group_key-Trimmed s cut v e; fixed = refl })
  | inl no_group ↦ rw no_group (record { trimmed = v; fixed = rw no_group refl })
]

canonical_session_id-id : (s : Text) → CanonicalId s → canonical_session_id s ≡ s
unfolding canonical_session_id
canonical_session_id-id s v = ap canonical_group (trim_space-id s v.trimmed) ∙ v.fixed

canonical_session_id-CanonicalId : (s : Text) → CanonicalId (canonical_session_id s)
unfolding canonical_session_id
canonical_session_id-CanonicalId s =
    canonical_group-CanonicalId (trim_space s) (trim_space-Trimmed s)

pub canonical_session_id_idem :
    (s : Text) → canonical_session_id (canonical_session_id s) ≡ canonical_session_id s
canonical_session_id_idem s =
    canonical_session_id-id (canonical_session_id s) (canonical_session_id-CanonicalId s)

pub canonical_session_id-trim :
    (s : Text) → canonical_session_id (trim_space s) ≡ canonical_session_id s
unfolding canonical_session_id
canonical_session_id-trim s =
    ap canonical_group (trim_space-id (trim_space s) (trim_space-Trimmed s))

-- A platform in front of a trimmed id changes nothing.
with_platform :
    (platform key c : Text)
    → trim_left (platform ++ key) ≡ platform ++ key
    → is_empty key ≡ false
    → trim_right key ≡ key
    → canonical_group (platform ++ key) ≡ c
    → canonical_session_id (platform ++ key) ≡ c
unfolding canonical_session_id
with_platform platform key c left solid right e =
    ap canonical_group (
      trim_space-id (platform ++ key)
        (record { left = left; right = trim_right-append platform key solid right }))
    ∙ e

names_of-agree : (c : Text) → CanonicalId c → All (λ a. canonical_session_id a ≡ c) (names_of c)
unfolding names_of canonical_group first_cut cut_prefix trim_left is_space
names_of-agree c v = elim (Option-cases (cut_prefix (codes "group:") c)) [
  | inl no_group ↦ rw no_group (canonical_session_id-id c v, tt)
  | inr (id, e) ↦
      let key = codes "group:" ++ id in
      let whole : c ≡ key = cut_prefix-append (codes "group:") c id e in
      let right : trim_right key ≡ key = ap trim_right (sym whole) ∙ v.trimmed.right ∙ whole in
      rw e (
        canonical_session_id-id c v,
        (
          with_platform (codes "aiocqhttp:") key c refl refl right (sym whole),
          (
            with_platform (codes "qq:") key c refl refl right (sym whole),
            (with_platform (codes "onebot:") key c refl refl right (sym whole), tt),
          ),
        ),
      )
]

-- Every name that sessionIDAliases lists for an id has the id's canonical id.
pub session_id_aliases-agree :
    (s : Text) → All (λ a. canonical_session_id a ≡ canonical_session_id s) (session_id_aliases s)
unfolding session_id_aliases
session_id_aliases-agree s = elim (Bool-cases (is_empty (canonical_session_id s))) [
  | inl blank ↦ rw blank tt
  | inr solid ↦
      rw solid (names_of-agree (canonical_session_id s) (canonical_session_id-CanonicalId s))
]
