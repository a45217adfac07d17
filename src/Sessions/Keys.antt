-- ===== src/Sessions/Keys.antt =====
-- internal/memory/owner_type.go: the keys under which one conversation is known.
pub mod Canonical
use frost_agent.Prelude.{
  ℕ, Bool, true, false, ◌&&◌, Option, none, some, List, [], ◌∷◌, ◌++◌, ◌==◌, if◌then◌else◌,
}
use frost_agent.Text.{Text, codes, is_empty, trim_space}

-- strings.CutPrefix
unfoldable pub cut_prefix : Text → Text → Option Text
cut_prefix [] s = some s
cut_prefix (p ∷ ps) [] = none
cut_prefix (p ∷ ps) (c ∷ cs) = let rest = cut_prefix ps cs in if p == c then rest else none

-- The loop over prefixes: what is behind the first that fits.
unfoldable pub first_cut : List Text → Text → Option Text
unfolding cut_prefix
first_cut [] s = none
first_cut (p ∷ ps) s =
    let rest = first_cut ps s in elim (cut_prefix p s) [ none ↦ rest | some cut ↦ some cut ]

abbrev pub group_prefixes : List Text
group_prefixes = codes "aiocqhttp:group:" ∷ codes "qq:group:" ∷ codes "onebot:group:" ∷ []

abbrev pub private_prefixes : List Text
private_prefixes = codes "aiocqhttp:private:" ∷ codes "qq:private:" ∷ codes "onebot:private:" ∷ []

unfoldable pub canonical_trimmed : Text → Text
unfolding first_cut
canonical_trimmed s = elim (first_cut group_prefixes s) [
  | some cut ↦ codes "group:" ++ cut
  | none ↦ elim (first_cut private_prefixes s) [ some cut ↦ codes "private:" ++ cut | none ↦ s ]
]

-- CanonicalSessionKey
unfoldable pub canonical_key : Text → Text
unfolding canonical_trimmed
canonical_key session_id =
    let s = trim_space session_id in if is_empty s then [] else canonical_trimmed s

-- The aliases of a canonical key.
unfoldable pub aliases_of : Text → List Text
unfolding cut_prefix
aliases_of canonical = elim (cut_prefix (codes "group:") canonical) [
  | some id ↦
      canonical
      ∷ (codes "aiocqhttp:group:" ++ id)
      ∷ (codes "qq:group:" ++ id)
      ∷ (codes "onebot:group:" ++ id)
      ∷ []
  | none ↦ elim (cut_prefix (codes "private:") canonical) [
    | some id ↦
        canonical
        ∷ (codes "aiocqhttp:private:" ++ id)
        ∷ (codes "qq:private:" ++ id)
        ∷ (codes "onebot:private:" ++ id)
        ∷ []
    | none ↦ canonical ∷ []
  ]
]

-- SessionKeyAliases
unfoldable pub key_aliases : Text → List Text
unfolding aliases_of
key_aliases session_id =
    let canonical = canonical_key session_id in
    if is_empty canonical then [] else aliases_of canonical
