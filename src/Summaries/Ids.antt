-- ===== src/Summaries/Ids.antt =====
-- internal/groupsummary/store.go: the names of a group in the summary store.
pub mod Agreement
use frost_agent.Prelude.{none, some, List, [], ◌∷◌, ◌++◌, if◌then◌else◌}
use frost_agent.Text.{Text, codes, is_empty, trim_space}
use frost_agent.Sessions.Keys.{cut_prefix, first_cut, group_prefixes}

unfoldable pub canonical_group : Text → Text
unfolding first_cut
canonical_group s = elim (first_cut group_prefixes s) [ none ↦ s | some id ↦ codes "group:" ++ id ]

-- CanonicalSessionID
unfoldable pub canonical_session_id : Text → Text
canonical_session_id session_id = canonical_group (trim_space session_id)

unfoldable pub names_of : Text → List Text
unfolding cut_prefix
names_of canonical = elim (cut_prefix (codes "group:") canonical) [
  | some id ↦
      canonical
      ∷ (codes "aiocqhttp:group:" ++ id)
      ∷ (codes "qq:group:" ++ id)
      ∷ (codes "onebot:group:" ++ id)
      ∷ []
  | none ↦ canonical ∷ []
]

-- sessionIDAliases
unfoldable pub session_id_aliases : Text → List Text
unfolding names_of
session_id_aliases session_id =
    let canonical = canonical_session_id session_id in
    if is_empty canonical then [] else names_of canonical
