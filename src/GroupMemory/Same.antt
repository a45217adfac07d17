-- ===== src/GroupMemory/Same.antt =====
-- internal/memory/group_store.go and grounding.go: when two memories are one, and what their tags are.
use frost_agent.Prelude.{
  ℕ, ◌-◌, ◌==◌, Bool, false, not, ◌&&◌, ◌||◌, List, [], ◌∷◌, ◌++◌, ltb, take, length, if◌then◌else◌,
}
use frost_agent.Text.{Text, is_empty, trim_space, text_eq, contains}
use frost_agent.GroupMemory.{MemoryEntry, source_manual}

-- Both are given and are the same.
unfoldable pub agree : Text → Text → Bool
agree a b = not (is_empty a) && not (is_empty b) && text_eq a b

-- isSameGroupMemory
unfoldable pub is_same_group_memory : MemoryEntry → MemoryEntry → Bool
unfolding agree
is_same_group_memory existing incoming =
    let e = existing in
    let i = incoming in
    if not (text_eq e.source_media i.source_media)
    then false
    else if text_eq i.source source_manual
    then false
    else if text_eq e.source source_manual && is_empty e.source_message_id
    then false
    else if not (is_empty e.source_message_id) && not (is_empty i.source_message_id)
    then text_eq e.source_message_id i.source_message_id
      && (agree e.evidence i.evidence
          || agree e.evidence i.content
          || agree e.content i.evidence
          || agree e.content i.content)
    else if is_empty e.source_message_id && is_empty i.source_message_id
    then not (text_eq e.source source_manual)
      && text_eq e.owner i.owner
      && (agree e.evidence i.evidence || agree e.content i.content)
    else false

-- The loop of mergeMemoryTags; `seen` are the tags that were taken.
unfoldable pub unique_tags : List Text → List Text → List Text
unique_tags seen [] = []
unique_tags seen (tag ∷ tags) =
    let t = trim_space tag in
    let fresh = not (is_empty t) && not (contains seen t) in
    let rest = unique_tags (if fresh then t ∷ seen else seen) tags in
    if fresh then t ∷ rest else rest

-- MaxTagLength
abbrev max_tag_length : ℕ
max_tag_length = 50

-- MaxTagCount
abbrev max_tag_count : ℕ
max_tag_count = 10

-- The loop of SanitizeTags; `room` tags may still come.
unfoldable pub bounded_tags : ℕ → List Text → List Text → List Text
bounded_tags room seen [] = []
bounded_tags room seen (tag ∷ tags) =
    let trimmed = trim_space tag in
    let t = if ltb max_tag_length (length trimmed) then take max_tag_length trimmed else trimmed in
    let fresh = not (is_empty trimmed) && not (contains seen t) in
    let rest =
      bounded_tags (if fresh then room - 1 else room) (if fresh then t ∷ seen else seen) tags in
    if fresh then t ∷ (if room - 1 == 0 then [] else rest) else rest

-- SanitizeTags
unfoldable pub sanitize_tags : List Text → List Text
sanitize_tags tags = bounded_tags max_tag_count [] tags

-- mergeMemoryTags
unfoldable pub merge_memory_tags : List Text → List Text → List Text
merge_memory_tags existing incoming = sanitize_tags (unique_tags [] (existing ++ incoming))
