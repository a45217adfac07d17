-- ===== src/GroupCompact/Ingest.antt =====
-- internal/llm/session.go: appending, staging and promoting group messages.
use frost_agent.Prelude.{
  ℕ, zero, suc, ◌+◌, Bool, true, false, ◌&&◌, Option, none, some, List, [], ◌∷◌, ◌++◌, u64, ℤ, ◌==◌,
  if◌then◌else◌, length, any,
}
use frost_agent.Text.{Text, codes, is_empty, text_eq, trim_space}
use frost_agent.GroupCompact.Message.{
  GroupCompactMessage, no_message, or_else, first_id, parse_message,
}
use frost_agent.GroupCompact.Buffer.{Slot, enforce_cap, unstage}
use frost_agent.GroupCompact.State.{GroupState, buffer_limit}

-- The dynamic types that an `item any` is accepted in.
pub data Item : Type 0 where
  value : GroupCompactMessage → Item
  pointer : Option GroupCompactMessage → Item
  string : Text → Item
  stringer : Text → Item  -- what its String method returns
  other : Item

-- msg.MessageID is filled in from the argument where it is empty.
abbrev with_id : GroupCompactMessage → List Text → GroupCompactMessage
with_id m ids = record m { message_id = or_else m.message_id (first_id ids) }

-- The type switch; `none` is the default case.
unfoldable pub resolve : Item → List Text → Option GroupCompactMessage
resolve (value m) ids = some (with_id m ids)
resolve (pointer none) ids = some no_message
resolve (pointer (some m)) ids = some (with_id m ids)
resolve (string s) ids = some (parse_message s ids)
resolve (stringer s) ids = some (parse_message s ids)
resolve other ids = none

abbrev pub new_slot : ℕ → GroupCompactMessage → Bool → Slot
new_slot seq m staged = record {
  sequence = seq;
  message = record m { role = or_else m.role (codes "user") };
  staged = staged;
}

-- The part under the lock.
unfoldable pub push_message : ℕ → GroupCompactMessage → Bool → ℕ → GroupState → GroupState × (ℕ × ℕ)
push_message now m staged max s =
    let seq = u64 (s.sequence + 1) in
    let buffer = enforce_cap max (s.buffer ++ new_slot seq m staged ∷ []) in
    (record s { sequence = seq; buffer = buffer; updated_at = now }, (seq, length buffer))

unfoldable pub append_resolved :
    Option GroupCompactMessage → ℕ → Bool → ℕ → GroupState → GroupState × (ℕ × ℕ)
append_resolved none now staged max s = (s, (0, 0))
append_resolved (some m) now staged max s =
    if is_empty (trim_space m.content) then (s, (0, 0)) else push_message now m staged max s

-- appendGroupCompactInternal: the new state, the slot's number and the length of the buffer.
unfoldable pub append_internal : ℕ → Item → Bool → ℤ → List Text → GroupState → GroupState × (ℕ × ℕ)
unfolding append_resolved
append_internal now item staged max ids s =
    append_resolved (resolve item ids) now staged (buffer_limit max) s

-- AppendGroupCompactMessage
unfoldable pub append_message : ℕ → Item → ℤ → List Text → GroupState → GroupState × ℕ
append_message now item max ids s =
    let (s', (seq, n)) = append_internal now item false max ids s in (s', n)

-- StageGroupCompactSlot
unfoldable pub stage_slot : ℕ → Item → ℤ → List Text → GroupState → GroupState × (ℕ × ℕ)
stage_slot now item max ids s = append_internal now item true max ids s

-- The slots that PromoteGroupCompactSlot is about: by number, or for number 0 by message id.
unfoldable pub promotes : ℕ → Text → Slot → Bool
promotes zero id item = text_eq item.message.message_id id
promotes (suc n) id item = item.sequence == suc n

unfoldable pub promote_slot : ℕ → ℕ → Text → GroupState → GroupState × Bool
promote_slot now seq message_id s =
    let id = trim_space message_id in
    let promoted = any (λ item. item.staged && promotes seq id item) s.buffer in
    if seq == 0 && is_empty id
    then (s, false)
    else (if promoted
        then (record s { buffer = unstage (promotes seq id) s.buffer; updated_at = now }, true)
        else (s, false))

-- PromoteGroupCompactMessage
unfoldable pub promote_message : ℕ → Text → GroupState → GroupState × Bool
promote_message now message_id s =
    let id = trim_space message_id in if is_empty id then (s, false) else promote_slot now 0 id s

-- The walk of SetImageDescription: the first slot that fits, or `none`.
unfoldable pub describe : ℕ → Text → List Slot → Option (List Slot)
describe seq description [] = none
describe seq description (item ∷ rest) =
    let rest' = describe seq description rest in
    let m = item.message in
    if item.sequence == seq && (item.staged && text_eq m.role (codes "user"))
    then some (record item { message = record m { image_description = description } } ∷ rest)
    else (elim rest' [ none ↦ none | some xs ↦ some (item ∷ xs) ])
