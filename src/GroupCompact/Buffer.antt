-- ===== src/GroupCompact/Buffer.antt =====
-- internal/llm/session.go: the slots of groupCompactBuffer, their eviction, and the walks over them.
pub mod Evict
pub mod Order
use frost_agent.Prelude.{
  ℕ, zero, suc, ◌+◌, ◌-◌, Bool, true, false, not, ◌&&◌, List, [], ◌∷◌, ltb, leb, ◌==◌,
  if◌then◌else◌, length, drop, keep, map,
}
use frost_agent.Text.{Text, text_eq}
use frost_agent.GroupCompact.Message.{GroupCompactMessage}

-- groupCompactItem
pub record Slot : Type 0 where
  pub sequence : ℕ  -- uint64
  pub message : GroupCompactMessage
  pub staged : Bool

-- The first pass of the eviction: the oldest committed slots, at most `excess` of them.
unfoldable pub evict_committed : ℕ → ℕ → List Slot → List Slot
evict_committed excess dropped [] = []
evict_committed excess dropped (item ∷ rest) =
    let out = not item.staged && ltb dropped excess in
    let rest' = evict_committed excess (if out then dropped + 1 else dropped) rest in
    if out then rest' else item ∷ rest'

-- The second pass drops the oldest slots of all, until `max` are left.
unfoldable pub enforce_cap : ℕ → List Slot → List Slot
unfolding evict_committed
enforce_cap max buffer =
    if ltb max (length buffer)
    then (let kept = evict_committed (length buffer - max) 0 buffer in
        if ltb max (length kept) then drop (length kept - max) kept else kept)
    else buffer

-- The slots before the first staged one.
unfoldable pub eligible : List Slot → List Slot
eligible [] = []
eligible (item ∷ rest) = if item.staged then [] else item ∷ eligible rest

-- Clears the mark of the staged slots that pass the test.
unfoldable pub unstage : (Slot → Bool) → List Slot → List Slot
unstage hit [] = []
unstage hit (item ∷ rest) =
    (if item.staged && hit item then record item { staged = false } else item) ∷ unstage hit rest

-- What is left behind the slots up to a sequence number, from the front on.
unfoldable pub after_sequence : ℕ → List Slot → List Slot
after_sequence through [] = []
after_sequence through (item ∷ rest) =
    if leb item.sequence through then after_sequence through rest else item ∷ rest

abbrev pub is_staged : Slot → Bool
is_staged item = item.staged

abbrev pub is_committed : Slot → Bool
is_committed item = not item.staged
