-- ===== src/GroupCompact/Revoke.antt =====
-- internal/llm/session.go: dropping a message from everything that it has reached.
use frost_agent.Prelude.{
  ℕ, zero, suc, ◌+◌, Bool, true, false, ◌&&◌, ◌||◌, not, Option, none, some, List, [], ◌∷◌, ◌++◌,
  u64, ◌==◌, if◌then◌else◌, any, keep, lookup,
}
use frost_agent.Text.{codes, Text, is_empty, trim_space, contains, text_eq}
use frost_agent.GroupCompact.Buffer.{Slot}
use frost_agent.GroupCompact.State.{GroupState}
use frost_agent.GroupCompact.Compact.{abort_ids}

-- The slots that a drop removes: a staged slot by its number, or for number 0 those of a message.
unfoldable pub drops : ℕ → Text → Slot → Bool
drops zero id item = text_eq item.message.message_id id
drops (suc n) id item = item.staged && item.sequence == suc n

remove_slots : ℕ → Text → GroupState → GroupState
remove_slots seq id s = record s { buffer = keep (λ item. not (drops seq id item)) s.buffer }

-- Whether the latest summary was made from the message.
unfoldable pub is_polluted : Text → GroupState → Bool
is_polluted id s =
    not (is_empty id)
    && (contains s.last_message_ids id || any (λ g. contains g.message_ids id) s.groups)

roll_back : GroupState → GroupState
roll_back s = record s {
  summary = s.prev_summary;
  groups = s.prev_groups;
  prev_summary = [];
  prev_groups = [];
  last_message_ids = [];
  last_sender_ids = [];
}

-- Adds to revokedMessageIDs and takes the sources of the message out of validCommittedSources.
revoke : Text → GroupState → GroupState
revoke id s = record s {
  revoked = if is_empty id then s.revoked else id ∷ s.revoked;
  sources =
      if is_empty id then s.sources else keep (λ e. not (contains e.1.message_ids id)) s.sources;
}

-- The registered barriers whose snapshot holds the message.
unfoldable pub affected : Text → GroupState → List ℕ
affected id s =
    if is_empty id
    then []
    else keep
        (λ k. elim (lookup k s.distillations) [
          | none ↦ false
          | some d ↦ contains d.snapshot.message_ids id
        ])
        s.registered

has_any : List ℕ → Bool
has_any [] = false
has_any (k ∷ ks) = true

-- The call of PurgeDistilledEntries; `store` answers for a message id with its error.
purge : Option (Text → Option Text) → Text → Option Text
purge none id = none
purge (some store) id = if is_empty id then none else (elim (store id) [
  | none ↦ none
  | some err ↦ some (codes "purge distilled group memory: " ++ err)
])

-- The state that a drop leaves, for the trimmed message id. The steps before the last leave the
-- barriers as they are.
unfoldable pub drop_state : ℕ → ℕ → Text → GroupState → GroupState
unfolding remove_slots roll_back revoke
drop_state now seq id s =
    let s1 = remove_slots seq id s in
    let s2 = if is_polluted id s1 then roll_back s1 else s1 in
    let s3 = revoke id s2 in
    record s3 {
      generation = u64 (s.generation + 1);
      updated_at = now;
      distillations = abort_ids (affected id s) s.distillations;
    }

-- The flag that a drop returns.
unfoldable pub drop_hits : ℕ → Text → GroupState → Bool
unfolding has_any
drop_hits seq id s =
    any (drops seq id) s.buffer
    || is_polluted id s
    || (not (is_empty id) && any (λ e. contains e.1.message_ids id) s.sources)
    || has_any (affected id s)

-- DropGroupCompactSlotChecked
unfoldable pub drop_slot_checked :
    ℕ → Option (Text → Option Text) → ℕ → Text → GroupState → GroupState × (Bool × Option Text)
unfolding purge
drop_slot_checked now store seq message_id s =
    let id = trim_space message_id in
    if seq == 0 && is_empty id
    then (s, (false, none))
    else (drop_state now seq id s, (drop_hits seq id s, purge store id))

-- DropGroupCompactMessageChecked
unfoldable pub drop_message_checked :
    ℕ → Option (Text → Option Text) → Text → GroupState → GroupState × (Bool × Option Text)
drop_message_checked now store message_id s = drop_slot_checked now store 0 message_id s
