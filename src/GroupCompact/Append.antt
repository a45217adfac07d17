-- ===== src/GroupCompact/Append.antt =====
-- What appending a message does to the buffer.
use frost_agent.Prelude.{
  ℕ, ◌+◌, ◌-◌, ◌≡◌, refl, Bool, false, some, List, [], ◌∷◌, ◌++◌, ℤ, u64, arith, length, keep, min,
  drop, length-append,
}
use frost_agent.Text.{Text, is_empty, trim_space}
use frost_agent.GroupCompact.Message.{GroupCompactMessage}
use frost_agent.GroupCompact.Buffer.{Slot, is_staged, is_committed}
use frost_agent.GroupCompact.Buffer.Evict.{
  length-enforce_cap, enforce_cap-staged_all, enforce_cap-committed_all,
}
use frost_agent.GroupCompact.State.{GroupState, buffer_limit}
use frost_agent.GroupCompact.Ingest.{
  Item, resolve, new_slot, push_message, append_resolved, append_internal,
}

module _ (now : ℕ) (item : Item) (staged : Bool) (max : ℤ) (ids : List Text) (s : GroupState)
    (m : GroupCompactMessage) (message : resolve item ids ≡ some m)
    (visible : is_empty (trim_space m.content) ≡ false) where
  -- The buffer with the new slot, before the limit is enforced.
  abbrev pub grown : List Slot
  grown = s.buffer ++ new_slot (u64 (s.sequence + 1)) m staged ∷ []

  append_lem :
      append_internal now item staged max ids s ≡ push_message now m staged (buffer_limit max) s
  unfolding append_internal append_resolved
  append_lem = rw (message, visible)

  grown-length : length grown ≡ length s.buffer + 1
  grown-length = length-append s.buffer _

  -- A message of an accepted type that is not blank takes the next number, which is returned
  -- together with the length of the buffer: the old length and one, cut at the limit. The buffer
  -- loses the oldest committed slots first, as many as it is too long by, and loses staged slots,
  -- again the oldest, only by as many as the staged ones alone are above the limit.
  pub append_exact :
      let limit = buffer_limit max in
      let r = append_internal now item staged max ids s in
      let staged_slots = keep is_staged grown in
      (r.1.0 ≡ u64 (s.sequence + 1))
      × (r.1.1 ≡ length r.0.buffer)
      × (length r.0.buffer ≡ min limit (length s.buffer + 1))
      × (keep is_committed r.0.buffer
          ≡ drop (length s.buffer + 1 - limit) (keep is_committed grown))
      × (keep is_staged r.0.buffer ≡ drop (length staged_slots - limit) staged_slots)
  unfolding push_message
  append_exact = rw append_lem (
    refl,
    refl,
    omega (arith, length-enforce_cap (buffer_limit max) grown, grown-length),
    rw (← grown-length) (enforce_cap-committed_all (buffer_limit max) grown),
    enforce_cap-staged_all (buffer_limit max) grown,
  )
