-- ===== src/GroupCompact/Revoked.antt =====
-- What is left of a message once it has been dropped.
use frost_agent.Prelude.{
  ℕ, ◌+◌, ◌<◌, ◌≡◌, refl, ◌∙◌, true, false, Option, none, some, List, u64, u64_mod, arith, any,
  ◌==◌, lookup,
}
use frost_agent.Text.{Text, is_empty, trim_space, text_eq, contains}
use frost_agent.Barrier.{is_writing}
use frost_agent.Barrier.Distillation.{try_begin_commit}
use frost_agent.GroupCompact.State.{GroupState, Snapshot, Distillation}
use frost_agent.GroupCompact.Compact.{commit_compact, commit_with_persistence, abort_and_wait}
use frost_agent.GroupCompact.Revoke.{
  drops, affected, drop_state, drop_slot_checked, drop_message_checked,
}
use frost_agent.GroupCompact.Distill.{begin_distillation}
use frost_agent.GroupCompact.Refusal.{
  any-keep-not, any-keep_number, lookup-abort_ids, abort_and_wait-dead, contains-cons,
  refused_of_revoked, quiet_run-revoked,
}
use frost_agent.GroupCompact.Commit.{quiet_run-generation}
use frost_agent.GroupCompact.Ops.{Quiet, quiet_run}

-- A drop by message id, for the trimmed id.
module _ (now : ℕ) (id : Text) (s : GroupState) (named : is_empty id ≡ false) where
  dropped-buffer : any (drops 0 id) (drop_state now 0 id s).buffer ≡ false
  unfolding drop_state
  dropped-buffer = ground (arith, any-keep-not (drops 0 id) s.buffer)

  dropped-revoked : contains (drop_state now 0 id s).revoked id ≡ true
  unfolding drop_state
  dropped-revoked = ground (arith, contains-cons id s.revoked)

  dropped-sources : any (λ e. contains e.1.message_ids id) (drop_state now 0 id s).sources ≡ false
  unfolding drop_state
  dropped-sources = ground (arith, any-keep-not (λ e. contains e.1.message_ids id) s.sources)

  dropped-generation : (drop_state now 0 id s).generation ≡ u64 (s.generation + 1)
  unfolding drop_state
  dropped-generation = refl

  -- The registered barrier `k` of a batch with the message has been aborted.
  dropped-distillation :
      (k : ℕ) (d : Distillation)
      → any (λ j. j == k) s.registered ≡ true
      → lookup k s.distillations ≡ some d
      → contains d.snapshot.message_ids id ≡ true
      → lookup k (drop_state now 0 id s).distillations ≡ some (abort_and_wait d)
  unfolding drop_state affected
  dropped-distillation k d r e c =
      rw named
        (lookup-abort_ids k _ s.distillations d (any-keep_number k _ s.registered r (rw e c)) e)

-- The registered barriers of batches with the message.
abbrev pub IsAffected : Text → GroupState → ℕ → Distillation → Type 0
IsAffected id s k d =
    (any (λ j. j == k) s.registered ≡ true)
    × (lookup k s.distillations ≡ some d)
    × (contains d.snapshot.message_ids id ≡ true)

module _ (now : ℕ) (store : Option (Text → Option Text)) (message_id : Text) (s : GroupState)
    (named : is_empty (trim_space message_id) ≡ false) where
  drop_lem :
      (drop_message_checked now store message_id s).0 ≡ drop_state now 0 (trim_space message_id) s
  unfolding drop_message_checked drop_slot_checked
  drop_lem = rw named

  -- When a message is dropped by an id that is not blank, no slot of the buffer and no committed source
  -- carries it behind the drop, and it is recorded as revoked. The running summary and its groups are
  -- not what this is about.
  pub drop_erases :
      let id = trim_space message_id in
      let t = (drop_message_checked now store message_id s).0 in
      (any (λ item. text_eq item.message.message_id id) t.buffer ≡ false)
      × (any (λ e. contains e.1.message_ids id) t.sources ≡ false)
      × (contains t.revoked id ≡ true)
  drop_erases =
      let id = trim_space message_id in
      rw drop_lem (
        unfold drops in dropped-buffer now id s named,
        dropped-sources now id s named,
        dropped-revoked now id s named,
      )

  -- Every registered distillation of a batch that holds a message has been aborted when a drop of
  -- the message, by an id that is not blank, returns: no write under it is under way, and none
  -- begins.
  pub drop_aborts :
      (k : ℕ) (d : Distillation)
      → IsAffected (trim_space message_id) s k d
      → let t = (drop_message_checked now store message_id s).0 in
        (lookup k t.distillations ≡ some (abort_and_wait d))
        × (is_writing (abort_and_wait d).barrier.state ≡ false)
        × ((try_begin_commit (abort_and_wait d).barrier).1 ≡ false)
  drop_aborts k d (r, e, c) = rw drop_lem (
    dropped-distillation now (trim_space message_id) s named k d r e c,
    (abort_and_wait-dead d).1,
    (abort_and_wait-dead d).0,
  )

  -- After a message was dropped by an id that is not blank, and after any further calls that drop and
  -- reset nothing, BeginGroupDistillation refuses every batch that holds the message.
  pub dropped_never_distilled :
      (qs : List (ℕ × Quiet)) (snap : Snapshot)
      → contains snap.message_ids (trim_space message_id) ≡ true
      → (begin_distillation snap (quiet_run qs (drop_message_checked now store message_id s).0)).1.0
        ≡ none
  unfolding begin_distillation
  dropped_never_distilled qs snap held =
      let t = (drop_message_checked now store message_id s).0 in
      let r : contains (quiet_run qs t).revoked (trim_space message_id) ≡ true =
        rw (quiet_run-revoked qs t, drop_lem)
          (dropped-revoked now (trim_space message_id) s named) in
      ground (arith, refused_of_revoked (trim_space message_id) snap (quiet_run qs t) r held)

  -- After a drop by an id that is not blank, and after any further calls that drop and reset nothing,
  -- the commit of a snapshot of the generation from before the drop is refused and changes nothing.
  -- The generation is a uint64.
  pub stale_commit_refused :
      (qs : List (ℕ × Quiet)) (snap : Snapshot) (later : ℕ) (summary : Text)
      → s.generation < u64_mod
      → snap.generation ≡ s.generation
      → let t = quiet_run qs (drop_message_checked now store message_id s).0 in
        commit_compact later snap summary t ≡ (t, false)
  unfolding commit_compact commit_with_persistence
  stale_commit_refused qs snap later summary bound taken =
      let t = (drop_message_checked now store message_id s).0 in
      let g : (quiet_run qs t).generation ≡ u64 (s.generation + 1) =
        quiet_run-generation qs t
        ∙ rw drop_lem (dropped-generation now (trim_space message_id) s named) in
      ground (arith, g)
