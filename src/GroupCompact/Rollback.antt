-- ===== src/GroupCompact/Rollback.antt =====
-- What a drop does to the running summary.
use frost_agent.Prelude.{ℕ, ◌≡◌, refl, true, false, Option, none, [], arith}
use frost_agent.Text.{Text, is_empty, trim_space, contains}
use frost_agent.GroupCompact.State.{GroupState, Snapshot}
use frost_agent.GroupCompact.Compact.{
  commit_snapshot, commit_compact, commit_with_persistence, clear_group, reset_session_group,
  reset_group_compact,
}
use frost_agent.GroupCompact.Revoke.{
  is_polluted, drop_state, drop_slot_checked, drop_message_checked,
}
use frost_agent.GroupCompact.Distill.{refuses, is_refused, begin_distillation}

module _ (now later : ℕ) (store : Option (Text → Option Text)) (message_id : Text) (s : GroupState)
    (named : is_empty (trim_space message_id) ≡ false) where
  -- After a commit that succeeded, a drop of a message of its batch, by an id that is not blank,
  -- takes the commit back: the summary and the mapping are those from before it.
  pub drop_undoes_commit :
      (snap : Snapshot) (summary : Text)
      → (commit_compact now snap summary s).1 ≡ true
      → contains snap.message_ids (trim_space message_id) ≡ true
      → let t =
          (drop_message_checked later store message_id (commit_compact now snap summary s).0).0 in
        (t.summary ≡ s.summary) × (t.groups ≡ s.groups)
  unfolding drop_message_checked drop_slot_checked drop_state is_polluted commit_compact
      commit_with_persistence commit_snapshot
  drop_undoes_commit snap summary done held = ground arith

  -- Two batches are committed one after the other, and then a message is dropped that the first held
  -- and the second did not: the summary of the second commit, which went on from the first, stays the
  -- running one.
  pub older_batch_stays :
      (first second : Snapshot) (summary summary' : Text)
      → (commit_compact now second summary' (commit_compact now first summary s).0).1 ≡ true
      → contains first.message_ids (trim_space message_id) ≡ true
      → contains second.message_ids (trim_space message_id) ≡ false
      → let t = (commit_compact now second summary' (commit_compact now first summary s).0).0 in
        (drop_message_checked later store message_id t).0.summary ≡ trim_space summary'
  unfolding drop_message_checked drop_slot_checked drop_state is_polluted commit_compact
      commit_with_persistence commit_snapshot
  older_batch_stays first second summary summary' done held other = ground arith

  -- Clear empties the running summary, but a later drop of a message of the batch that was
  -- committed last before it brings the summary from before that commit back.
  pub clear_then_drop_revives :
      contains s.last_message_ids (trim_space message_id) ≡ true
      → ((clear_group now s).summary ≡ [])
        × ((drop_message_checked later store message_id (clear_group now s)).0.summary
            ≡ s.prev_summary)
  unfolding drop_message_checked drop_slot_checked drop_state is_polluted clear_group
  clear_then_drop_revives held = ground arith

-- Right after ResetGroupCompact no batch is admitted to distillation; right after ResetSession
-- exactly those are that were before it.
pub resets_and_distillation :
    (now : ℕ) (snap : Snapshot) (s : GroupState)
    → ((begin_distillation snap (reset_group_compact now s)).1.0 ≡ none)
      × (is_refused snap (reset_session_group now s) ≡ is_refused snap s)
unfolding begin_distillation is_refused refuses reset_group_compact reset_session_group
resets_and_distillation now snap s = (refl, refl)
