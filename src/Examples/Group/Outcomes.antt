-- ===== src/Examples/Group/Outcomes.antt =====
-- The theorems on rollbacks, guards and windows at concrete inputs.
use frost_agent.Prelude.{
  reverse, ◌≤◌, ◌≡◌, ◌⊎◌, refl, true, false, none, [], ◌∷◌, ◌++◌, pos, length, map,
}
use frost_agent.Text.{codes, trim_space, text_eq, contains}
use frost_agent.GroupCompact.Message.{format_display}
use frost_agent.GroupCompact.State.{GroupState}
use frost_agent.GroupCompact.Compact.{
  commit_snapshot, commit_compact, commit_with_persistence, clear_group, reset_group_compact,
  reset_session_group,
}
use frost_agent.GroupCompact.Revoke.{drop_message_checked}
use frost_agent.GroupCompact.Distill.{begin_distillation, is_refused}
use frost_agent.GroupCompact.Guard.{Guard}
use frost_agent.GroupCompact.Rollback.{
  drop_undoes_commit, older_batch_stays, clear_then_drop_revives, resets_and_distillation,
}
use frost_agent.GroupCompact.Recent.{snapshot_context}
use frost_agent.GroupCompact.Recent.Window.{total_length, Cut, recent_bounded}
use frost_agent.Examples.Group.{
  slot, first, third, two, batch, both, summary, distilling, store, typed,
}

drop_undoes_commit_example :
    let t = (drop_message_checked 12 store typed (commit_compact 9 both summary two).0).0 in
    (t.summary ≡ codes "so far") × (t.groups ≡ [])
unfolding trim_space commit_compact commit_with_persistence contains text_eq
drop_undoes_commit_example = drop_undoes_commit 9 12 store typed two refl both summary refl refl

older_batch_stays_example :
    let later_batch = batch 3 (third ∷ []) in
    let t = (commit_compact 9 later_batch summary (commit_compact 9 both summary two).0).0 in
    (drop_message_checked 12 store typed t).0.summary ≡ trim_space summary
unfolding trim_space commit_compact commit_with_persistence commit_snapshot contains text_eq
older_batch_stays_example =
    older_batch_stays 9 12 store typed two refl both (batch 3 (third ∷ [])) summary summary refl
      refl refl

clear_then_drop_revives_example :
    ((clear_group 9 distilling).summary ≡ [])
    × ((drop_message_checked 12 store typed (clear_group 9 distilling)).0.summary ≡ codes "before")
unfolding trim_space contains text_eq
clear_then_drop_revives_example = clear_then_drop_revives 9 12 store typed distilling refl refl

resets_and_distillation_example :
    ((begin_distillation both (reset_group_compact 9 distilling)).1.0 ≡ none)
    × (is_refused both (reset_session_group 9 distilling) ≡ is_refused both distilling)
resets_and_distillation_example = resets_and_distillation 9 both distilling

-- A guard of a staged third message.
abbrev staged_third : GroupState
staged_third = record two { buffer = two.buffer ++ slot 3 third true ∷ []; sequence = 3 }

abbrev guard : Guard
guard = record { sequences = 3 ∷ []; message_id = third; sender_id = []; finalized = false }

recent_bounded_example :
    let c = snapshot_context (pos 1) (pos 8) first two in
    (length c.recent_messages ≤ 1)
    × (total_length c.recent_messages ≤ 8)
    × ((c.recent_messages ≡ map format_display c.recent_structured_messages)
        ⊎ Cut 8 (reverse two.buffer) c.recent_messages c.recent_structured_messages)
recent_bounded_example = recent_bounded 1 8 first two
