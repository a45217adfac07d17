-- ===== src/GroupCompact/Commit.antt =====
-- SnapshotGroupCompact and CommitGroupCompact with other calls between them.
use frost_agent.Prelude.{
  ℕ, ◌+◌, ◌≤◌, ◌<◌, ◌≡◌, refl, sym, ◌∙◌, ap, Bool, true, false, not, some, List, [], ◌∷◌, ℤ,
  u64_mod, arith, length, keep, map, ltb,
}
use frost_agent.Text.{Text, is_empty, trim_space}
use frost_agent.GroupCompact.Buffer.{Slot, eligible}
use frost_agent.GroupCompact.Buffer.Order.{Between, after_sequence-keep}
use frost_agent.GroupCompact.State.{GroupState, Snapshot}
use frost_agent.GroupCompact.Compact.{
  snapshot_compact, last_sequence, commit_compact, commit_with_persistence, commit_snapshot,
  set_running_summary,
}
use frost_agent.GroupCompact.Invariant.{Ordered}
use frost_agent.GroupCompact.Counter.{quiet_run-Ordered}
use frost_agent.GroupCompact.Ingest.{append_internal, append_resolved, push_message, promote_slot}
use frost_agent.GroupCompact.Guard.{set_image_description}
use frost_agent.GroupCompact.Distill.{begin_distillation, cleanup_distillation}
use frost_agent.GroupCompact.Ops.{
  Quiet, append, promote, picture, commit, set_summary, begin, cleanup, quiet_step, quiet_run,
}

-- Whether a slot came after a sequence number.
abbrev pub is_newer : ℕ → Slot → Bool
is_newer through item = ltb through item.sequence

last_sequence-le :
    (lo hi : ℕ) (xs : List Slot) → Between lo hi xs → lo ≤ last_sequence lo (eligible xs)
unfolding last_sequence eligible
last_sequence-le lo hi [] b = omega arith
last_sequence-le lo hi (x ∷ xs) b = ground (arith, last_sequence-le x.sequence hi xs b.2)

abbrev pub is_summarised : ℕ → Slot → Bool
is_summarised through item = not (is_newer through item)

keep-none_older :
    (t lo hi : ℕ) (xs : List Slot) → t ≤ lo → Between lo hi xs → keep (is_summarised t) xs ≡ []
keep-none_older t lo hi [] h b = refl
keep-none_older t lo hi (x ∷ xs) h b = ground (arith, keep-none_older t x.sequence hi xs)

-- The slots up to the last eligible one are the eligible ones.
keep-eligible :
    (t lo hi : ℕ) (xs : List Slot)
    → t ≡ last_sequence lo (eligible xs)
    → Between lo hi xs
    → keep (is_summarised t) xs ≡ eligible xs
unfolding last_sequence eligible
keep-eligible t lo hi [] h b = refl
keep-eligible t lo hi (x ∷ xs) h b = ground (
  arith,
  keep-none_older t lo hi (x ∷ xs),
  keep-eligible t x.sequence hi xs,
  last_sequence-le x.sequence hi xs b.2,
)

-- A batch as SnapshotGroupCompact describes it.
record Describes (s : GroupState) (snap : Snapshot) : Type 0 where
  messages : snap.messages ≡ map (λ item. item.message) (eligible s.buffer)
  through : snap.through ≡ last_sequence 0 (eligible s.buffer)
  generation : snap.generation ≡ s.generation

snapshot-Describes :
    (size : ℤ) (s : GroupState) (snap : Snapshot)
    → snapshot_compact size s ≡ some snap
    → Describes s snap
unfolding snapshot_compact
snapshot-Describes size s snap h = ground arith

-- The messages of a snapshot are those of the slots up to its sequence number.
pub snapshot-messages :
    (size : ℤ) (s : GroupState) (snap : Snapshot)
    → Ordered s
    → snapshot_compact size s ≡ some snap
    → snap.messages ≡ map (λ item. item.message) (keep (is_summarised snap.through) s.buffer)
snapshot-messages size s snap v h =
    let d = snapshot-Describes size s snap h in
    d.messages
    ∙ ap (map (λ item. item.message))
        (sym (keep-eligible snap.through 0 s.sequence s.buffer d.through v.rising))

quiet_step-generation :
    (now : ℕ) (q : Quiet) (s : GroupState) → (quiet_step now q s).generation ≡ s.generation
unfolding quiet_step
quiet_step-generation now (append item staged max ids) s =
    unfold append_internal append_resolved push_message in ground arith
quiet_step-generation now (promote seq id) s = unfold promote_slot in ground arith
quiet_step-generation now (picture text g) s = unfold set_image_description in ground arith
quiet_step-generation now (commit snap summary persist) s =
    unfold commit_with_persistence commit_snapshot in ground arith
quiet_step-generation now (set_summary summary) s = unfold set_running_summary in refl
quiet_step-generation now (begin snap) s = unfold begin_distillation in ground arith
quiet_step-generation now (cleanup id snap) s = unfold cleanup_distillation in refl

pub quiet_run-generation :
    (qs : List (ℕ × Quiet)) (s : GroupState) → (quiet_run qs s).generation ≡ s.generation
unfolding quiet_run
quiet_run-generation [] s = refl
quiet_run-generation ((now, q) ∷ qs) s =
    quiet_run-generation qs (quiet_step now q s) ∙ quiet_step-generation now q s

last_sequence-hi :
    (lo hi : ℕ) (xs : List Slot) → lo ≤ hi → Between lo hi xs → last_sequence lo (eligible xs) ≤ hi
unfolding last_sequence eligible
last_sequence-hi lo hi [] h b = h
last_sequence-hi lo hi (x ∷ xs) h b = ground (arith, last_sequence-hi x.sequence hi xs b.1 b.2)

-- What a commit with the right generation and a summary leaves.
commit_compact-applies :
    (now : ℕ) (snap : Snapshot) (summary : Text) (s : GroupState)
    → snap.generation ≡ s.generation
    → is_empty (trim_space summary) ≡ false
    → commit_compact now snap summary s ≡ (commit_snapshot now snap (trim_space summary) s, true)
unfolding commit_compact commit_with_persistence
commit_compact-applies now snap summary s g e = ground arith

-- A snapshot is taken from an ordered session, other calls follow that drop and reset nothing, and
-- then a summary that is not blank is committed; the sequence counter is assumed not to wrap. The
-- commit succeeds and installs the trimmed summary; the snapshot's messages were those of the slots
-- up to its number, which is not above any number given out before it; and the buffer loses these
-- slots alone: every slot with a higher number, whether it stood there at the snapshot or came
-- later, stays in its place.
pub commit_exact :
    (size : ℤ) (s : GroupState) (snap : Snapshot) (qs : List (ℕ × Quiet)) (now : ℕ) (summary : Text)
    → Ordered s
    → s.sequence + length qs < u64_mod
    → snapshot_compact size s ≡ some snap
    → is_empty (trim_space summary) ≡ false
    → let t = quiet_run qs s in
      let r = commit_compact now snap summary t in
      (r.1 ≡ true)
      × (r.0.summary ≡ trim_space summary)
      × (snap.messages ≡ map (λ item. item.message) (keep (is_summarised snap.through) s.buffer))
      × (snap.through ≤ s.sequence)
      × (r.0.buffer ≡ keep (is_newer snap.through) t.buffer)
commit_exact size s snap qs now summary v h taken e =
    let d = snapshot-Describes size s snap taken in
    let t = quiet_run qs s in
    let w = (quiet_run-Ordered qs s h v).0 in
    let done =
      commit_compact-applies now snap summary t (d.generation ∙ sym (quiet_run-generation qs s))
        e in
    (
      ap (λ r. r.1) done,
      ap (λ r. r.0.summary) done ∙ unfold commit_snapshot in refl,
      snapshot-messages size s snap v taken,
      omega (arith, d.through, last_sequence-hi 0 s.sequence s.buffer (omega arith) v.rising),
      ap (λ r. r.0.buffer) done
          ∙ (unfold commit_snapshot in
              after_sequence-keep 0 t.sequence snap.through t.buffer w.rising),
    )
