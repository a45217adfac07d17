-- ===== src/History/Resets.antt =====
-- What Clear and ResetSession do to a compaction that is under way.
use frost_agent.Prelude.{
  ℕ, ◌+◌, ◌≤◌, ◌<◌, ◌≡◌, refl, ◌∙◌, ap, List, [], ◌∷◌, u64, u64_mod, arith, length, true, false,
  Bool, All, ◌==◌, ==_iff,
}
use frost_agent.Text.{Text, is_empty, trim_space}
use frost_agent.History.{
  with_input, assign_history, ContentPart, HistoryState, ChatMessage, add_message,
  add_message_at_epoch, resync, renumber, replace_messages, trim_history, drop_last, drop_message,
  clear_history, reset_history,
}
use frost_agent.History.Calls.{
  Call, add, input, assign, replace, trim, pop, remove, start_compact, commit, cancel, clear, reset,
  step, Sound,
}
use frost_agent.History.Private.{
  PrivateSnapshot, snapshot, snapshot_private, install, commit_private, cancel_private,
  summary_message, ack_message,
}
use frost_agent.History.Growth.{
  Grown, numbers_for, add_all, messages_of, add_all-Grown, Grown-Sound, keep_after-new,
  last_number-Numbered,
}
use frost_agent.History.Compaction.{snapshot-Sound, install_lem}
use frost_agent.History.Removal.{run}

abbrev keeps_epoch : Call → Bool
keeps_epoch reset = false
keeps_epoch _ = true

abbrev pub KeepsEpoch : List (ℕ × Call) → Type 0
KeepsEpoch cs = All (λ e. keeps_epoch e.1 ≡ true) cs

resync-epoch : (s : HistoryState) → (resync s).epoch ≡ s.epoch
unfolding resync renumber
resync-epoch s = ground arith

step-epoch :
    (now : ℕ) (c : Call) (s : HistoryState) → keeps_epoch c ≡ true → (step now c s).epoch ≡ s.epoch
unfolding step
step-epoch now (add m epoch) s h =
    unfold add_message_at_epoch add_message in ground (arith, resync-epoch s)
step-epoch now (input durable) s h = unfold with_input in resync-epoch s
step-epoch now (assign ms) s h = unfold assign_history in refl
step-epoch now (replace ms) s h = unfold replace_messages renumber in refl
step-epoch now (trim max) s h = unfold trim_history renumber in ground arith
step-epoch now pop s h = unfold drop_last in ground arith
step-epoch now (remove id) s h = unfold drop_message in ground arith
step-epoch now start_compact s h = unfold snapshot_private in ground (arith, resync-epoch s)
step-epoch now (commit print snap summary) s h =
    unfold commit_private install in ground (arith, resync-epoch s)
step-epoch now cancel s h = unfold cancel_private in refl
step-epoch now clear s h = unfold clear_history in refl
step-epoch now reset s h = cc

run-epoch : (cs : List (ℕ × Call)) (s : HistoryState) → KeepsEpoch cs → (run cs s).epoch ≡ s.epoch
unfolding run
run-epoch [] s h = refl
run-epoch ((now, c) ∷ cs) s h = run-epoch cs (step now c s) h.1 ∙ step-epoch now c s h.0

-- A private compaction of a session with sound numbers is under way when ResetSession is called.
-- Whatever is called after that, except for another reset, the commit of its summary is refused and
-- changes no message. The epoch is a uint64.
pub reset_refuses_commit :
    (s s1 : HistoryState) (snap : PrivateSnapshot) (at now : ℕ) (cs : List (ℕ × Call))
    (print : List ContentPart → Text) (summary : Text)
    → Sound s
    → snapshot_private s ≡ (s1, snapshot snap)
    → s.epoch < u64_mod
    → KeepsEpoch cs
    → let t = run cs (reset_history at s1) in
      commit_private now print snap summary t ≡ (record t { compacting = false }, false)
unfolding commit_private
reset_refuses_commit s s1 snap at now cs print summary v taken bound quiet =
    let (left, answer) = snapshot-Sound s s1 snap v taken in
    let t = run cs (reset_history at s1) in
    let moved : t.epoch ≡ u64 (s.epoch + 1) =
      run-epoch cs (reset_history at s1) quiet ∙ unfold reset_history in rw left refl in
    let old : snap.epoch ≡ s.epoch = rw answer refl in ground (arith, moved, old)

-- A private compaction that is under way outlives Clear: in a session with sound numbers, whose
-- counter is assumed not to wrap, a summary of the cleared conversation that is not blank is
-- committed after Clear and after messages that came behind it, and is put in front of these
-- messages.
pub clear_then_commit_revives :
    (s s1 : HistoryState) (snap : PrivateSnapshot) (at now : ℕ) (xs : List (ℕ × ChatMessage))
    (print : List ContentPart → Text) (summary : Text)
    → Sound s
    → snapshot_private s ≡ (s1, snapshot snap)
    → s.next_seq + length xs < u64_mod
    → is_empty (trim_space summary) ≡ false
    → let t = add_all xs (clear_history at s1) in
      let r = commit_private now print snap summary t in
      ((clear_history at s1).history ≡ [])
      × (r.1 ≡ true)
      × (r.0.history ≡ summary_message (trim_space summary) ∷ ack_message ∷ messages_of xs)
clear_then_commit_revives s s1 snap at now xs print summary v taken h e =
    let (left, answer) = snapshot-Sound s s1 snap v taken in
    let s2 = clear_history at s1 in
    let v2 : Sound s2 = unfold clear_history in record { numbered = tt } in
    let next : s2.next_seq ≡ s.next_seq = unfold clear_history in rw left refl in
    let t = add_all xs s2 in
    let g : Grown s2 t (numbers_for s2 xs) (messages_of xs) =
      add_all-Grown xs s2 (omega (arith, next)) v2 in
    let same_epoch : (t.epoch == snap.epoch) ≡ true =
      (==_iff t.epoch snap.epoch).1 (g.epoch ∙ unfold clear_history in rw (left, answer) refl) in
    let done : commit_private now print snap summary t
        ≡ (install now print snap (trim_space summary) t, true) =
      unfold commit_private in rw (same_epoch, e) in
    let (bound, _, _) =
      last_number-Numbered 0 s.next_seq s.seqs s.history (omega arith) v.numbered in
    let last : snap.last_seq ≤ s2.next_seq =
      omega (arith, next, bound, ap (λ x. x.last_seq) answer) in
    let shape : (t.seqs ≡ numbers_for s2 xs) × (t.history ≡ messages_of xs) =
      unfold clear_history in (g.seqs, g.history) in
    rw done (
      (unfold clear_history in refl),
      refl,
      install_lem now print snap (trim_space summary) t
            (Grown-Sound s2 t (numbers_for s2 xs) (messages_of xs) v2 g)
          ∙ ap (λ rest. summary_message (trim_space summary) ∷ ack_message ∷ rest)
              (rw (shape.0, shape.1)
                (keep_after-new snap.last_seq s2.next_seq t.next_seq (numbers_for s2 xs)
                  (messages_of xs) last g.numbered)),
    )
