-- ===== src/History/Compaction.antt =====
-- What the compaction of a private chat keeps and replaces.
use frost_agent.Prelude.{
  ℕ, zero, suc, ◌+◌, ◌<◌, ◌≡◌, refl, sym, ◌∙◌, ap, List, ◌∷◌, u64, u64_mod, arith, length, true,
  false, ◌==◌, ==_refl, ==_iff,
}
use frost_agent.Text.{Text, is_empty, trim_space}
use frost_agent.History.{ContentPart, ChatMessage, HistoryState, fresh}
use frost_agent.History.Calls.{Sound, resync-Sound}
use frost_agent.History.Private.{
  PrivateSnapshot, snapshot, snapshot_private, last_number, keep_after, install, commit_private,
  summary_message, ack_message, private_running_summary, has_private_compact,
}
use frost_agent.History.Growth.{
  Grown, numbers_for, add_all, messages_of, add_all-Grown, Grown-Sound, keep_after-Grown,
}

-- What a snapshot leaves and answers where each message has its number.
pub snapshot-Sound :
    (s s1 : HistoryState) (snap : PrivateSnapshot)
    → Sound s
    → snapshot_private s ≡ (s1, snapshot snap)
    → (s1 ≡ record s { compacting = true })
      × (snap ≡ record {
        messages = s.history;
        count = length s.history;
        epoch = s.epoch;
        last_seq = last_number 0 s.seqs;
      })
unfolding snapshot_private
snapshot-Sound s s1 snap v h = ground (arith, resync-Sound s v)

pub install_lem :
    (now : ℕ) (print : List ContentPart → Text) (snap : PrivateSnapshot) (summary : Text)
    (s : HistoryState)
    → Sound s
    → (install now print snap summary s).history
      ≡ summary_message summary ∷ ack_message ∷ keep_after snap.last_seq s.seqs s.history
unfolding install
install_lem now print snap summary s v = rw (resync-Sound s v)

length-fresh : (n count : ℕ) → length (fresh n count) ≡ count
unfolding fresh
length-fresh n zero = refl
length-fresh n (suc count) = ap suc (length-fresh (u64 (n + 1)) count)

install-summary :
    (now : ℕ) (print : List ContentPart → Text) (snap : PrivateSnapshot) (summary : Text)
    (s : HistoryState)
    → private_running_summary (install now print snap summary s) ≡ summary
unfolding install private_running_summary has_private_compact fresh
install-summary now print snap summary s = simp (length-fresh, ==_refl)

-- A compaction of a session with sound numbers, whose counter is assumed not to wrap: a snapshot is
-- taken, messages are added, and a summary that is not blank is committed. The snapshot holds the
-- whole history of its time. The commit succeeds, ends the compaction and makes the trimmed summary
-- the running one; the history is then the summary, its acknowledgement and the added messages, all
-- of them and in their order.
pub private_commit_exact :
    (s s1 : HistoryState) (snap : PrivateSnapshot) (xs : List (ℕ × ChatMessage)) (now : ℕ)
    (print : List ContentPart → Text) (summary : Text)
    → Sound s
    → snapshot_private s ≡ (s1, snapshot snap)
    → s.next_seq + length xs < u64_mod
    → is_empty (trim_space summary) ≡ false
    → let r = commit_private now print snap summary (add_all xs s1) in
      (snap.messages ≡ s.history)
      × (r.1 ≡ true)
      × (r.0.compacting ≡ false)
      × (private_running_summary r.0 ≡ trim_space summary)
      × (r.0.history ≡ summary_message (trim_space summary) ∷ ack_message ∷ messages_of xs)
private_commit_exact s s1 snap xs now print summary v taken h e =
    let (left, answer) = snapshot-Sound s s1 snap v taken in
    let v1 : Sound s1 = rw left (record { numbered = v.numbered }) in
    let t = add_all xs s1 in
    let g : Grown s1 t (numbers_for s1 xs) (messages_of xs) = add_all-Grown xs s1 (rw left h) v1 in
    let same_epoch : (t.epoch == snap.epoch) ≡ true =
      (==_iff t.epoch snap.epoch).1 (g.epoch ∙ rw (left, answer) refl) in
    let done : commit_private now print snap summary t
        ≡ (install now print snap (trim_space summary) t, true) =
      unfold commit_private in rw (same_epoch, e) in
    rw done (
      ap (λ x. x.messages) answer,
      refl,
      (unfold install in refl),
      install-summary now print snap (trim_space summary) t,
      install_lem now print snap (trim_space summary) t
            (Grown-Sound s1 t (numbers_for s1 xs) (messages_of xs) v1 g)
          ∙ ap (λ rest. summary_message (trim_space summary) ∷ ack_message ∷ rest)
              (ap (λ last. keep_after last t.seqs t.history)
                  (ap (λ x. x.last_seq) answer ∙ sym (ap (λ x. last_number 0 x.seqs) left))
                ∙ keep_after-Grown s1 t (numbers_for s1 xs) (messages_of xs) v1 g),
    )
