-- ===== src/History/Removal.antt =====
-- Removing one message by its number, and the compactions that do not go through.
use frost_agent.Prelude.{
  ℕ, zero, suc, ◌≤◌, ◌≡◌, refl, sym, List, [], ◌∷◌, none, some, arith, Bool, true, false, ◌==◌,
  Option-cases, inl, inr, not, keep, All,
}
use frost_agent.History.{
  with_input, assign_history, ChatMessage, HistoryState, resync, renumber, place, remove_at,
  drop_message, add_message_at_epoch, add_message, replace_messages, trim_history, drop_last,
  clear_history,
}
use frost_agent.History.Numbers.{Numbered}
use frost_agent.History.Calls.{
  Sound, Call, add, input, assign, replace, trim, pop, remove, start_compact, commit, cancel, clear,
  reset, step,
}
use frost_agent.History.Private.{PrivateSnapshot, already_compacting, snapshot, snapshot_private}

-- The messages with their numbers.
abbrev pub entries : List ℕ → List ChatMessage → List (ℕ × ChatMessage)
entries [] ms = []
entries (n ∷ ns) [] = []
entries (n ∷ ns) (m ∷ ms) = (n, m) ∷ entries ns ms

abbrev pub is_other : ℕ → ℕ × ChatMessage → Bool
is_other id e = not (e.0 == id)

-- Above `lo` no entry has a number up to it.
entries-other :
    (id lo hi : ℕ) (ns : List ℕ) (ms : List ChatMessage)
    → id ≤ lo
    → Numbered lo hi ns ms
    → keep (is_other id) (entries ns ms) ≡ entries ns ms
entries-other id lo hi [] [] h v = refl
entries-other id lo hi [] (m ∷ ms) h v = absurd v
entries-other id lo hi (n ∷ ns) [] h v = absurd v
entries-other id lo hi (n ∷ ns) (m ∷ ms) h v = ground (arith, entries-other id n hi ns ms)

entries-absent :
    (id : ℕ) (ns : List ℕ) (ms : List ChatMessage)
    → place id ns ≡ none
    → keep (is_other id) (entries ns ms) ≡ entries ns ms
unfolding place
entries-absent id [] ms h = refl
entries-absent id (n ∷ ns) [] h = refl
entries-absent id (n ∷ ns) (m ∷ ms) h = ground (arith, entries-absent id ns ms)

entries-remove_at :
    (id lo hi i : ℕ) (ns : List ℕ) (ms : List ChatMessage)
    → Numbered lo hi ns ms
    → place id ns ≡ some i
    → entries (remove_at i ns) (remove_at i ms) ≡ keep (is_other id) (entries ns ms)
unfolding place remove_at
entries-remove_at id lo hi i [] [] v h = refl
entries-remove_at id lo hi i [] (m ∷ ms) v h = absurd v
entries-remove_at id lo hi i (n ∷ ns) [] v h = absurd v
entries-remove_at id lo hi zero (n ∷ ns) (m ∷ ms) v h = ground (arith, entries-other id n hi ns ms)
entries-remove_at id lo hi (suc i) (n ∷ ns) (m ∷ ms) v h =
    ground (arith, entries-remove_at id n hi i ns ms v.2)

-- With sound numbers DropMessage removes the message with the number and no other, and a number that
-- no message has removes nothing.
pub drop_message_exact :
    (id : ℕ) (s : HistoryState)
    → Sound s
    → let t = drop_message id s in
      entries t.seqs t.history ≡ keep (is_other id) (entries s.seqs s.history)
unfolding drop_message
drop_message_exact id s v = elim (Option-cases (place id s.seqs)) [
  | inl e ↦ rw (e, drop_message) (sym (entries-absent id s.seqs s.history e))
  | inr (i, e) ↦
      rw (e, drop_message) (entries-remove_at id 0 s.next_seq i s.seqs s.history v.numbered e)
]

-- A call that neither ends a compaction nor resets the session.
abbrev keeps_compacting : Call → Bool
keeps_compacting (commit print snap summary) = false
keeps_compacting cancel = false
keeps_compacting reset = false
keeps_compacting _ = true

step-compacting :
    (now : ℕ) (c : Call) (s : HistoryState)
    → keeps_compacting c ≡ true
    → s.compacting ≡ true
    → (step now c s).compacting ≡ true
unfolding step
step-compacting now (add m epoch) s h v =
    unfold add_message_at_epoch add_message resync renumber in ground arith
step-compacting now (input durable) s h v = unfold with_input resync renumber in ground arith
step-compacting now (assign ms) s h v = unfold assign_history in v
step-compacting now (replace ms) s h v = unfold replace_messages renumber in v
step-compacting now (trim max) s h v = unfold trim_history renumber in ground arith
step-compacting now pop s h v = unfold drop_last in ground arith
step-compacting now (remove id) s h v = unfold drop_message in ground arith
step-compacting now start_compact s h v = unfold snapshot_private in ground arith
step-compacting now (commit print snap summary) s h v = cc
step-compacting now cancel s h v = cc
step-compacting now clear s h v = unfold clear_history in v
step-compacting now reset s h v = cc

unfoldable pub run : List (ℕ × Call) → HistoryState → HistoryState
run [] s = s
run ((now, c) ∷ cs) s = run cs (step now c s)

abbrev pub KeepsCompacting : List (ℕ × Call) → Type 0
KeepsCompacting cs = All (λ e. keeps_compacting e.1 ≡ true) cs

run-compacting :
    (cs : List (ℕ × Call)) (s : HistoryState)
    → KeepsCompacting cs
    → s.compacting ≡ true
    → (run cs s).compacting ≡ true
unfolding run
run-compacting [] s h v = v
run-compacting ((now, c) ∷ cs) s h v =
    run-compacting cs (step now c s) h.1 (step-compacting now c s h.0 v)

snapshot_starts :
    (s s1 : HistoryState) (snap : PrivateSnapshot)
    → snapshot_private s ≡ (s1, snapshot snap)
    → s1.compacting ≡ true
unfolding snapshot_private
snapshot_starts s s1 snap h = ground arith

-- Between a snapshot and the next commit, cancel or reset, whatever else is called, a second
-- compaction is refused and changes nothing.
pub one_compaction :
    (s s1 : HistoryState) (snap : PrivateSnapshot) (cs : List (ℕ × Call))
    → snapshot_private s ≡ (s1, snapshot snap)
    → KeepsCompacting cs
    → snapshot_private (run cs s1) ≡ (run cs s1, already_compacting)
unfolding snapshot_private
one_compaction s s1 snap cs h quiet =
    ground (arith, run-compacting cs s1 quiet (snapshot_starts s s1 snap h))
