-- ===== src/History/Numbering.antt =====
-- The numbers of a history in every state that a session reaches, also where the engine writes the
-- history directly.
use frost_agent.Prelude.{
  ℕ, ◌+◌, ◌-◌, ◌≤◌, ◌<◌, ◌≡◌, sym, ap, subst, ◌⊎◌, inl, inr, Bool, true, false, not, ◌&&◌, ◌||◌,
  List, [], ◌∷◌, u64_mod, arith, length, drop, take, length-drop, to_nat, ltb, leb, ◌==◌, ==_iff,
  Bool-cases, Option-cases, if-case, ℤ,
}
use frost_agent.Text.{Text, is_empty, trim_space}
use frost_agent.History.{
  ContentPart, ChatMessage, HistoryState, empty_history, renumber, resync, add_message,
  add_message_at_epoch, with_input, assign_history, replace_messages, trim_history, drop_last,
  place, drop_message, clear_history, reset_history,
}
use frost_agent.History.Private.{
  PrivateSnapshot, SnapshotResult, snapshot_private, install, commit_private, cancel_private,
}
use frost_agent.History.Numbers.{
  Numbered, Numbered-drop, Numbered-take, Numbered-remove_at, advance_lem,
}
use frost_agent.History.Calls.{
  Call, add, input, assign, replace, trim, pop, remove, start_compact, commit, cancel, clear, reset,
  step, is_assign, need, Sound, resync-Sound, add-Sound, input-Sound, renumber-Numbered,
  replace-Sound, install-Sound, step-Sound,
}

-- The states of a session, as long as the counter does not wrap, and whether the history was written
-- directly on the way.
pub data Reach : Bool → HistoryState → Type 0 where
  here : Reach false empty_history
  call :
      (direct : Bool) (s : HistoryState) (now : ℕ) (c : Call)
      → s.next_seq + need c s < u64_mod
      → Reach direct s
      → Reach (is_assign c || direct) (step now c s)

-- The numbers are positive, rise, and do not pass the counter, however many messages there are.
abbrev pub Rising : HistoryState → Type 0
Rising s = (ms : List ChatMessage) × Numbered 0 s.next_seq s.seqs ms

Sound-Rising : (s : HistoryState) → Sound s → Rising s
Sound-Rising s v = (s.history, v.numbered)

-- The messages may be any others, as long as there are as many.
Numbered-others :
    (lo hi : ℕ) (ns : List ℕ) (ms xs : List ChatMessage)
    → Numbered lo hi ns ms
    → length ns ≡ length xs
    → Numbered lo hi ns xs
Numbered-others lo hi [] ms [] v e = tt
Numbered-others lo hi [] ms (x ∷ xs) v e = absurd (omega (arith, e))
Numbered-others lo hi (n ∷ ns) [] xs v e = absurd v
Numbered-others lo hi (n ∷ ns) (m ∷ ms) [] v e = absurd (omega (arith, e))
Numbered-others lo hi (n ∷ ns) (m ∷ ms) (x ∷ xs) v e =
    (v.0, v.1, Numbered-others n hi ns ms xs v.2 (omega (arith, e)))

-- Behind the comparison of the lengths, each message has its number.
resync-numbers :
    (s : HistoryState) → s.next_seq + length s.history < u64_mod → Rising s → Sound (resync s)
unfolding resync renumber
resync-numbers s h (ms, v) = elim (Bool-cases (length s.seqs == length s.history)) [
  | inl same ↦
      rw (same, resync)
        (record {
          numbered =
              Numbered-others 0 s.next_seq s.seqs ms s.history v
                ((==_iff (length s.seqs) (length s.history)).0 same);
        })
  | inr other ↦ rw (other, resync) (record { numbered = renumber-Numbered s.next_seq s.history h })
]

resync-history : (s : HistoryState) → (resync s).history ≡ s.history
unfolding resync renumber
resync-history s = ground arith

resync-counter :
    (s : HistoryState)
    → s.next_seq + length s.history < u64_mod
    → (resync s).next_seq ≤ s.next_seq + length s.history
unfolding resync renumber
resync-counter s h = ground (arith, advance_lem s.next_seq (length s.history) h)

module _ (s : HistoryState)
    (room : s.next_seq + (length s.history + (length s.history + 2)) < u64_mod) (v : Rising s) where
  settled : Sound (resync s)
  settled = resync-numbers s (omega (arith, room)) v

  twice : resync (resync s) ≡ resync s
  twice = resync-Sound (resync s) settled

  counter : (resync s).next_seq ≤ s.next_seq + length s.history
  counter = resync-counter s (omega (arith, room))

  add-Rising : (now : ℕ) (m : ChatMessage) → Rising (add_message now m s).0
  unfolding add_message
  add-Rising now m =
      let done = add-Sound now m (resync s) (omega (arith, room, counter)) settled in
      rw twice at (Sound-Rising (add_message now m (resync s)).0 done)

  input-Rising : (now : ℕ) (durable : Text) → Rising (with_input now durable s)
  unfolding with_input
  input-Rising now durable =
      let done = input-Sound now durable (resync s) (omega (arith, room, counter)) settled in
      rw twice at (Sound-Rising (with_input now durable (resync s)) done)

  install-Rising :
      (now : ℕ) (print : List ContentPart → Text) (snap : PrivateSnapshot) (summary : Text)
      → Rising (install now print snap summary s)
  unfolding install
  install-Rising now print snap summary =
      let same : length (resync s).history ≡ length s.history = ap length (resync-history s) in
      let done =
        install-Sound now print snap summary (resync s) (omega (arith, room, counter, same))
          settled in
      rw twice at (Sound-Rising (install now print snap summary (resync s)) done)

Rising-map : (s t : HistoryState) → t.seqs ≡ s.seqs → t.next_seq ≡ s.next_seq → Rising s → Rising t
Rising-map s t e f (ms, v) = (
  ms,
  subst (λ ns. Numbered 0 t.next_seq ns ms) (sym e) (subst (λ n. Numbered 0 n s.seqs ms) (sym f) v),
)

trim-Rising :
    (now : ℕ) (max : ℤ) (s : HistoryState)
    → s.next_seq + length s.history < u64_mod
    → Rising s
    → Rising (trim_history now max s)
unfolding trim_history renumber
trim-Rising now max s h (ms, v) =
    let n = to_nat max in
    let k = length s.history - n in
    elim (Bool-cases (n == 0 || leb (length s.history) n)) [
      | inl stop ↦ rw stop (ms, v)
      | inr go ↦ elim (Bool-cases (leb n (length s.seqs))) [
        | inl long ↦ rw (go, long) (_, Numbered-drop 0 s.next_seq (length s.seqs - n) s.seqs ms v)
        | inr short ↦
            rw (go, short)
              (
                _,
                renumber-Numbered s.next_seq (drop k s.history)
                    (omega (arith, h, length-drop k s.history)),
              )
      ]
    ]

pop-Rising : (now : ℕ) (s : HistoryState) → Rising s → Rising (drop_last now s)
unfolding drop_last
pop-Rising now s (ms, v) =
    let n = length s.history - 1 in
    elim (Bool-cases (length s.history == 0)) [
      | inl stop ↦ rw stop (ms, v)
      | inr go ↦ elim (Bool-cases (ltb n (length s.seqs))) [
        | inl long ↦ rw (go, long) (take n ms, Numbered-take 0 s.next_seq n s.seqs ms v)
        | inr short ↦ rw (go, short) (ms, v)
      ]
    ]

remove-Rising : (id : ℕ) (s : HistoryState) → Rising s → Rising (drop_message id s)
unfolding drop_message
remove-Rising id s (ms, v) = elim (Option-cases (place id s.seqs)) [
  | inl e ↦ rw (e, drop_message) (ms, v)
  | inr (i, e) ↦ rw (e, drop_message) (_, Numbered-remove_at 0 s.next_seq i s.seqs ms v)
]

start-Rising : (s : HistoryState) → Sound (resync s) → Rising s → Rising (snapshot_private s).0
unfolding snapshot_private
start-Rising s settled v =
    let P = λ (r : HistoryState × SnapshotResult). Rising r.0 in
    if-case P s.compacting _ _ v
      (if-case P (length s.history == 0) _ _ v ((resync s).history, settled.numbered))

commit-Rising :
    (now : ℕ) (print : List ContentPart → Text) (snap : PrivateSnapshot) (summary : Text)
    (s : HistoryState)
    → Rising (install now print snap (trim_space summary) s)
    → Rising s
    → Rising (commit_private now print snap summary s).0
unfolding commit_private
commit-Rising now print snap summary s done v =
    let P = λ (r : HistoryState × Bool). Rising r.0 in
    if-case P (not (s.epoch == snap.epoch)) _ _ v
      (if-case P (is_empty (trim_space summary)) _ _ v done)

at_epoch-Rising :
    (now : ℕ) (m : ChatMessage) (epoch : ℕ) (s : HistoryState)
    → Rising (add_message now m s).0
    → Rising s
    → Rising (add_message_at_epoch now m epoch s).0
unfolding add_message_at_epoch
at_epoch-Rising now m epoch s done v =
    if-case (λ (r : HistoryState × ℕ). Rising r.0) (not (epoch == 0) && not (s.epoch == epoch)) _ _
      v done

step-Rising :
    (now : ℕ) (c : Call) (s : HistoryState)
    → s.next_seq + need c s < u64_mod
    → Rising s
    → Rising (step now c s)
unfolding step
step-Rising now (add m epoch) s h v = at_epoch-Rising now m epoch s (add-Rising s h v now m) v
step-Rising now (input durable) s h v = input-Rising s h v now durable
step-Rising now (assign ms) s h v = unfold assign_history in v
step-Rising now (replace ms) s h v =
    Sound-Rising (replace_messages now ms s) (replace-Sound now ms s h)
step-Rising now (trim max) s h v = trim-Rising now max s (omega (arith, h)) v
step-Rising now pop s h v = pop-Rising now s v
step-Rising now (remove id) s h v = remove-Rising id s v
step-Rising now start_compact s h v = start-Rising s (settled s h v) v
step-Rising now (commit print snap summary) s h v =
    commit-Rising now print snap summary s
      (install-Rising s h v now print snap (trim_space summary)) v
step-Rising now cancel s h v = unfold cancel_private in v
step-Rising now clear s h v = unfold clear_history in ([], tt)
step-Rising now reset s h v = unfold reset_history in ([], tt)

Reach-Rising : (direct : Bool) (s : HistoryState) → Reach direct s → Rising s
Reach-Rising _ _ here = ([], tt)
Reach-Rising _ _ (call direct s now c h r) = step-Rising now c s h (Reach-Rising direct s r)

Reach-Sound : (direct : Bool) (s : HistoryState) → Reach direct s → direct ≡ false → Sound s
Reach-Sound _ _ here e = record { numbered = tt }
Reach-Sound _ _ (call direct s now c h r) e =
    step-Sound now c s (ground (arith, e)) h (Reach-Sound direct s r (ground (arith, e)))

-- In every state that a session reaches, while its counter does not wrap, be it with inputs of turns,
-- with the engine's direct writes of the history, or with any other call: the numbers are positive,
-- rise, and do not pass the counter; once a method has compared the lengths and, where they differ,
-- numbered the history anew, there is one number for each message; and where the history was never
-- written directly, there is one for each message at all times.
pub history-Numbered :
    (direct : Bool) (s : HistoryState)
    → Reach direct s
    → s.next_seq + length s.history < u64_mod
    → Rising s
      × Numbered 0 (resync s).next_seq (resync s).seqs (resync s).history
      × ((direct ≡ true) ⊎ Numbered 0 s.next_seq s.seqs s.history)
history-Numbered direct s r room =
    let rising = Reach-Rising direct s r in
    (
      rising,
      (resync-numbers s room rising).numbered,
      elim (Bool-cases direct) [
        | inl written ↦ inl written
        | inr never ↦ inr (Reach-Sound direct s r never).numbered
      ],
    )
