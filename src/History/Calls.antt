-- ===== src/History/Calls.antt =====
-- The calls that change a history, and what they keep where each message has its number.
use frost_agent.Prelude.{
  ℕ, ◌+◌, ◌-◌, ◌≤◌, ◌<◌, ◌≡◌, Bool, false, List, [], ◌∷◌, u64, u64_mod, arith, length, true, ◌==◌,
  ◌||◌, Bool-cases, Option-cases, inl, inr, ltb, leb, ℤ, to_nat, ==_iff,
}
use frost_agent.Text.{Text, trim_space}
use frost_agent.History.{
  ContentPart, ChatMessage, HistoryState, fresh, advance, renumber, resync, add_message,
  add_message_at_epoch, with_input, assign_history, replace_messages, trim_history, drop_last,
  place, drop_message, from_core, clear_history, reset_history,
}
use frost_agent.History.Private.{
  PrivateSnapshot, snapshot_private, keep_after, install, commit_private, cancel_private,
  summary_message, ack_message,
}
use frost_agent.History.Numbers.{
  Numbered, Numbered-mono, Numbered-length, Numbered-append, Numbered-drop, Numbered-take,
  Numbered-remove_at, advance_lem, fresh-Numbered,
}

pub data Call : Type 0 where
  add : ChatMessage → ℕ → Call
  input : Text → Call
  assign : List ChatMessage → Call
  replace : List ChatMessage → Call
  trim : ℤ → Call
  pop : Call
  remove : ℕ → Call
  start_compact : Call
  commit : (List ContentPart → Text) → PrivateSnapshot → Text → Call
  cancel : Call
  clear : Call
  reset : Call

unfoldable pub step : ℕ → Call → HistoryState → HistoryState
step now (add m epoch) s = (add_message_at_epoch now m epoch s).0
step now (input durable) s = with_input now durable s
step now (assign ms) s = assign_history now ms s
step now (replace ms) s = replace_messages now ms s
step now (trim max) s = trim_history now max s
step now pop s = drop_last now s
step now (remove id) s = drop_message id s
step now start_compact s = (snapshot_private s).0
step now (commit print snap summary) s = (commit_private now print snap summary s).0
step now cancel s = cancel_private s
step now clear s = clear_history now s
step now reset s = reset_history now s

-- The direct write of History.
abbrev pub is_assign : Call → Bool
is_assign (assign ms) = true
is_assign _ = false

-- The most numbers that a call gives out, where it may have to number the whole history anew.
abbrev pub need : Call → HistoryState → ℕ
need (replace ms) s = length ms
need (assign ms) s = 0
need c s = length s.history + (length s.history + 2)

pub record Sound (s : HistoryState) : Type 0 where
  pub numbered : Numbered 0 s.next_seq s.seqs s.history

-- With a number for each message nothing is numbered anew.
pub resync-Sound : (s : HistoryState) → Sound s → resync s ≡ s
unfolding resync
resync-Sound s v =
    let e = Numbered-length 0 s.next_seq s.seqs s.history v.numbered in
    rw ((==_iff (length s.seqs) (length s.history)).1 e)

-- The next number, and its message, go to the end.
pub next_Numbered :
    (n : ℕ) (m : ChatMessage)
    → n + 1 < u64_mod
    → Numbered n (u64 (n + 1)) (u64 (n + 1) ∷ []) (m ∷ [])
next_Numbered n m h = (omega arith, omega arith, tt)

pub add-Sound :
    (now : ℕ) (m : ChatMessage) (s : HistoryState)
    → s.next_seq + 1 < u64_mod
    → Sound s
    → Sound (add_message now m s).0
unfolding add_message
add-Sound now m s h v = rw (resync-Sound s v) (record {
  numbered =
      Numbered-append 0 s.next_seq _ s.seqs _ s.history _ (omega arith) (omega arith) v.numbered
        (next_Numbered s.next_seq (from_core m) h);
})

pub input-Sound :
    (now : ℕ) (durable : Text) (s : HistoryState)
    → s.next_seq + 1 < u64_mod
    → Sound s
    → Sound (with_input now durable s)
unfolding with_input
input-Sound now durable s h v = rw (resync-Sound s v) (record {
  numbered =
      Numbered-append 0 s.next_seq _ s.seqs _ s.history _ (omega arith) (omega arith) v.numbered
        (omega arith, omega arith, tt);
})

pub renumber-Numbered :
    (n : ℕ) (ms : List ChatMessage)
    → n + length ms < u64_mod
    → Numbered 0 (advance n (length ms)) (fresh n (length ms)) ms
renumber-Numbered n ms h =
    Numbered-mono (fresh n (length ms)) ms (omega arith)
      (omega (arith, advance_lem n (length ms) h)) (fresh-Numbered n ms h)

trim-Sound : (now : ℕ) (max : ℤ) (s : HistoryState) → Sound s → Sound (trim_history now max s)
unfolding trim_history
trim-Sound now max s v =
    let n = to_nat max in
    let e = Numbered-length 0 s.next_seq s.seqs s.history v.numbered in
    elim (Bool-cases (n == 0 || leb (length s.history) n)) [
      | inl stop ↦ rw stop v
      | inr go ↦
          let long : leb n (length s.seqs) ≡ true = ground arith in
          rw (go, long)
            (record {
              numbered =
                  rw e
                    (Numbered-drop 0 s.next_seq (length s.history - n) s.seqs s.history v.numbered);
            })
    ]

pop-Sound : (now : ℕ) (s : HistoryState) → Sound s → Sound (drop_last now s)
unfolding drop_last
pop-Sound now s v =
    let n = length s.history - 1 in
    let e = Numbered-length 0 s.next_seq s.seqs s.history v.numbered in
    elim (Bool-cases (length s.history == 0)) [
      | inl stop ↦ rw stop v
      | inr go ↦
          let long : ltb n (length s.seqs) ≡ true = ground arith in
          rw (go, long)
            (record { numbered = Numbered-take 0 s.next_seq n s.seqs s.history v.numbered })
    ]

remove-Sound : (id : ℕ) (s : HistoryState) → Sound s → Sound (drop_message id s)
unfolding drop_message
remove-Sound id s v = elim (Option-cases (place id s.seqs)) [
  | inl e ↦ rw (e, drop_message) v
  | inr (i, e) ↦
      rw (e, drop_message)
        (record { numbered = Numbered-remove_at 0 s.next_seq i s.seqs s.history v.numbered })
]

pub replace-Sound :
    (now : ℕ) (ms : List ChatMessage) (s : HistoryState)
    → s.next_seq + length ms < u64_mod
    → Sound (replace_messages now ms s)
unfolding replace_messages renumber
replace-Sound now ms s h = record { numbered = renumber-Numbered s.next_seq ms h }

pub start-Sound : (s : HistoryState) → Sound s → Sound (snapshot_private s).0
unfolding snapshot_private
start-Sound s v = rw (resync-Sound s v) (ground (arith, v.numbered))

length-keep_after-le :
    (last : ℕ) (ns : List ℕ) (ms : List ChatMessage) → length (keep_after last ns ms) ≤ length ms
unfolding keep_after
length-keep_after-le last [] ms = omega arith
length-keep_after-le last (n ∷ ns) [] = omega arith
length-keep_after-le last (n ∷ ns) (m ∷ ms) = ground (arith, length-keep_after-le last ns ms)

pub install-Sound :
    (now : ℕ) (print : List ContentPart → Text) (snap : PrivateSnapshot) (summary : Text)
    (s : HistoryState)
    → s.next_seq + (length s.history + 2) < u64_mod
    → Sound s
    → Sound (install now print snap summary s)
unfolding install
install-Sound now print snap summary s h v = rw (resync-Sound s v) (record {
  numbered =
      renumber-Numbered s.next_seq
        (summary_message summary ∷ ack_message ∷ keep_after snap.last_seq s.seqs s.history)
        (omega (arith, length-keep_after-le snap.last_seq s.seqs s.history));
})

pub commit-Sound :
    (now : ℕ) (print : List ContentPart → Text) (snap : PrivateSnapshot) (summary : Text)
    (s : HistoryState)
    → s.next_seq + (length s.history + 2) < u64_mod
    → Sound s
    → Sound (commit_private now print snap summary s).0
unfolding commit_private
commit-Sound now print snap summary s h v =
    let done = install-Sound now print snap (trim_space summary) s h v in
    ground (arith, v.numbered, done.numbered)

pub step-Sound :
    (now : ℕ) (c : Call) (s : HistoryState)
    → is_assign c ≡ false
    → s.next_seq + need c s < u64_mod
    → Sound s
    → Sound (step now c s)
unfolding step
step-Sound now (add m epoch) s d h v =
    let done = add-Sound now m s (omega (arith, h)) v in
    unfold add_message_at_epoch in ground (arith, v.numbered, done.numbered)
step-Sound now (input durable) s d h v = input-Sound now durable s (omega (arith, h)) v
step-Sound now (assign ms) s d h v = absurd (ground (arith, d))
step-Sound now (replace ms) s d h v = replace-Sound now ms s h
step-Sound now (trim max) s d h v = trim-Sound now max s v
step-Sound now pop s d h v = pop-Sound now s v
step-Sound now (remove id) s d h v = remove-Sound id s v
step-Sound now start_compact s d h v = start-Sound s v
step-Sound now (commit print snap summary) s d h v =
    commit-Sound now print snap summary s (omega (arith, h)) v
step-Sound now cancel s d h v = unfold cancel_private in record { numbered = v.numbered }
step-Sound now clear s d h v = unfold clear_history in record { numbered = tt }
step-Sound now reset s d h v = unfold reset_history in record { numbered = tt }
