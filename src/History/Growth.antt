-- ===== src/History/Growth.antt =====
-- A history that has only grown.
use frost_agent.Prelude.{
  ℕ, ◌+◌, ◌≤◌, ◌<◌, ◌≡◌, refl, sym, ◌∙◌, List, [], ◌∷◌, ◌++◌, u64, u64_mod, arith, length, map,
}
use mathlib.Core.List.{append-nil, append_assoc}
use frost_agent.History.{ChatMessage, HistoryState, from_core, add_message}
use frost_agent.History.Numbers.{Numbered, Numbered-append}
use frost_agent.History.Calls.{Sound, resync-Sound, next_Numbered, add-Sound}
use frost_agent.History.Private.{last_number, keep_after}

keep_after-append :
    (last lo hi : ℕ) (ns ks : List ℕ) (ms xs : List ChatMessage)
    → Numbered lo hi ns ms
    → keep_after last (ns ++ ks) (ms ++ xs) ≡ keep_after last ns ms ++ keep_after last ks xs
unfolding keep_after
keep_after-append last lo hi [] ks [] xs v = refl
keep_after-append last lo hi [] ks (m ∷ ms) xs v = absurd v
keep_after-append last lo hi (n ∷ ns) ks [] xs v = absurd v
keep_after-append last lo hi (n ∷ ns) ks (m ∷ ms) xs v =
    ground (arith, keep_after-append last n hi ns ks ms xs v.2)

keep_after-old :
    (last lo hi : ℕ) (ns : List ℕ) (ms : List ChatMessage)
    → hi ≤ last
    → Numbered lo hi ns ms
    → keep_after last ns ms ≡ []
unfolding keep_after
keep_after-old last lo hi [] [] h v = refl
keep_after-old last lo hi [] (m ∷ ms) h v = absurd v
keep_after-old last lo hi (n ∷ ns) [] h v = absurd v
keep_after-old last lo hi (n ∷ ns) (m ∷ ms) h v =
    ground (arith, keep_after-old last n hi ns ms h v.2)

pub keep_after-new :
    (last lo hi : ℕ) (ns : List ℕ) (ms : List ChatMessage)
    → last ≤ lo
    → Numbered lo hi ns ms
    → keep_after last ns ms ≡ ms
unfolding keep_after
keep_after-new last lo hi [] [] h v = refl
keep_after-new last lo hi [] (m ∷ ms) h v = absurd v
keep_after-new last lo hi (n ∷ ns) [] h v = absurd v
keep_after-new last lo hi (n ∷ ns) (m ∷ ms) h v = ground (arith, keep_after-new last n hi ns ms)

-- The last number is between the bounds, and bounds all others.
pub last_number-Numbered :
    (lo hi : ℕ) (ns : List ℕ) (ms : List ChatMessage)
    → lo ≤ hi
    → Numbered lo hi ns ms
    → (last_number lo ns ≤ hi) × Numbered lo (last_number lo ns) ns ms × (lo ≤ last_number lo ns)
unfolding last_number
last_number-Numbered lo hi [] [] h v = (h, tt, omega arith)
last_number-Numbered lo hi [] (m ∷ ms) h v = absurd v
last_number-Numbered lo hi (n ∷ ns) [] h v = absurd v
last_number-Numbered lo hi (n ∷ ns) (m ∷ ms) h v =
    let (a, b, c) = last_number-Numbered n hi ns ms v.1 v.2 in (a, (v.0, c, b), omega arith)

-- AddMessage of one message after the other, each with its time.
unfoldable pub add_all : List (ℕ × ChatMessage) → HistoryState → HistoryState
add_all [] s = s
add_all ((now, m) ∷ rest) s = add_all rest (add_message now m s).0

abbrev pub messages_of : List (ℕ × ChatMessage) → List ChatMessage
messages_of = map λ e. from_core e.1

-- A state that has grown by some messages with numbers of their own.
pub record Grown (s t : HistoryState) (ks : List ℕ) (xs : List ChatMessage) : Type 0 where
  pub seqs : t.seqs ≡ s.seqs ++ ks
  pub history : t.history ≡ s.history ++ xs
  pub numbered : Numbered s.next_seq t.next_seq ks xs
  pub above : s.next_seq ≤ t.next_seq
  pub epoch : t.epoch ≡ s.epoch
  pub compacting : t.compacting ≡ s.compacting

add-Grown :
    (now : ℕ) (m : ChatMessage) (s : HistoryState)
    → s.next_seq + 1 < u64_mod
    → Sound s
    → Grown s (add_message now m s).0 (u64 (s.next_seq + 1) ∷ []) (from_core m ∷ [])
unfolding add_message
add-Grown now m s h v = rw (resync-Sound s v) (record {
  seqs = refl;
  history = refl;
  numbered = next_Numbered s.next_seq (from_core m) h;
  above = omega arith;
  epoch = refl;
  compacting = refl;
})

Grown-trans :
    (s t u : HistoryState) (ks js : List ℕ) (xs ys : List ChatMessage)
    → Grown s t ks xs
    → Grown t u js ys
    → Grown s u (ks ++ js) (xs ++ ys)
Grown-trans s t u ks js xs ys g k = record {
  seqs = k.seqs ∙ rw (g.seqs, append_assoc);
  history = k.history ∙ rw (g.history, append_assoc);
  numbered =
      Numbered-append s.next_seq t.next_seq u.next_seq ks js xs ys g.above k.above g.numbered
        k.numbered;
  above = omega (arith, g.above, k.above);
  epoch = k.epoch ∙ g.epoch;
  compacting = k.compacting ∙ g.compacting;
}

-- The numbers that added messages get.
abbrev pub numbers_for : HistoryState → List (ℕ × ChatMessage) → List ℕ
numbers_for s [] = []
numbers_for s ((now, m) ∷ rest) = u64 (s.next_seq + 1) ∷ numbers_for (add_message now m s).0 rest

add-next :
    (now : ℕ) (m : ChatMessage) (s : HistoryState)
    → Sound s
    → (add_message now m s).0.next_seq ≡ u64 (s.next_seq + 1)
unfolding add_message
add-next now m s v = rw (resync-Sound s v)

pub add_all-Grown :
    (xs : List (ℕ × ChatMessage)) (s : HistoryState)
    → s.next_seq + length xs < u64_mod
    → Sound s
    → Grown s (add_all xs s) (numbers_for s xs) (messages_of xs)
unfolding add_all
add_all-Grown [] s h v = record {
  seqs = sym (append-nil s.seqs);
  history = sym (append-nil s.history);
  numbered = tt;
  above = omega arith;
  epoch = refl;
  compacting = refl;
}
add_all-Grown ((now, m) ∷ xs) s h v =
    let t = (add_message now m s).0 in
    Grown-trans s t (add_all xs t) (u64 (s.next_seq + 1) ∷ []) (numbers_for t xs) (from_core m ∷ [])
      (messages_of xs) (add-Grown now m s (omega arith) v)
      (add_all-Grown xs t (omega (arith, add-next now m s v)) (add-Sound now m s (omega arith) v))

pub Grown-Sound :
    (s t : HistoryState) (ks : List ℕ) (xs : List ChatMessage) → Sound s → Grown s t ks xs → Sound t
Grown-Sound s t ks xs v g = record {
  numbered =
      rw (g.seqs, g.history)
        (Numbered-append 0 s.next_seq t.next_seq s.seqs ks s.history xs (omega arith) g.above
          v.numbered g.numbered);
}

-- Of a grown history exactly what it grew by comes after its former last message.
pub keep_after-Grown :
    (s t : HistoryState) (ks : List ℕ) (xs : List ChatMessage)
    → Sound s
    → Grown s t ks xs
    → keep_after (last_number 0 s.seqs) t.seqs t.history ≡ xs
keep_after-Grown s t ks xs v g =
    let last = last_number 0 s.seqs in
    let (a, b, c) = last_number-Numbered 0 s.next_seq s.seqs s.history (omega arith) v.numbered in
    rw
      (
        g.seqs,
        g.history,
        keep_after-append last 0 s.next_seq s.seqs ks s.history xs v.numbered,
        keep_after-old last 0 last s.seqs s.history (omega arith) b,
      )
      (keep_after-new last s.next_seq t.next_seq ks xs a g.numbered)
