-- ===== src/PendingTurns/Conservation.antt =====
-- EnqueuePendingTurn over rows of calls.
use frost_agent.Prelude.{
  Bool, true, leb, if◌then◌else◌, ℕ, zero, suc, ◌+◌, ◌-◌, ◌≤◌, ◌<◌, ◌≡◌, pos, negsuc, refl, sym,
  ◌∙◌, ap, false, Option, none, some, List, [], ◌∷◌, ◌++◌, ℤ, ltb, arith, ◌==◌, length,
  length-append, Bool-cases, inl, inr,
}
use mathlib.Core.List.{append-nil, append_assoc}
use frost_agent.PendingTurns.{
  flatten, PendingState, Batch, min_turns, max_turns, choose_threshold, add_turn, enqueue,
}

-- What IntN documents: a draw below its argument.
pub record IsDraw (pick : ℕ → ℕ) : Type 0 where
  pub below : (width : ℕ) → 0 < width → pick width < width

-- The threshold lies in the range.
pub choose_threshold_range :
    (pick : ℕ → ℕ) (lo hi old : ℕ)
    → IsDraw pick
    → lo ≤ hi
    → (lo ≤ choose_threshold pick lo hi old) × (choose_threshold pick lo hi old ≤ hi)
unfolding choose_threshold
choose_threshold_range pick lo hi old d h = ground (arith, d.below (hi - lo + 1))

-- A call of EnqueuePendingTurn.
pub record Enqueue {ℓ} (Item : Type ℓ) : Type ℓ where
  pub now : ℕ
  pub pick : ℕ → ℕ
  pub items : List Item
  pub lo : ℤ
  pub hi : ℤ

min-le-max : (lo hi : ℤ) → min_turns lo ≤ max_turns lo hi
min-le-max lo hi = ground arith

min-pos : (lo : ℤ) → 0 < min_turns lo
min-pos (pos zero) = omega arith
min-pos (pos (suc n)) = omega arith
min-pos (negsuc n) = omega arith

module _ {ℓ} {Item : Type ℓ} where
  flatten-append : (xs ys : List (List Item)) → flatten (xs ++ ys) ≡ flatten xs ++ flatten ys
  flatten-append [] ys = refl
  flatten-append (x ∷ xs) ys =
      ap (◌++◌ x) (flatten-append xs ys) ∙ sym (append_assoc x (flatten xs) (flatten ys))

  -- The items of an answer.
  abbrev pub handed_out : Option (Batch Item) → List Item
  handed_out none = []
  handed_out (some b) = b.items

  -- Calls in a row: the state that they leave, and all that they hand out, in order.
  unfoldable pub run : List (Enqueue Item) → PendingState Item → PendingState Item × List Item
  run [] s = (s, [])
  run (c ∷ cs) s =
      let (s', answer) = enqueue c.now c.pick c.items c.lo c.hi s in
      let (t, rest) = run cs s' in (t, handed_out answer ++ rest)

  abbrev pub arrived : List (Enqueue Item) → List Item
  arrived [] = []
  arrived (c ∷ cs) = c.items ++ arrived cs

  add_turn-conserves :
      (now : ℕ) (pick : ℕ → ℕ) (items : List Item) (lo hi : ℕ) (s : PendingState Item)
      → let (t, answer) = add_turn now pick items lo hi s in
        handed_out answer ++ flatten t.turns ≡ flatten s.turns ++ items
  unfolding add_turn
  add_turn-conserves now pick items lo hi s =
      let joined : flatten (s.turns ++ items ∷ []) ≡ flatten s.turns ++ items =
        flatten-append s.turns (items ∷ []) ∙ ap (◌++◌ (flatten s.turns)) (append-nil items) in
      elim (Bool-cases
        (ltb (length (s.turns ++ items ∷ [])) (choose_threshold pick lo hi s.threshold))) [
          | inl few ↦ rw few joined
          | inr full ↦ rw full (append-nil _ ∙ joined)
        ]

  enqueue-conserves :
      (now : ℕ) (pick : ℕ → ℕ) (items : List Item) (lo hi : ℤ) (s : PendingState Item)
      → let (t, answer) = enqueue now pick items lo hi s in
        handed_out answer ++ flatten t.turns ≡ flatten s.turns ++ items
  unfolding enqueue
  enqueue-conserves now pick [] lo hi s = sym (append-nil (flatten s.turns))
  enqueue-conserves now pick (item ∷ items) lo hi s =
      let some_items : (length (item ∷ items) == 0) ≡ false = ground arith in
      rw some_items (add_turn-conserves now pick (item ∷ items) (min_turns lo) (max_turns lo hi) s)

  -- Whatever the thresholds drawn, the items that a row of calls hands out, followed by those still
  -- pending, are the items pending before it, followed by those that arrived, in their order.
  pub turns_conserved :
      (cs : List (Enqueue Item)) (s : PendingState Item)
      → let (t, out) = run cs s in out ++ flatten t.turns ≡ flatten s.turns ++ arrived cs
  unfolding run
  turns_conserved [] s = sym (append-nil (flatten s.turns))
  turns_conserved (c ∷ cs) s =
      let (s', answer) = enqueue c.now c.pick c.items c.lo c.hi s in
      let t = run cs s' in
      append_assoc (handed_out answer) t.1 (flatten t.0.turns)
      ∙ ap (◌++◌ (handed_out answer)) (turns_conserved cs s')
      ∙ sym (append_assoc (handed_out answer) (flatten s'.turns) (arrived cs))
      ∙ ap (λ xs. xs ++ arrived cs) (enqueue-conserves c.now c.pick c.items c.lo c.hi s)
      ∙ append_assoc (flatten s.turns) c.items (arrived cs)

  abbrev pub is_batch : Option (Batch Item) → Bool
  is_batch none = false
  is_batch (some b) = true

  -- Where the draws are below their bound, a call with items hands out a batch exactly if the
  -- pending turns, with its own, reach the threshold that is then in force, which lies between the
  -- least and the largest number of turns. Then no turn stays pending, and otherwise all do; so
  -- there are always fewer than the largest number.
  pub turns_bounded :
      (now : ℕ) (pick : ℕ → ℕ) (item : Item) (items : List Item) (lo hi : ℤ) (s : PendingState Item)
      → IsDraw pick
      → let threshold = choose_threshold pick (min_turns lo) (max_turns lo hi) s.threshold in
        let (t, answer) = enqueue now pick (item ∷ items) lo hi s in
        (min_turns lo ≤ threshold)
        × (threshold ≤ max_turns lo hi)
        × (length t.turns < max_turns lo hi)
        × (is_batch answer ≡ leb threshold (length s.turns + 1))
        × (length t.turns ≡ (if is_batch answer then 0 else length s.turns + 1))
  unfolding enqueue add_turn
  turns_bounded now pick item items lo hi s d =
      let range =
        choose_threshold_range pick (min_turns lo) (max_turns lo hi) s.threshold d
          (min-le-max lo hi) in
      let n = length-append s.turns ((item ∷ items) ∷ []) in ground (arith, range, n, min-pos lo)
