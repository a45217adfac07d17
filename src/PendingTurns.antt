-- ===== src/PendingTurns.antt =====
-- internal/llm/session.go: EnqueuePendingTurn. `Item` is memory.PendingExtractionItem, which this code
-- only stores; `pick` is math/rand's IntN, the n-th draw of which is an argument of the n-th call.
pub mod Conservation
use frost_agent.Prelude.{
  ℕ, zero, suc, ◌+◌, ◌-◌, Bool, true, false, ◌||◌, Option, none, some, List, [], ◌∷◌, ◌++◌, ℤ, pos,
  negsuc, to_nat, ltb, u64, ◌==◌, if◌then◌else◌, length,
}

module _ {ℓ} {Item : Type ℓ} where
  -- The items of all turns, in order.
  abbrev pub flatten : List (List Item) → List Item
  flatten [] = []
  flatten (turn ∷ turns) = turn ++ flatten turns

pub record PendingState {ℓ} (Item : Type ℓ) : Type ℓ where
  pub turns : List (List Item)  -- pendingTurns
  pub threshold : ℕ  -- extractionThreshold
  pub epoch : ℕ
  pub updated_at : ℕ  -- the session's UpdatedAt, as far as this operation sets it

-- PendingExtractionBatch, but for the session that it points to.
pub record Batch {ℓ} (Item : Type ℓ) : Type ℓ where
  pub epoch : ℕ
  pub items : List Item

-- minTurns and maxTurns with their defaults.
abbrev pub min_turns : ℤ → ℕ
min_turns (pos zero) = 3
min_turns (pos (suc n)) = suc n
min_turns (negsuc n) = 3

abbrev pub max_turns : ℤ → ℤ → ℕ
max_turns lo hi = if ltb (to_nat hi) (min_turns lo) then min_turns lo else to_nat hi

-- The threshold: an old one that lies in the range stays, otherwise one is drawn.
unfoldable pub choose_threshold : (ℕ → ℕ) → ℕ → ℕ → ℕ → ℕ
choose_threshold pick lo hi old =
    let width = hi - lo + 1 in
    if ltb old lo || ltb hi old then (if ltb 1 width then lo + pick width else lo) else old

module _ {ℓ} {Item : Type ℓ} where
  -- The part under the lock.
  unfoldable pub add_turn :
      ℕ → (ℕ → ℕ) → List Item → ℕ → ℕ → PendingState Item → PendingState Item × Option (Batch Item)
  add_turn now pick items lo hi s =
      let threshold = choose_threshold pick lo hi s.threshold in
      let turns = s.turns ++ items ∷ [] in
      let epoch = if s.epoch == 0 then 1 else s.epoch in
      if ltb (length turns) threshold
      then (
        record { turns = turns; threshold = threshold; epoch = s.epoch; updated_at = now },
        none,
      )
      else (
        record { turns = []; threshold = 0; epoch = epoch; updated_at = now },
        some (record { epoch = epoch; items = flatten turns }),
      )

  -- EnqueuePendingTurn
  unfoldable pub enqueue :
      ℕ → (ℕ → ℕ) → List Item → ℤ → ℤ → PendingState Item → PendingState Item × Option (Batch Item)
  unfolding add_turn
  enqueue now pick items lo hi s =
      if length items == 0
      then (s, none)
      else add_turn now pick items (min_turns lo) (max_turns lo hi) s

  -- The part of Clear that is about pending turns.
  unfoldable pub clear_pending : ℕ → PendingState Item → PendingState Item
  clear_pending now s = record s { turns = []; threshold = 0; updated_at = now }

  -- The part of ResetSession that is about pending turns.
  unfoldable pub reset_pending : ℕ → PendingState Item → PendingState Item
  reset_pending now s = record {
    turns = [];
    threshold = 0;
    epoch = u64 (s.epoch + 1);
    updated_at = now;
  }
