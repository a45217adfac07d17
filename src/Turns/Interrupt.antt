-- ===== src/Turns/Interrupt.antt =====
-- An explicit injection: what the loop over the turns of a lane reaches, and that it ends.
use frost_agent.Prelude.{
  ℕ, zero, suc, ◌<◌, ◌≤◌, ◌==◌, ==_iff, ◌≡◌, ◌≢◌, refl, ap, sym, ◌∙◌, subst, Option, none, some,
  List, arith, Bool, true, false, Bool-cases, inl, inr, lookup, adjust, lookup-adjust,
  lookup-adjust_other,
}
use frost_agent.Text.{Text}
use frost_agent.Text.Maps.{find}
use frost_agent.Turns.{
  finished, Turn, Lane, TurnState, mark, cancel, previous_of, cancel_chain, cancel_lane, lane_at,
  lane_for, join_lane, started_epoch, reserve_sequence_turn,
}
use frost_agent.Turns.Steps.{Reach}
use frost_agent.Turns.Chain.{Shape, Shapes, Linked, Inv}
use frost_agent.Turns.Shapes.{
  tail_at, shape_of, shape_at, seen-found, seen-lookup, shape_at-cancel, Inv-cong,
}
use frost_agent.Turns.Queue.{Good}
use frost_agent.Turns.Order.{Reach-Good}

-- A turn that is there and canceled.
abbrev Canceled : ℕ → List (ℕ × Turn) → Type 0
Canceled u turns = (y : Turn) × (lookup u turns ≡ some y) × (y.canceled ≡ true)

cancel-Canceled :
    (o : Option ℕ) (u : ℕ) (turns : List (ℕ × Turn))
    → Canceled u turns
    → Canceled u (cancel o turns)
cancel-Canceled none u turns c = c
cancel-Canceled (some t) u turns (y, e, is) = elim (Bool-cases (u == t)) [
  | inl hit ↦
      let is_t : u ≡ t = (==_iff u t).0 hit in
      (
        mark y,
        ap (λ k. lookup k (adjust t mark turns)) is_t
            ∙ lookup-adjust t mark turns y (rw (← is_t) e),
        refl,
      )
  | inr miss ↦ (y, lookup-adjust_other t u mark turns miss ∙ e, is)
]

cancel_chain-Canceled :
    (fuel : ℕ) (o : Option ℕ) (u : ℕ) (turns : List (ℕ × Turn))
    → Canceled u turns
    → Canceled u (cancel_chain fuel o turns)
unfolding cancel_chain
cancel_chain-Canceled zero o u turns c = c
cancel_chain-Canceled (suc fuel) none u turns c = c
cancel_chain-Canceled (suc fuel) (some t) u turns c =
    cancel_chain-Canceled fuel (previous_of t turns) u (cancel (some t) turns)
      (cancel-Canceled (some t) u turns c)

-- The pointer fits below the fuel.
abbrev Fits : ℕ → Option ℕ → Type 0
Fits fuel none = Unit {0}
Fits fuel (some v) = v < fuel

Linked-Fits : (σ : Shapes) (l k n : ℕ) (o : Option ℕ) → k ≤ n → Linked σ l k o → Fits n o
Linked-Fits σ l k n none le c = tt
Linked-Fits σ l k n (some v) le c = let lt = c.0 in omega (arith, lt, le)

module _ {τ : ℕ → Option (Option ℕ)} {n m : ℕ} where
  -- The turn before one of the lane.
  behind :
      (turns : List (ℕ × Turn)) (l v : ℕ) (y : Shape)
      → Inv (shape_at turns) τ n m
      → shape_at turns v ≡ some y
      → y.lane ≡ some l
      → Linked (shape_at turns) l v (previous_of v turns)
  behind turns l v y inv e own =
      let (x, there, is_y) = seen-lookup shape_of turns v y e in
      let before =
        inv.chained v (shape_of x) l (seen-found shape_of turns v x there)
          (ap (λ z. z.lane) is_y ∙ own) in
      subst (Linked (shape_at turns) l v) (rw (previous_of, there) refl) before

  -- The loop reaches every turn of the lane that is not done.
  chain_reaches :
      (fuel l k u : ℕ) (o : Option ℕ) (y : Turn) (turns : List (ℕ × Turn))
      → Inv (shape_at turns) τ n m
      → Linked (shape_at turns) l k o
      → Fits fuel o
      → lookup u turns ≡ some y
      → y.lane ≡ some l
      → y.place ≢ finished
      → u < k
      → Canceled u (cancel_chain fuel o turns)
  unfolding cancel_chain
  chain_reaches fuel l k u none y turns inv c fits e own busy lt =
      absurd (busy (c u (shape_of y) (seen-found shape_of turns u y e) own lt))
  chain_reaches zero l k u (some v) y turns inv c fits e own busy lt = absurd (omega (arith, fits))
  chain_reaches (suc fuel) l k u (some v) y turns inv (below, (z, f, own'), last) fits e own busy
        lt =
      let before = behind turns l v z inv f own' in
      elim (Bool-cases (u == v)) [
        | inl hit ↦
            let is_v : u ≡ v = (==_iff u v).0 hit in
            cancel_chain-Canceled fuel (previous_of v turns) u (cancel (some v) turns) (
              mark y,
              ap (λ j. lookup j (adjust v mark turns)) is_v
                  ∙ lookup-adjust v mark turns y (rw (← is_v) e),
              refl,
            )
        | inr miss ↦
            let le = last u (shape_of y) (seen-found shape_of turns u y e) own lt in
            let same : (j : ℕ) → shape_at turns j ≡ shape_at (cancel (some v) turns) j =
              λ j. sym (shape_at-cancel (some v) turns j) in
            chain_reaches fuel l v u (previous_of v turns) y (cancel (some v) turns)
              (Inv-cong same (λ j. refl) inv)
              (subst (λ (σ : Shapes). Linked σ l v (previous_of v turns)) (λ i j. same j i) before)
              (Linked-Fits (shape_at turns) l v fuel (previous_of v turns) (omega (arith, fits))
                before)
              (lookup-adjust_other v u mark turns miss ∙ e) own busy (ground (arith, le, miss))
      ]

-- A lane of a session, in a state that it gets to.
module _ {s : TurnState} (g : Good s) (l : ℕ) (x : Lane) (there : lookup l s.lanes ≡ some x) where
  canceled_first :
      Inv (shape_at (cancel x.active s.turns)) (tail_at s.lanes) s.next_turn s.next_lane
  canceled_first = Inv-cong (λ j. sym (shape_at-cancel x.active s.turns j)) (λ j. refl) g.order

  whole : Linked (shape_at (cancel x.active s.turns)) l s.next_turn x.tail
  whole = canceled_first.tails l x.tail (seen-found (λ z. z.tail) s.lanes l x there)

  lane_reaches :
      (u : ℕ) (y : Turn)
      → lookup u s.turns ≡ some y
      → y.lane ≡ some l
      → y.place ≢ finished
      → Canceled u (cancel_lane s.next_turn x s.turns)
  unfolding cancel_lane
  lane_reaches u y e own busy =
      let turns = cancel x.active s.turns in
      let (z, f, is_y) =
        seen-lookup shape_of turns u (shape_of y)
          (shape_at-cancel x.active s.turns u ∙ seen-found shape_of s.turns u y e) in
      chain_reaches s.next_turn l s.next_turn u x.tail z turns canceled_first whole
        (Linked-Fits (shape_at turns) l s.next_turn s.next_turn x.tail (omega arith) whole) f
        (ap (λ w. w.lane) is_y ∙ own) (λ h. busy (sym (ap (λ w. w.place) is_y) ∙ h))
        (g.order.turns_lt u (shape_of y) (seen-found shape_of s.turns u y e))

  join_lane-reaches :
      (u : ℕ) (y : Turn)
      → lookup u s.turns ≡ some y
      → y.lane ≡ some l
      → y.place ≢ finished
      → Canceled u (join_lane true l s).0.turns
  unfolding join_lane
  join_lane-reaches u y e own busy =
      let (z, f, is_canceled) = lane_reaches u y e own busy in
      let lt = g.order.turns_lt u (shape_of y) (seen-found shape_of s.turns u y e) in
      let other : (s.next_turn == u) ≡ false = ground (arith, lt) in
      (z, rw (join_lane, lane_at, there, other) f, is_canceled)

lane_for-known :
    (key : Text) (proactive : Bool) (s : TurnState) (l : ℕ)
    → find key s.sequences ≡ some l
    → lane_for key proactive s ≡ (s, l)
unfolding lane_for
lane_for-known key proactive s l known = rw (lane_for, known) refl

-- In every state that a session gets to whose turns are only done behind the return of their Wait,
-- which the adapters do not keep to where they give a turn up: an injection that reserves a turn under a key that has a
-- lane cancels every turn of the lane that is not done.
pub injection_cancels :
    {s : TurnState}
    → Reach true s
    → (key : Text) (proactive : Bool) (l u : ℕ) (y : Turn) → find key s.sequences ≡ some l
    → lookup u s.turns ≡ some y
    → y.lane ≡ some l
    → y.place ≢ finished
    → (z : Turn) × (lookup u (reserve_sequence_turn key true proactive s).0.turns ≡ some z)
      × (z.canceled ≡ true)
unfolding reserve_sequence_turn
injection_cancels {s} r key proactive l u y known e own busy =
    let g = Reach-Good r in
    let (x, there) = g.taken key l known in
    let s0 : TurnState = record s { core = started_epoch s.core } in
    let g0 : Good s0 = record { order = g.order; taken = g.taken } in
    let is_lane = lane_for-known key proactive s0 l known in
    subst (λ (p : TurnState × ℕ). Canceled u (join_lane true p.1 p.0).0.turns) (sym is_lane)
      (join_lane-reaches g0 l x there u y e own busy)
