-- ===== src/Turns/Order.antt =====
-- The turns of a lane run one after the other, in the order of their reservation.
use frost_agent.Prelude.{
  Bool, true, length, ℕ, ◌<◌, ◌==◌, ◌≡◌, ◌≢◌, refl, sym, Option, none, some, List, [], arith, Bool,
  Bool-cases, Option-cases, inl, inr, if◌then◌else◌, lookup, adjust, map,
}
use frost_agent.Text.{Text}
use frost_agent.Text.Maps.{find}
use frost_agent.History.{with_input, ChatMessage, HistoryState, resync}
use frost_agent.Turns.{
  queued, running, finished, Turn, Lane, TurnState, lane_at, cancel_sequences, reset_turns,
}
use frost_agent.Turns.Prepare.{
  without_own, skills_of, carried, prepare_turn_messages, enter_turn, enter_lane, save_transcript,
  keep_transcript, memory_state,
}
use frost_agent.Turns.Steps.{
  Step, reserve, reserve_plain, wait, prepare, save, remember, end, give_up, cancel_run, reset,
  Reach, begin, later,
}
use frost_agent.Turns.Shapes.{shape_of, seen-found, seen-same, Inv-cong, shape_at-cancel_lanes}
use frost_agent.Turns.Queue.{
  Good, begin-Good, reserve-Good, reserve_plain-Good, start-Good, still_there,
}
use frost_agent.Turns.Queue.Finish.{done-Good}

-- Operations that change no place in the order.
module _ (s : TurnState) (g : Good s) where
  lane-Good :
      (l : ℕ) (f : Lane → Lane)
      → ((x : Lane) → (f x).tail ≡ x.tail)
      → Good (record s { lanes = adjust l f s.lanes })
  lane-Good l f same = record {
    order = Inv-cong (λ u. refl) (λ k. sym (seen-same (λ x. x.tail) s.lanes l f same k)) g.order;
    taken = λ key k e. let (y, there) = g.taken key k e in still_there l k f s.lanes y there;
  }

  turn-Good :
      (t : ℕ) (f : Turn → Turn)
      → ((x : Turn) → shape_of (f x) ≡ shape_of x)
      → Good (record s { turns = adjust t f s.turns })
  turn-Good t f same = record {
    order = Inv-cong (λ u. sym (seen-same shape_of s.turns t f same u)) (λ k. refl) g.order;
    taken = g.taken;
  }

  core-Good : (h : HistoryState) → Good (record s { core = h })
  core-Good h = record { order = g.order; taken = g.taken }

  cancel-Good : Good (cancel_sequences s)
  unfolding cancel_sequences
  cancel-Good = record {
    order =
        Inv-cong
          (λ u.
            sym (shape_at-cancel_lanes s.next_turn (map (λ e. e.1) s.sequences) s.lanes s.turns u))
          (λ k. refl) g.order;
    taken = g.taken;
  }

prepare-Good :
    (now : ℕ) (o : Option ℕ) (durable prompt : Text) (billing : Option ℕ) (s : TurnState)
    → Good s
    → Good (prepare_turn_messages now o durable prompt billing s).0
unfolding prepare_turn_messages
prepare-Good now none durable prompt billing s g = core-Good s g _
prepare-Good now (some t) durable prompt billing s g = elim (Option-cases (lookup t s.turns)) [
  | inl missing ↦ rw (prepare_turn_messages, missing) (core-Good s g _)
  | inr (x, e) ↦ elim (Bool-cases (x.epoch == s.core.epoch)) [
    | inr old ↦ rw (prepare_turn_messages, e, old) g
    | inl current ↦ elim (Option-cases x.lane) [
      | inl stray ↦ rw (prepare_turn_messages, e, current, stray) (core-Good s g _)
      | inr (l, own) ↦
          rw (prepare_turn_messages, e, current, own)
            (let lane = lane_at l s.lanes in
              let h = resync s.core in
              let id = (with_input now durable s.core).next_seq in
              let base = without_own lane.message_ids h.history h.seqs in
              let skills = if lane.proactive then [] else skills_of lane.skills s.turns in
              let f = enter_lane t durable billing id in
              let s1 : TurnState = record s { lanes = adjust l f s.lanes } in
              let g1 = lane-Good s g l f (λ y. refl) in
              let h1 =
                turn-Good s1 g1 t (enter_turn (length (carried lane)) base durable id skills)
                  (λ y. refl) in
              record { order = h1.order; taken = h1.taken })
    ]
  ]
]

save-Good :
    (t : ℕ) (messages : List ChatMessage) (s : TurnState)
    → Good s
    → Good (save_transcript t messages s)
unfolding save_transcript
save-Good t messages s g = elim (Option-cases (lookup t s.turns)) [
  | inl missing ↦ rw (save_transcript, missing) g
  | inr (x, e) ↦ elim (Option-cases x.lane) [
    | inl stray ↦ rw (save_transcript, e, stray) g
    | inr (l, own) ↦
        rw (save_transcript, e, own)
          (lane-Good s g l (keep_transcript x messages) (λ y. ground arith))
  ]
]

remember-Good :
    (o : Option ℕ) (written : Bool) (s : TurnState) → Good s → Good (memory_state o written s).0
unfolding memory_state
remember-Good none written s g = g
remember-Good (some t) written s g = elim (Option-cases (lookup t s.turns)) [
  | inl missing ↦ rw (memory_state, missing) g
  | inr (x, e) ↦ elim (Option-cases x.lane) [
    | inl stray ↦ rw (memory_state, e, stray) g
    | inr (l, own) ↦ rw (memory_state, e, own) (lane-Good s g l _ (λ y. refl))
  ]
]

reset-Good : (now : ℕ) (s : TurnState) → Good s → Good (reset_turns now s)
unfolding reset_turns find
reset-Good now s g = record {
  order = (cancel-Good s g).order;
  taken = λ key l e. absurd (ground (arith, e));
}

Step-Good : {b : Bool} {s t : TurnState} → Good s → Step s b t → b ≡ true → Good t
Step-Good {s = s} g (reserve key interrupt proactive) h = reserve-Good key interrupt proactive s g
Step-Good {s = s} g reserve_plain h = reserve_plain-Good s g
Step-Good {s = s} g (wait t x e is_queued ready) h = start-Good t x s g e is_queued ready
Step-Good {s = s} g (prepare now o durable prompt billing) h =
    prepare-Good now o durable prompt billing s g
Step-Good {s = s} g (save t messages) h = save-Good t messages s g
Step-Good {s = s} g (remember o written) h = remember-Good o written s g
Step-Good {s = s} g (end t x e is_running) h = done-Good t x s g e is_running
Step-Good {s = s} g (give_up t x e is_queued) h = absurd (ground (arith, h))
Step-Good {s = s} g cancel_run h = cancel-Good s g
Step-Good {s = s} g (reset now) h = reset-Good now s g

orderly-Good : {o : Bool} {s : TurnState} → Reach o s → o ≡ true → Good s
orderly-Good begin h = begin-Good
orderly-Good (later {o} {b} r step) h =
    Step-Good (orderly-Good r (ground (arith, h))) step (ground (arith, h))

pub Reach-Good : {s : TurnState} → Reach true s → Good s
Reach-Good r = orderly-Good r refl

-- In every state that a session gets to while each turn is worked on between the return of Wait and
-- Done: once a turn of a lane has begun, every turn that was reserved in the lane before it is done,
-- whatever was interrupted, cancelled or reset in between.
pub turns_in_order :
    {s : TurnState}
    → Reach true s
    → (t u l : ℕ) (x y : Turn) → lookup t s.turns ≡ some x
    → lookup u s.turns ≡ some y
    → x.lane ≡ some l
    → y.lane ≡ some l
    → u < t
    → x.place ≢ queued
    → y.place ≡ finished
turns_in_order {s} r t u l x y e f own own' before begun =
    (Reach-Good r).order.started t (shape_of x) l (seen-found shape_of s.turns t x e) own begun u
      (shape_of y) (seen-found shape_of s.turns u y f) own' before

-- Two turns of one lane are never worked on at the same time.
pub one_at_a_time :
    {s : TurnState}
    → Reach true s
    → (t u l : ℕ) (x y : Turn) → lookup t s.turns ≡ some x
    → lookup u s.turns ≡ some y
    → x.lane ≡ some l
    → y.lane ≡ some l
    → x.place ≡ running
    → y.place ≡ running
    → t ≡ u
one_at_a_time r t u l x y e f own own' busy busy' =
    let first = turns_in_order r t u l x y e f own own' in
    let second = turns_in_order r u t l y x f e own' own in ground (arith, first, second)
