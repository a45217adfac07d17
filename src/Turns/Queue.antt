-- ===== src/Turns/Queue.antt =====
-- What a session's turns and lanes keep to, and the reservation and the start of a turn.
pub mod Finish
use frost_agent.Prelude.{
  some_injective, ℕ, zero, suc, ◌<◌, ◌==◌, ◌≡◌, ◌≢◌, refl, ap, sym, ◌∙◌, subst, Option, none, some,
  List, [], ◌∷◌, arith, Bool, true, false, Bool-cases, Option-cases, inl, inr, if◌then◌else◌,
  lookup, adjust, lookup-adjust, lookup-adjust_other, map, ==_iff,
}
use frost_agent.Text.{Text, text_eq, text_eq_iff}
use frost_agent.Text.Maps.{find, put, find-put, find-put_other}
use frost_agent.Turns.{
  join_lane, is_finished, Place, queued, running, finished, Turn, Lane, TurnState, empty_turns,
  new_turn, new_lane, lane_at, lane_for, cancel_lane, cancel_lanes, started_epoch,
  reserve_sequence_turn, reserve_turn, may_start, done, finish, leave, cancel_sequences,
  reset_turns,
}
use frost_agent.Turns.Prepare.{
  prepare_turn_messages, enter_turn, enter_lane, save_transcript, keep_transcript, memory_state,
}
use frost_agent.Turns.Steps.{
  start, Step, reserve, reserve_plain, wait, prepare, save, remember, end, cancel_run, reset, Reach,
  begin, later,
}
use frost_agent.Turns.Chain.{Shape, Inv, at}
use frost_agent.Turns.Chain.Moves.{Inv-lane, Inv-tail, Inv-move}
use frost_agent.Turns.Chain.Arrivals.{
  arriving, Inv-reserve, Inv-plain, Inv-start, Inv-finish, Inv-finish_last, Inv-finish_plain,
}
use frost_agent.Turns.Shapes.{
  seen-adjust_missing, shape_of, seen, shape_at, tail_at, seen-found, seen-cons, seen-same,
  seen-adjust, seen-lookup, Inv-cong, shape_at-cancel_lane, shape_at-cancel_lanes,
}

-- The order of the turns, and a lane for every key that is taken.
pub record Good (s : TurnState) : Type 0 where
  pub order : Inv (shape_at s.turns) (tail_at s.lanes) s.next_turn s.next_lane
  pub taken :
      (key : Text) (l : ℕ)
      → find key s.sequences ≡ some l
      → (x : Lane) × (lookup l s.lanes ≡ some x)

pub still_there :
    (k l : ℕ) (f : Lane → Lane) (lanes : List (ℕ × Lane)) (x : Lane)
    → lookup l lanes ≡ some x
    → (y : Lane) × (lookup l (adjust k f lanes) ≡ some y)
still_there k l f lanes x e = elim (Bool-cases (l == k)) [
  | inl hit ↦
      let is_k : l ≡ k = (==_iff l k).0 hit in
      (f x, ap (λ j. lookup j (adjust k f lanes)) is_k ∙ lookup-adjust k f lanes x (rw (← is_k) e))
  | inr miss ↦ (x, lookup-adjust_other k l f lanes miss ∙ e)
]

nothing : {A Q : Type 0} {a : A} → none ≡ some a → Q
nothing h = absurd (ground (arith, h))

pub begin-Good : Good empty_turns
unfolding seen find
begin-Good = record {
  order = record {
    turns_lt = λ u y e. nothing e;
    tails_lt = λ l o e. nothing e;
    lanes_lt = λ u y l e own. nothing e;
    waits = λ u y l e own. nothing e;
    chained = λ u y l e own. nothing e;
    started = λ u y l e own busy. nothing e;
    tails = λ l o e. nothing e;
  };
  taken = λ key l e. nothing e;
}

lookup-lt :
    (s : TurnState) (l : ℕ) (x : Lane) → Good s → lookup l s.lanes ≡ some x → l < s.next_lane
lookup-lt s l x g e = g.order.tails_lt l x.tail (seen-found (λ y. y.tail) s.lanes l x e)

-- A lane for the key, with its last turn.
lane_for-Good :
    (key : Text) (proactive : Bool) (s : TurnState)
    → Good s
    → let (t, l) = lane_for key proactive s in Good t × ((x : Lane) × (lookup l t.lanes ≡ some x))
unfolding lane_for
lane_for-Good key proactive s g = elim (Option-cases (find key s.sequences)) [
  | inr (l, e) ↦ rw (lane_for, e) (g, g.taken key l e)
  | inl missing ↦
      rw (lane_for, missing)
        (
          record {
            order =
                Inv-cong (λ u. refl)
                  (seen-cons (λ x. x.tail) s.lanes s.next_lane (new_lane proactive))
                  (Inv-lane g.order);
            taken = λ k l e. elim (Bool-cases (text_eq key k)) [
              | inl same ↦
                  let is_key : key ≡ k = (text_eq_iff key k).0 same in
                  let is_new : s.next_lane ≡ l = some_injective (
                    sym (find-put key s.next_lane s.sequences)
                    ∙ ap (λ j. find j (put key s.next_lane s.sequences)) is_key
                    ∙ e) in
                  (new_lane proactive, ground (arith, is_new))
              | inr other ↦
                  let (x, there) =
                    g.taken k l (sym (find-put_other key k s.next_lane s.sequences other) ∙ e) in
                  let lt = lookup-lt s l x g there in (x, ground (arith, lt, there))
            ];
          },
          (new_lane proactive, ground arith),
        )
]

-- A new turn at the end of a lane.
joined-Good :
    (s : TurnState) (l : ℕ) (x : Lane) (turns : List (ℕ × Turn))
    → Good s
    → lookup l s.lanes ≡ some x
    → ((u : ℕ) → shape_at turns u ≡ shape_at s.turns u)
    → Good (record s {
      lanes = adjust l (λ y. record y { tail = some s.next_turn }) s.lanes;
      turns = (s.next_turn, new_turn x.tail (some l) x.tail s.core.epoch) ∷ turns;
      next_turn = suc s.next_turn;
    })
joined-Good s l x turns g e same =
    let t = new_turn x.tail (some l) x.tail s.core.epoch in
    record {
      order =
          Inv-cong
            (λ u.
              ap (λ o. if u == s.next_turn then some (shape_of t) else o) (sym (same u))
              ∙ seen-cons shape_of turns s.next_turn t u)
            (seen-adjust (λ y. y.tail) s.lanes l (λ y. record y { tail = some s.next_turn }) x e)
            (Inv-reserve g.order l x.tail (seen-found (λ y. y.tail) s.lanes l x e));
      taken = λ key k f.
          let (y, there) = g.taken key k f in
          still_there l k (λ y. record y { tail = some s.next_turn }) s.lanes y there;
    }

join_lane-Good :
    (interrupt : Bool) (l : ℕ) (x : Lane) (s : TurnState)
    → Good s
    → lookup l s.lanes ≡ some x
    → Good (join_lane interrupt l s).0
unfolding join_lane
join_lane-Good interrupt l x s g e =
    rw (join_lane, lane_at, e)
      (joined-Good s l x (if interrupt then cancel_lane s.next_turn x s.turns else s.turns) g e
        (λ u. elim (Bool-cases interrupt) [
          | inl cuts ↦ rw cuts (shape_at-cancel_lane s.next_turn x s.turns u)
          | inr waits ↦ rw waits refl
        ]))

pub reserve-Good :
    (key : Text) (interrupt proactive : Bool) (s : TurnState)
    → Good s
    → Good (reserve_sequence_turn key interrupt proactive s).0
unfolding reserve_sequence_turn
reserve-Good key interrupt proactive s g =
    let s0 : TurnState = record s { core = started_epoch s.core } in
    let (t, l) = lane_for key proactive s0 in
    let (gt, (x, e)) =
      lane_for-Good key proactive s0 (record { order = g.order; taken = g.taken }) in
    join_lane-Good interrupt l x t gt e

pub reserve_plain-Good : (s : TurnState) → Good s → Good (reserve_turn s).0
unfolding reserve_turn
reserve_plain-Good s g = record {
  order =
      Inv-cong (λ u. seen-cons shape_of s.turns s.next_turn _ u) (λ l. refl)
        (Inv-plain g.order s.turn_tail);
  taken = g.taken;
}

is_finished-eq : (p : Place) → is_finished p ≡ true → p ≡ finished
is_finished-eq queued h = ground (arith, h)
is_finished-eq running h = ground (arith, h)
is_finished-eq finished h = refl

-- Wait has returned: the turn before has finished.
may_start-over :
    (x : Turn) (s : TurnState) (v : ℕ)
    → may_start x s ≡ true
    → x.wait ≡ some v
    → (y : Shape) × (shape_at s.turns v ≡ some y) × (y.place ≡ finished)
unfolding may_start
may_start-over x s v ready e = elim (Option-cases (lookup v s.turns)) [
  | inl missing ↦ absurd (ground (arith, rw (may_start, e, missing) at ready))
  | inr (y, there) ↦ (
    shape_of y,
    seen-found shape_of s.turns v y there,
    is_finished-eq y.place (rw (may_start, e, there) at ready),
  )
]

pub start-Good :
    (t : ℕ) (x : Turn) (s : TurnState)
    → Good s
    → lookup t s.turns ≡ some x
    → x.place ≡ queued
    → may_start x s ≡ true
    → Good (start t s)
unfolding start may_start
start-Good t x s g e is_queued ready = record {
  order =
      Inv-cong (seen-adjust shape_of s.turns t (λ y. record y { place = running }) x e) (λ l. refl)
        (Inv-start g.order t (shape_of x) (seen-found shape_of s.turns t x e) is_queued
          (λ v. may_start-over x s v ready));
  taken = g.taken;
}
