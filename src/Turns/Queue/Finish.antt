-- ===== src/Turns/Queue/Finish.antt =====
-- A turn that is done leaves its lane.
use frost_agent.Prelude.{
  ℕ, ◌==◌, ◌≡◌, refl, ap, sym, ◌∙◌, Option, none, some, arith, Bool, Bool-cases, Option-cases, inl,
  inr, if◌then◌else◌, lookup, adjust, ==_iff,
}
use frost_agent.Turns.{running, finished, Turn, Lane, TurnState, done, finish, leave}
use frost_agent.Turns.Chain.{Inv, at}
use frost_agent.Turns.Chain.Arrivals.{Inv-finish, Inv-finish_last, Inv-finish_plain}
use frost_agent.Turns.Shapes.{
  seen-adjust_missing, shape_of, shape_at, tail_at, seen-found, seen-adjust, Inv-cong,
}
use frost_agent.Turns.Queue.{Good, still_there}

-- The last turn of a lane that a turn leaves.
left_tail : ℕ → Option ℕ → Option ℕ
left_tail t none = none
left_tail t (some v) = if v == t then none else some v

leave-tail :
    (t : ℕ) (interrupted : Bool) (x : Lane) → (leave t interrupted x).tail ≡ left_tail t x.tail
unfolding left_tail
leave-tail t interrupted x = elim (Option-cases x.tail) [
  | inl e ↦ ground (arith, e)
  | inr (v, e) ↦ ground (arith, e)
]

at-id : {A : Type 0} (f : ℕ → Option A) (k u : ℕ) (a : A) → f k ≡ some a → at f k a u ≡ f u
at-id f k u a e = elim (Bool-cases (u == k)) [
  | inl hit ↦ rw hit (sym e ∙ ap f (sym ((==_iff u k).0 hit)))
  | inr miss ↦ rw miss refl
]

finished-Inv :
    (t l : ℕ) (x : Turn) (interrupted : Bool) (s : TurnState)
    → Good s
    → lookup t s.turns ≡ some x
    → x.lane ≡ some l
    → x.place ≡ running
    → Inv
        (at (shape_at s.turns) t (record (shape_of x) { previous = none; place = finished }))
        (tail_at (adjust l (leave t interrupted) s.lanes))
        s.next_turn
        s.next_lane
unfolding left_tail
finished-Inv t l x interrupted s g e own is_running =
    let there = seen-found shape_of s.turns t x e in
    let over = Inv-finish g.order t l (shape_of x) there own is_running in
    elim (Option-cases (lookup l s.lanes)) [
      | inl missing ↦
          Inv-cong (λ u. refl)
            (λ k. sym (seen-adjust_missing (λ y. y.tail) s.lanes l (leave t interrupted) missing k))
            over
      | inr (y, e') ↦
          let tail = seen-found (λ z. z.tail) s.lanes l y e' in
          let change : (o : Option ℕ)
              → left_tail t y.tail ≡ o
              → (k : ℕ)
              → at (tail_at s.lanes) l o k ≡ tail_at (adjust l (leave t interrupted) s.lanes) k =
            λ o h k.
              ap (λ q. at (tail_at s.lanes) l q k) (sym h ∙ sym (leave-tail t interrupted y))
              ∙ seen-adjust (λ z. z.tail) s.lanes l (leave t interrupted) y e' k in
          elim (Option-cases y.tail) [
            | inl none_left ↦
                Inv-cong (λ u. refl)
                  (λ k.
                    sym (at-id (tail_at s.lanes) l k y.tail tail)
                    ∙ change y.tail (rw none_left refl) k)
                  over
            | inr (v, is_v) ↦ elim (Bool-cases (v == t)) [
              | inl own_tail ↦
                  Inv-cong (λ u. refl) (change none (rw (is_v, own_tail) refl))
                    (Inv-finish_last g.order t l (shape_of x) there own is_running
                      (tail ∙ ap some (is_v ∙ ap some ((==_iff v t).0 own_tail))))
              | inr later_tail ↦
                  Inv-cong (λ u. refl)
                    (λ k.
                      sym (at-id (tail_at s.lanes) l k y.tail tail)
                      ∙ change y.tail (rw (is_v, later_tail) refl) k)
                    over
            ]
          ]
    ]

pub done-Good :
    (t : ℕ) (x : Turn) (s : TurnState)
    → Good s
    → lookup t s.turns ≡ some x
    → x.place ≡ running
    → Good (done t s)
unfolding done
done-Good t x s g e is_running = elim (Option-cases x.lane) [
  | inl stray ↦
      rw (done, e, stray)
        (record {
          order =
              Inv-cong
                (λ u.
                  ap (λ y. at (shape_at s.turns) t y u) (ground (arith, stray))
                  ∙ seen-adjust shape_of s.turns t finish x e u)
                (λ l. refl)
                (Inv-finish_plain g.order t (shape_of x) (seen-found shape_of s.turns t x e) stray);
          taken = g.taken;
        })
  | inr (l, own) ↦
      rw (done, e, own)
        (record {
          order =
              Inv-cong
                (λ u.
                  ap (λ y. at (shape_at s.turns) t y u) (ground (arith, own))
                  ∙ seen-adjust shape_of s.turns t finish x e u)
                (λ l. refl) (finished-Inv t l x x.canceled s g e own is_running);
          taken = λ key k f.
              let (y, there) = g.taken key k f in
              still_there l k (leave t x.canceled) s.lanes y there;
        })
]
