-- ===== src/Turns/Chain/Arrivals.antt =====
-- Turns that join a lane, begin and finish.
use frost_agent.Prelude.{
  some_injective, ℕ, suc, ◌≤◌, ◌<◌, ◌≡◌, refl, ap, subst, sym, ◌∙◌, Option, none, some, arith, inl,
  inr, ◌==◌, ==_iff, Bool-cases,
}
use frost_agent.Turns.{queued, running, finished}
use frost_agent.Turns.Chain.{
  Shape, Shapes, Cleared, Linked, Inv, at, at-hit, Grows, Grows-new, Cleared-grow, Linked-grow,
}
use frost_agent.Turns.Chain.Moves.{at-cases, Linked-extend, Inv-tail, Inv-move}

-- A turn as it is when it has just been reserved.
abbrev pub arriving : Option ℕ → Option ℕ → Option ℕ → Shape
arriving lane wait previous = record {
  lane = lane;
  wait = wait;
  previous = previous;
  place = queued;
}

module _ {σ : Shapes} {τ : ℕ → Option (Option ℕ)} {n m : ℕ} (inv : Inv σ τ n m) where
  -- A turn behind the last one of its lane.
  pub Inv-reserve :
      (l : ℕ) (o : Option ℕ)
      → τ l ≡ some o
      → Inv (at σ n (arriving (some l) o o)) (at τ l (some n)) (suc n) m
  Inv-reserve l o e = record {
    turns_lt = λ u y f. elim (at-cases σ n u x y f) [
      | inl (is_n, _) ↦ omega (arith, is_n)
      | inr (_, f') ↦ let lt = inv.turns_lt u y f' in omega (arith, lt)
    ];
    tails_lt = λ k p f. elim (at-cases τ l k (some n) p f) [
      | inl (is_l, _) ↦ let lt = inv.tails_lt l o e in omega (arith, lt, is_l)
      | inr (_, f') ↦ inv.tails_lt k p f'
    ];
    lanes_lt = λ u y k f own. elim (at-cases σ n u x y f) [
      | inl (_, is_x) ↦
          let lt = inv.tails_lt l o e in let is_l = lane_of y k is_x own in omega (arith, lt, is_l)
      | inr (_, f') ↦ inv.lanes_lt u y k f' own
    ];
    waits = λ u y k f own. elim (at-cases σ n u x y f) [
      | inl (is_n, is_x) ↦ joined u y k y.wait is_n (lane_of y k is_x own) (ap (λ z. z.wait) is_x)
      | inr (_, f') ↦ Linked-grow k y.wait (grow u (inv.turns_lt u y f')) (inv.waits u y k f' own)
    ];
    chained = λ u y k f own. elim (at-cases σ n u x y f) [
      | inl (is_n, is_x) ↦
          joined u y k y.previous is_n (lane_of y k is_x own) (ap (λ z. z.previous) is_x)
      | inr (_, f') ↦
          Linked-grow k y.previous (grow u (inv.turns_lt u y f')) (inv.chained u y k f' own)
    ];
    started = λ u y k f own busy. elim (at-cases σ n u x y f) [
      | inl (_, is_x) ↦ absurd (busy (ap (λ z. z.place) (sym is_x)))
      | inr (_, f') ↦ Cleared-grow (grow u (inv.turns_lt u y f')) (inv.started u y k f' own busy)
    ];
    tails = λ k p f. elim (at-cases τ l k (some n) p f) [
      | inl (is_l, is_n) ↦
          subst (Linked σ' k (suc n)) is_n
            (omega arith, (x, at-hit σ n x, ap some (sym is_l)), λ u y g own lt. omega (arith, lt))
      | inr (miss, f') ↦
          Linked-extend σ' k n p
            (λ y g own.
              let is_x = some_injective (sym (at-hit σ n x) ∙ g) in
              let is_l = lane_of y k is_x own in absurd (ground (arith, miss, is_l)))
            (Linked-grow k p (grown n (omega arith)) (inv.tails k p f'))
    ];
  }
    where
      x : Shape
      x = arriving (some l) o o

      σ' : Shapes
      σ' = at σ n x

      lane_of : (y : Shape) (k : ℕ) → x ≡ y → y.lane ≡ some k → l ≡ k
      lane_of y k is_x own = some_injective (ap (λ z. z.lane) is_x ∙ own)

      grown : (k : ℕ) → k ≤ n → Grows σ (at σ n x) k
      grown k le = Grows-new x inv.turns_lt le

      grow : (k : ℕ) → k < n → Grows σ (at σ n x) k
      grow k lt = grown k (omega (arith, lt))

      joined :
          (u : ℕ) (y : Shape) (k : ℕ) (p : Option ℕ)
          → u ≡ n
          → l ≡ k
          → o ≡ p
          → Linked (at σ n x) k u p
      joined u y k p is_n is_l is_o =
          subst (λ j. Linked (at σ n x) k j p) (sym is_n)
            (subst (λ j. Linked (at σ n x) j n p) is_l
              (subst (Linked (at σ n x) l n) is_o
                (Linked-grow l o (grown n (omega arith)) (inv.tails l o e))))

  -- A turn that is in no lane.
  pub Inv-plain : (w : Option ℕ) → Inv (at σ n (arriving none w none)) τ (suc n) m
  Inv-plain w = record {
    turns_lt = λ u y f. elim (at-cases σ n u x y f) [
      | inl (is_n, _) ↦ omega (arith, is_n)
      | inr (_, f') ↦ let lt = inv.turns_lt u y f' in omega (arith, lt)
    ];
    tails_lt = inv.tails_lt;
    lanes_lt = λ u y k f own. inv.lanes_lt u y k (old u y k f own) own;
    waits = λ u y k f own.
        let f' = old u y k f own in
        Linked-grow k y.wait (grow u (inv.turns_lt u y f')) (inv.waits u y k f' own);
    chained = λ u y k f own.
        let f' = old u y k f own in
        Linked-grow k y.previous (grow u (inv.turns_lt u y f')) (inv.chained u y k f' own);
    started = λ u y k f own busy.
        let f' = old u y k f own in
        Cleared-grow (grow u (inv.turns_lt u y f')) (inv.started u y k f' own busy);
    tails = λ k p f.
        Linked-extend σ' k n p (λ y g own. stray y k (some_injective (sym (at-hit σ n x) ∙ g)) own)
          (Linked-grow k p (Grows-new x inv.turns_lt (omega arith)) (inv.tails k p f));
  }
    where
      x : Shape
      x = arriving none w none

      σ' : Shapes
      σ' = at σ n x

      stray : {Q : Type 0} (y : Shape) (k : ℕ) → x ≡ y → y.lane ≡ some k → Q
      stray y k is_x own = let h = ap (λ z. z.lane) is_x ∙ own in absurd (ground (arith, h))

      old : (u : ℕ) (y : Shape) (k : ℕ) → at σ n x u ≡ some y → y.lane ≡ some k → σ u ≡ some y
      old u y k f own = elim (at-cases σ n u x y f) [
        | inl (_, is_x) ↦ stray y k is_x own
        | inr (_, f') ↦ f'
      ]

      grow : (k : ℕ) → k < n → Grows σ (at σ n x) k
      grow k lt = Grows-new x inv.turns_lt (omega (arith, lt))

  -- A turn that begins: what it waits for has finished.
  pub Inv-start :
      (t : ℕ) (x : Shape)
      → σ t ≡ some x
      → x.place ≡ queued
      → ((v : ℕ) → x.wait ≡ some v → (y : Shape) × (σ v ≡ some y) × (y.place ≡ finished))
      → Inv (at σ t (record x { place = running })) τ n m
  Inv-start t x e is_queued ready =
      Inv-move inv t x (record x { place = running }) e refl refl
        (λ h. absurd (ground (arith, h, is_queued))) (λ l own. inv.chained t x l e own)
        (λ l own _. cleared l own x.wait (inv.waits t x l e own) ready)
    where
      cleared :
          (l : ℕ)
          → x.lane ≡ some l
          → (w : Option ℕ) → Linked σ l t w
          → ((v : ℕ) → w ≡ some v → (y : Shape) × (σ v ≡ some y) × (y.place ≡ finished))
          → Cleared σ l t
      cleared l own none c ready = c
      cleared l own (some v) (below, (z, f, in_lane), last) ready =
          let (y, f', over) = ready v refl in
          let is_y : z ≡ y = some_injective (sym f ∙ f') in
          let own' = ap (λ q. q.lane) (sym is_y) ∙ in_lane in
          λ u q g own_q lt. elim (Bool-cases (u == v)) [
            | inl hit ↦
                let is_q : q ≡ y = some_injective (sym g ∙ ap σ ((==_iff u v).0 hit) ∙ f') in
                ap (λ r. r.place) is_q ∙ over
            | inr miss ↦
                let le = last u q g own_q lt in
                inv.started v y l f' own' (λ r. absurd (ground (arith, over, r))) u q g own_q
                  (ground (arith, le, miss))
          ]

  -- A turn of no lane that finishes.
  pub Inv-finish_plain :
      (t : ℕ) (x : Shape)
      → σ t ≡ some x
      → x.lane ≡ none
      → Inv (at σ t (record x { place = finished })) τ n m
  Inv-finish_plain t x e stray =
      Inv-move inv t x (record x { place = finished }) e refl refl (λ h. refl)
        (λ l own. absurd (ground (arith, stray, own)))
        (λ l own _. absurd (ground (arith, stray, own)))

  -- A turn that finishes in its lane.
  module _ (t l : ℕ) (x : Shape) (e : σ t ≡ some x) (own : x.lane ≡ some l)
      (is_running : x.place ≡ running) where
    over : Shape
    over = record x { previous = none; place = finished }

    all_before : (k : ℕ) → x.lane ≡ some k → Cleared σ k t
    all_before k own' = inv.started t x k e own' (λ h. absurd (ground (arith, is_running, h)))

    pub Inv-finish : Inv (at σ t (record x { previous = none; place = finished })) τ n m
    unfolding over
    Inv-finish =
        Inv-move inv t x over e refl refl (λ h. refl) (λ k own'. all_before k own')
          (λ k own' _. all_before k own')

    pub Inv-finish_last :
        τ l ≡ some (some t)
        → Inv (at σ t (record x { previous = none; place = finished })) (at τ l none) n m
    unfolding over
    Inv-finish_last is_last =
        let (_, _, last) = inv.tails l (some t) is_last in
        Inv-tail Inv-finish l (some t) none is_last (λ u y f own' lt.
          elim (at-cases σ t u over y f) [
            | inl (_, is_x) ↦ ap (λ z. z.place) (sym is_x)
            | inr (miss, f') ↦
                let le = last u y f' own' lt in
                all_before l own u y f' own' (ground (arith, le, miss))
          ])
