-- ===== src/Turns/Chain/Moves.antt =====
-- What the operations on turns do to the order in the lanes.
use frost_agent.Prelude.{
  some_injective, ℕ, suc, ◌==◌, ==_iff, ◌≡◌, ◌≢◌, ap, subst, sym, ◌∙◌, ◌⊎◌, Option, none, some,
  arith, Bool-cases, inl, inr, false,
}
use frost_agent.Turns.{queued, finished}
use frost_agent.Turns.Chain.{
  Shape, Shapes, Cleared, Linked, Inv, at, at-miss, Grows, Grows-move, Cleared-grow, Linked-grow,
}

pub at-cases {ℓ} :
    {A : Type ℓ} (f : ℕ → Option A) (k u : ℕ) (a b : A)
    → at f k a u ≡ some b
    → ((u ≡ k) × (a ≡ b)) ⊎ (((u == k) ≡ false) × (f u ≡ some b))
at-cases f k u a b e = elim (Bool-cases (u == k)) [
  | inl hit ↦ inl ((==_iff u k).0 hit, some_injective (rw hit at e))
  | inr miss ↦ inr (miss, sym (at-miss f k u a miss) ∙ e)
]

-- What is last below `n` is last below `n + 1` where turn `n` is in no such lane.
pub Linked-extend :
    (σ : Shapes) (l n : ℕ) (o : Option ℕ)
    → ((y : Shape) → σ n ≡ some y → y.lane ≢ some l)
    → Linked σ l n o
    → Linked σ l (suc n) o
Linked-extend σ l n none apart c = λ u y e own lt. elim (Bool-cases (u == n)) [
  | inl hit ↦ absurd (apart y (ap σ (sym ((==_iff u n).0 hit)) ∙ e) own)
  | inr miss ↦ c u y e own (ground (arith, lt, miss))
]
Linked-extend σ l n (some v) apart (below, there, last) = (
  omega (arith, below),
  there,
  λ u y e own lt. elim (Bool-cases (u == n)) [
    | inl hit ↦ absurd (apart y (ap σ (sym ((==_iff u n).0 hit)) ∙ e) own)
    | inr miss ↦ last u y e own (ground (arith, lt, miss))
  ],
)

module _ {σ : Shapes} {τ : ℕ → Option (Option ℕ)} {n m : ℕ} (inv : Inv σ τ n m) where
  -- A new lane.
  pub Inv-lane : Inv σ (at τ m none) n (suc m)
  Inv-lane = record {
    turns_lt = inv.turns_lt;
    tails_lt = λ l o e. elim (at-cases τ m l none o e) [
      | inl (is_m, _) ↦ omega (arith, is_m)
      | inr (_, e') ↦ let lt = inv.tails_lt l o e' in omega (arith, lt)
    ];
    lanes_lt = λ u y l e own. let lt = inv.lanes_lt u y l e own in omega (arith, lt);
    waits = inv.waits;
    chained = inv.chained;
    started = inv.started;
    tails = λ l o e. elim (at-cases τ m l none o e) [
      | inl (is_m, is_none) ↦
          subst (Linked σ l n) is_none
            (λ u y e' own _. let lt = inv.lanes_lt u y l e' own in absurd (omega (arith, lt, is_m)))
      | inr (_, e') ↦ inv.tails l o e'
    ];
  }

  -- Another last turn of a lane.
  pub Inv-tail : (l : ℕ) (o o' : Option ℕ) → τ l ≡ some o → Linked σ l n o' → Inv σ (at τ l o') n m
  Inv-tail l o o' e linked = record {
    turns_lt = inv.turns_lt;
    tails_lt = λ l' p e'. elim (at-cases τ l l' o' p e') [
      | inl (is_l, _) ↦ let lt = inv.tails_lt l o e in omega (arith, lt, is_l)
      | inr (_, f) ↦ inv.tails_lt l' p f
    ];
    lanes_lt = inv.lanes_lt;
    waits = inv.waits;
    chained = inv.chained;
    started = inv.started;
    tails = λ l' p e'. elim (at-cases τ l l' o' p e') [
      | inl (is_l, is_o) ↦ subst (λ k. Linked σ k n p) (sym is_l) (subst (Linked σ l n) is_o linked)
      | inr (_, f) ↦ inv.tails l' p f
    ];
  }

  -- A turn that goes on in its lane.
  pub Inv-move :
      (t : ℕ) (x x' : Shape)
      → σ t ≡ some x
      → x.lane ≡ x'.lane
      → x.wait ≡ x'.wait
      → (x.place ≡ finished → x'.place ≡ finished)
      → ((l : ℕ) → x'.lane ≡ some l → Linked σ l t x'.previous)
      → ((l : ℕ) → x'.lane ≡ some l → x'.place ≢ queued → Cleared σ l t)
      → Inv (at σ t x') τ n m
  Inv-move t x x' e same waits keeps behind cleared = record {
    turns_lt = λ u y f. elim (at-cases σ t u x' y f) [
      | inl (is_t, _) ↦ let lt = inv.turns_lt t x e in omega (arith, lt, is_t)
      | inr (_, f') ↦ inv.turns_lt u y f'
    ];
    tails_lt = inv.tails_lt;
    lanes_lt = λ u y l f own. elim (at-cases σ t u x' y f) [
      | inl (is_t, is_x) ↦ inv.lanes_lt t x l e (same ∙ ap (λ z. z.lane) is_x ∙ own)
      | inr (_, f') ↦ inv.lanes_lt u y l f' own
    ];
    waits = λ u y l f own. elim (at-cases σ t u x' y f) [
      | inl (is_t, is_x) ↦ Linked-grow l y.wait (grow u) (
          subst (λ k. Linked σ l k y.wait) (sym is_t)
            (subst (Linked σ l t) (waits ∙ ap (λ z. z.wait) is_x)
              (inv.waits t x l e (same ∙ ap (λ z. z.lane) is_x ∙ own))))
      | inr (_, f') ↦ Linked-grow l y.wait (grow u) (inv.waits u y l f' own)
    ];
    chained = λ u y l f own. elim (at-cases σ t u x' y f) [
      | inl (is_t, is_x) ↦ Linked-grow l y.previous (grow u) (
          subst (λ k. Linked σ l k y.previous) (sym is_t)
            (subst (Linked σ l t) (ap (λ z. z.previous) is_x)
              (behind l (ap (λ z. z.lane) is_x ∙ own))))
      | inr (_, f') ↦ Linked-grow l y.previous (grow u) (inv.chained u y l f' own)
    ];
    started = λ u y l f own busy. elim (at-cases σ t u x' y f) [
      | inl (is_t, is_x) ↦ Cleared-grow (grow u) (
          subst (Cleared σ l) (sym is_t) (
            cleared l (ap (λ z. z.lane) is_x ∙ own) (λ q. busy (ap (λ z. z.place) (sym is_x) ∙ q))))
      | inr (_, f') ↦ Cleared-grow (grow u) (inv.started u y l f' own busy)
    ];
    tails = λ l o f. Linked-grow l o (grow n) (inv.tails l o f);
  }
    where
      grow : (k : ℕ) → Grows σ (at σ t x') k
      grow k = Grows-move t x' x e same keeps
