-- ===== src/Turns/Shapes.antt =====
-- The order of the turns of a session, and what the operations make of it.
use frost_agent.Prelude.{
  some_injective, ℕ, zero, suc, ◌≡◌, ◌==◌, ==_iff, refl, sym, ◌∙◌, subst, Option, none, some, List,
  [], ◌∷◌, arith, Bool-cases, inl, inr, false, if◌then◌else◌, lookup, adjust, lookup-adjust,
}
use frost_agent.Turns.{
  Turn, Lane, mark, cancel, previous_of, cancel_chain, cancel_lane, cancel_lanes, lane_at,
}
use frost_agent.Turns.Chain.{Shape, Shapes, Inv, at}

abbrev pub shape_of : Turn → Shape
shape_of x = record { lane = x.lane; wait = x.wait; previous = x.previous; place = x.place }

-- What a map has for each key, as far as `f` shows it.
module _ {ℓ κ} {V : Type ℓ} {W : Type κ} (f : V → W) where
  unfoldable pub seen : List (ℕ × V) → ℕ → Option W
  seen [] u = none
  seen ((j, v) ∷ m) u = let rest = seen m u in if j == u then some (f v) else rest

  pub seen-found : (m : List (ℕ × V)) (k : ℕ) (v : V) → lookup k m ≡ some v → seen m k ≡ some (f v)
  unfolding seen
  seen-found [] k v h = ground arith
  seen-found ((j, w) ∷ m) k v h = elim (Bool-cases (j == k)) [
    | inl hit ↦ ground (arith, h, hit)
    | inr miss ↦ ground (arith, miss, seen-found m k v (ground (arith, h, miss)))
  ]

  pub seen-cons :
      (m : List (ℕ × V)) (n : ℕ) (v : V) (u : ℕ) → at (seen m) n (f v) u ≡ seen ((n, v) ∷ m) u
  unfolding seen
  seen-cons m n v u = ground arith

  -- A change that `f` does not notice.
  pub seen-same :
      (m : List (ℕ × V)) (k : ℕ) (g : V → V)
      → ((v : V) → f (g v) ≡ f v)
      → (u : ℕ) → seen (adjust k g m) u ≡ seen m u
  unfolding seen
  seen-same [] k g same u = refl
  seen-same ((j, v) ∷ m) k g same u = ground (arith, same v, seen-same m k g same u)

  seen-adjust_other :
      (m : List (ℕ × V)) (k u : ℕ) (g : V → V) → (u == k) ≡ false → seen (adjust k g m) u ≡ seen m u
  unfolding seen
  seen-adjust_other [] k u g h = refl
  seen-adjust_other ((j, v) ∷ m) k u g h =
      ground (arith, ==_iff j k, ==_iff j u, ==_iff u k, h, seen-adjust_other m k u g h)

  pub seen-adjust_missing :
      (m : List (ℕ × V)) (k : ℕ) (g : V → V)
      → lookup k m ≡ none
      → (u : ℕ) → seen (adjust k g m) u ≡ seen m u
  unfolding seen
  seen-adjust_missing [] k g h u = refl
  seen-adjust_missing ((j, v) ∷ m) k g h u = elim (Bool-cases (j == k)) [
    | inl hit ↦ absurd (ground (arith, h, hit))
    | inr miss ↦ ground (arith, miss, seen-adjust_missing m k g (rw miss at h) u)
  ]

  pub seen-lookup :
      (m : List (ℕ × V)) (k : ℕ) (w : W)
      → seen m k ≡ some w
      → (v : V) × (lookup k m ≡ some v) × (f v ≡ w)
  unfolding seen
  seen-lookup [] k w h = ground arith
  seen-lookup ((j, v) ∷ m) k w h = elim (Bool-cases (j == k)) [
    | inl hit ↦ (v, rw hit refl, some_injective (rw hit at h))
    | inr miss ↦ let (v', e, q) = seen-lookup m k w (rw miss at h) in (v', rw miss e, q)
  ]

  pub seen-adjust :
      (m : List (ℕ × V)) (k : ℕ) (g : V → V) (v : V)
      → lookup k m ≡ some v
      → (u : ℕ) → at (seen m) k (f (g v)) u ≡ seen (adjust k g m) u
  unfolding seen
  seen-adjust m k g v h u = elim (Bool-cases (u == k)) [
    | inl hit ↦
        let is_k : u ≡ k = (==_iff u k).0 hit in
        rw (hit, is_k) (sym (seen-found (adjust k g m) k (g v) (lookup-adjust k g m v h)))
    | inr miss ↦ rw miss (sym (seen-adjust_other m k u g miss))
  ]

abbrev pub shape_at : List (ℕ × Turn) → Shapes
shape_at turns = seen shape_of turns

abbrev pub tail_at : List (ℕ × Lane) → ℕ → Option (Option ℕ)
tail_at lanes = seen (λ x. x.tail) lanes

pub Inv-cong :
    {σ σ' : Shapes} {τ τ' : ℕ → Option (Option ℕ)} {n m : ℕ}
    → ((u : ℕ) → σ u ≡ σ' u)
    → ((l : ℕ) → τ l ≡ τ' l)
    → Inv σ τ n m
    → Inv σ' τ' n m
Inv-cong {n = n} {m = m} e f inv =
    subst (λ (p : Shapes × (ℕ → Option (Option ℕ))). Inv p.0 p.1 n m)
      (λ i. (λ u. e u i, λ l. f l i)) inv

-- Cancelling moves no turn.
pub shape_at-cancel :
    (o : Option ℕ) (turns : List (ℕ × Turn)) (u : ℕ)
    → shape_at (cancel o turns) u ≡ shape_at turns u
shape_at-cancel none turns u = refl
shape_at-cancel (some t) turns u = seen-same shape_of turns t mark (λ x. refl) u

pub shape_at-cancel_chain :
    (fuel : ℕ) (o : Option ℕ) (turns : List (ℕ × Turn)) (u : ℕ)
    → shape_at (cancel_chain fuel o turns) u ≡ shape_at turns u
unfolding cancel_chain
shape_at-cancel_chain zero o turns u = refl
shape_at-cancel_chain (suc fuel) none turns u = refl
shape_at-cancel_chain (suc fuel) (some t) turns u =
    shape_at-cancel_chain fuel (previous_of t turns) (cancel (some t) turns) u
    ∙ shape_at-cancel (some t) turns u

pub shape_at-cancel_lane :
    (fuel : ℕ) (lane : Lane) (turns : List (ℕ × Turn)) (u : ℕ)
    → shape_at (cancel_lane fuel lane turns) u ≡ shape_at turns u
unfolding cancel_lane
shape_at-cancel_lane fuel lane turns u =
    shape_at-cancel_chain fuel lane.tail (cancel lane.active turns) u
    ∙ shape_at-cancel lane.active turns u

pub shape_at-cancel_lanes :
    (fuel : ℕ) (ls : List ℕ) (lanes : List (ℕ × Lane)) (turns : List (ℕ × Turn)) (u : ℕ)
    → shape_at (cancel_lanes fuel ls lanes turns) u ≡ shape_at turns u
unfolding cancel_lanes
shape_at-cancel_lanes fuel [] lanes turns u = refl
shape_at-cancel_lanes fuel (l ∷ ls) lanes turns u =
    shape_at-cancel_lanes fuel ls lanes (cancel_lane fuel (lane_at l lanes) turns) u
    ∙ shape_at-cancel_lane fuel (lane_at l lanes) turns u
