-- ===== src/Turns/Chain.antt =====
-- The order of the turns in a lane: what each turn waits for, and what stands before it.
pub mod Moves
pub mod Arrivals
use frost_agent.Prelude.{
  some_injective, ℕ, suc, ◌≤◌, ◌<◌, ◌==◌, ==_iff, ◌≡◌, ◌≢◌, refl, ap, subst, sym, ◌∙◌, Option, none,
  some, arith, Bool-cases, inl, inr, true, false, if◌then◌else◌,
}
use frost_agent.Turns.{Place, queued, running, finished}

-- What the order depends on of a turn.
pub record Shape : Type 0 where
  pub lane : Option ℕ
  pub wait : Option ℕ
  pub previous : Option ℕ
  pub place : Place

abbrev pub Shapes : Type 0
Shapes = ℕ → Option Shape

-- Every turn of a lane below `k` has finished.
abbrev pub Cleared : Shapes → ℕ → ℕ → Type 0
Cleared σ l k = (u : ℕ) (y : Shape) → σ u ≡ some y → y.lane ≡ some l → u < k → y.place ≡ finished

-- The last turn of a lane below `k`, unless all of them have finished.
abbrev pub Linked : Shapes → ℕ → ℕ → Option ℕ → Type 0
Linked σ l k none = Cleared σ l k
Linked σ l k (some v) =
    (v < k)
    × ((y : Shape) × (σ v ≡ some y) × (y.lane ≡ some l))
    × ((u : ℕ) (y : Shape) → σ u ≡ some y → y.lane ≡ some l → u < k → u ≤ v)

pub record Inv (σ : Shapes) (τ : ℕ → Option (Option ℕ)) (n m : ℕ) : Type 0 where
  pub turns_lt : (u : ℕ) (y : Shape) → σ u ≡ some y → u < n
  pub tails_lt : (l : ℕ) (o : Option ℕ) → τ l ≡ some o → l < m
  pub lanes_lt : (u : ℕ) (y : Shape) (l : ℕ) → σ u ≡ some y → y.lane ≡ some l → l < m
  pub waits : (u : ℕ) (y : Shape) (l : ℕ) → σ u ≡ some y → y.lane ≡ some l → Linked σ l u y.wait
  pub chained :
      (u : ℕ) (y : Shape) (l : ℕ) → σ u ≡ some y → y.lane ≡ some l → Linked σ l u y.previous
  pub started :
      (u : ℕ) (y : Shape) (l : ℕ)
      → σ u ≡ some y
      → y.lane ≡ some l
      → y.place ≢ queued
      → Cleared σ l u
  pub tails : (l : ℕ) (o : Option ℕ) → τ l ≡ some o → Linked σ l n o

-- A function, changed at one place.
abbrev pub at {ℓ} : {A : Type ℓ} → (ℕ → Option A) → ℕ → A → ℕ → Option A
at f k a u = if u == k then some a else f u

-- Below `k` the turns stay in their lanes, and those that have finished stay so.
pub record Grows (σ σ' : Shapes) (k : ℕ) : Type 0 where
  back :
      (u : ℕ) (y' : Shape)
      → σ' u ≡ some y'
      → u < k
      → (y : Shape) × (σ u ≡ some y)
        × (y.lane ≡ y'.lane)
        × (y.place ≡ finished → y'.place ≡ finished)
  forth : (u : ℕ) (y : Shape) → σ u ≡ some y → (y' : Shape) × (σ' u ≡ some y') × (y'.lane ≡ y.lane)

pub Cleared-grow : {σ σ' : Shapes} {l k : ℕ} → Grows σ σ' k → Cleared σ l k → Cleared σ' l k
Cleared-grow g c u y' e own below =
    let (y, e', same, keeps) = g.back u y' e below in keeps (c u y e' (same ∙ own) below)

pub Linked-grow :
    {σ σ' : Shapes} {k : ℕ} (l : ℕ) (o : Option ℕ) → Grows σ σ' k → Linked σ l k o → Linked σ' l k o
Linked-grow l none g c = Cleared-grow g c
Linked-grow l (some v) g (below, (y, e, own), last) =
    let (y', e', same) = g.forth v y e in
    (
      below,
      (y', e', same ∙ own),
      λ u z' f own' lt.
          let (z, f', same', keeps) = g.back u z' f lt in last u z f' (same' ∙ own') lt,
    )

pub at-hit {ℓ} : {A : Type ℓ} (f : ℕ → Option A) (k : ℕ) (a : A) → at f k a k ≡ some a
at-hit f k a = ground arith

pub at-miss {ℓ} :
    {A : Type ℓ} (f : ℕ → Option A) (k u : ℕ) (a : A) → (u == k) ≡ false → at f k a u ≡ f u
at-miss f k u a h = rw h refl

pub Grows-new :
    {σ : Shapes} {n k : ℕ} (x : Shape)
    → ((u : ℕ) (y : Shape) → σ u ≡ some y → u < n)
    → k ≤ n
    → Grows σ (at σ n x) k
Grows-new {σ} {n} x bound le = record {
  back = λ u y' e lt.
      let miss : (u == n) ≡ false = ground (arith, lt, le) in
      (y', sym (at-miss σ n u x miss) ∙ e, refl, λ h. h);
  forth = λ u y e.
      let lt = bound u y e in
      let miss : (u == n) ≡ false = ground (arith, lt) in (y, at-miss σ n u x miss ∙ e, refl);
}

pub Grows-move :
    {σ : Shapes} {k : ℕ} (t : ℕ) (x y : Shape)
    → σ t ≡ some y
    → y.lane ≡ x.lane
    → (y.place ≡ finished → x.place ≡ finished)
    → Grows σ (at σ t x) k
Grows-move {σ} t x y e same keeps = record {
  back = λ u y' e' lt. elim (Bool-cases (u == t)) [
    | inl hit ↦
        let is_t : u ≡ t = (==_iff u t).0 hit in
        let is_x : x ≡ y' = some_injective (rw hit at e') in
        (
          y,
          ap σ is_t ∙ e,
          same ∙ ap (λ z. z.lane) is_x,
          λ h. ap (λ z. z.place) (sym is_x) ∙ keeps h,
        )
    | inr miss ↦ (y', sym (at-miss σ t u x miss) ∙ e', refl, λ h. h)
  ];
  forth = λ u z e'. elim (Bool-cases (u == t)) [
    | inl hit ↦
        let is_t : u ≡ t = (==_iff u t).0 hit in
        let is_y : z ≡ y = some_injective (sym e' ∙ ap σ is_t ∙ e) in
        (x, rw hit refl, sym same ∙ ap (λ w. w.lane) (sym is_y))
    | inr miss ↦ (z, at-miss σ t u x miss ∙ e', refl)
  ];
}
