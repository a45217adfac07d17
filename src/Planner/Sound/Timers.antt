-- ===== src/Planner/Sound/Timers.antt =====
-- What the timers keep of it.
use frost_agent.Prelude.{
  ℕ, ◌≡◌, refl, ◌∙◌, subst, inl, inr, false, not, List, [], ◌∷◌, ◌==◌, arith, any, keep, Bool-cases,
}
use frost_agent.Planner.{Planner, fire, call_back}
use frost_agent.Planner.Sound.{Sound}

any-keep_other :
    (t u : ℕ) (l : List ℕ)
    → (t == u) ≡ false
    → any (λ a. a == t) (keep (λ a. not (a == u)) l) ≡ any (λ a. a == t) l
any-keep_other t u [] d = refl
any-keep_other t u (a ∷ l) d =
    let rest = any-keep_other t u l d in
    elim (Bool-cases (a == u)) [
      | inl hit ↦ rw hit (rest ∙ ground (arith, hit, d))
      | inr miss ↦ rw miss (rw rest refl)
    ]

any-keep_other_key :
    (t u : ℕ) (l : List (ℕ × ℕ))
    → (t == u) ≡ false
    → any (λ a. a.0 == t) (keep (λ a. not (a.0 == u)) l) ≡ any (λ a. a.0 == t) l
any-keep_other_key t u [] d = refl
any-keep_other_key t u ((a, at) ∷ l) d =
    let rest = any-keep_other_key t u l d in
    elim (Bool-cases (a == u)) [
      | inl hit ↦ rw hit (rest ∙ ground (arith, hit, d))
      | inr miss ↦ rw miss (rw rest refl)
    ]

pub fire-Sound : (t : ℕ) (p : Planner) → Sound p → Sound (fire t p)
unfolding fire
fire-Sound t p v = record {
  busy = v.busy;
  due = λ k e. (
    (v.due k e).0,
    elim (Bool-cases (k == t)) [
      | inl hit ↦ ground (arith, hit)
      | inr miss ↦
          let still = any-keep_other_key k t p.armed miss in
          rw still (ground (arith, (v.due k e).1))
    ],
  );
  low = v.low;
  high = v.high;
}

pub call_back-Sound : (t : ℕ) (p : Planner) → Sound p → Sound (call_back t p)
unfolding call_back
call_back-Sound t p v = elim (Bool-cases (p.scheduled_token == t)) [
  | inl mine ↦ rw mine (record {
    busy = v.busy;
    due = λ k f. absurd (ground (arith, f));
    low = v.low;
    high = v.high;
  })
  | inr stale ↦ rw stale (record {
    busy = v.busy;
    due = λ k e.
        let (token, live) = v.due k e in
        let other : (k == t) ≡ false = subst (λ n. (n == t) ≡ false) token stale in
        (token, rw (any-keep_other k t p.fired other) live);
    low = v.low;
    high = v.high;
  })
]
