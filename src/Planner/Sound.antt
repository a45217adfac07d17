-- ===== src/Planner/Sound.antt =====
-- What every step keeps: one compaction at most, and a scheduled timer that still runs or waits.
pub mod Timers
pub mod Sizes
use frost_agent.Prelude.{
  option-case, ℕ, suc, ◌+◌, ◌-◌, ◌*◌, ◌≡◌, ◌≤◌, ◌<◌, refl, ap, ◌∙◌, subst, inl, inr, Bool, true,
  false, not, ◌||◌, Option, none, some, List, [], ◌∷◌, ◌==◌, ==_refl, if◌then◌else◌, ℤ, pos, to_nat,
  arith, any, keep, drop, length, max, Bool-cases, some_injective,
}
use frost_agent.GroupCompact.State.{GroupState, Snapshot}
use frost_agent.GroupCompact.Compact.{snapshot_compact, compact_ready}
use frost_agent.Planner.{
  Planner, new_planner, or_default, set_max_buffer_size, set_buffer_size, arm, schedule_trigger,
  cancel_scheduled, cooling, start, trigger, Refusal, nothing_to_compact, force_compact, launch_run,
  Ending, pause, with_grace, grace, finish, fire, call_back,
}

-- Whether a timer still runs or its function waits for the lock.
abbrev pub is_live : ℕ → Planner → Bool
is_live t p = any (λ e. e.0 == t) p.armed || any (λ u. u == t) p.fired

-- How many compactions there are.
abbrev pub compactions : Planner → ℕ
compactions p = length p.waiting + length p.running

pub record Sound (p : Planner) : Type 0 where
  pub busy : compactions p ≤ (if p.in_flight then 1 else 0)
  pub due : (t : ℕ) → p.scheduled ≡ some t → (p.scheduled_token ≡ t) × (is_live t p ≡ true)
  pub low : 1 ≤ p.buffer_size
  pub high : p.buffer_size ≤ p.max_buffer_size

pub either-Sound : (b : Bool) (x y : Planner) → Sound x → Sound y → Sound (if b then x else y)
either-Sound true x y v w = v
either-Sound false x y v w = w

pub cancel-Sound : (p : Planner) → Sound p → Sound (cancel_scheduled p)
unfolding cancel_scheduled
cancel-Sound p v = option-case Sound p.scheduled _ _ v (λ t e. record {
  busy = v.busy;
  due = λ k f. absurd (ground (arith, f));
  low = v.low;
  high = v.high;
})

arm-Sound : (now delay : ℕ) (p : Planner) → Sound p → Sound (arm now delay p)
arm-Sound now delay p v = record {
  busy = v.busy;
  due = λ t e. (some_injective e, rw (some_injective e) (rw (==_refl t) refl));
  low = v.low;
  high = v.high;
}

pub schedule-Sound : (now delay : ℕ) (p : Planner) → Sound p → Sound (schedule_trigger now delay p)
unfolding schedule_trigger
schedule-Sound now delay p v =
    option-case Sound p.scheduled _ _ (either-Sound p.canceled _ _ v (arm-Sound now delay p v))
      (λ t e. v)

cancel_scheduled-compactions : (p : Planner) → compactions (cancel_scheduled p) ≡ compactions p
unfolding cancel_scheduled
cancel_scheduled-compactions p =
    option-case (λ q. compactions q ≡ compactions p) p.scheduled _ _ refl (λ t e. refl)

start-Sound :
    (now : ℕ) (snap : Snapshot) (p : Planner)
    → p.in_flight ≡ false
    → Sound p
    → Sound (start now snap p)
unfolding start
start-Sound now snap p free v =
    let w = cancel-Sound p v in
    let none_yet : compactions p ≤ 0 = rw free at v.busy in
    record {
      busy = omega (arith, none_yet, cancel_scheduled-compactions p);
      due = w.due;
      low = w.low;
      high = w.high;
    }

pub trigger-Sound : (now : ℕ) (s : GroupState) (p : Planner) → Sound p → Sound (trigger now s p)
unfolding trigger
trigger-Sound now s p v = elim (Bool-cases (p.canceled || p.in_flight)) [
  | inl stop ↦ rw stop v
  | inr go ↦
      let free : p.in_flight ≡ false = ground (arith, go) in
      rw go (
        option-case Sound (cooling now p) _ _
          (option-case Sound (snapshot_compact (pos p.buffer_size) s) _ _ v
            (λ snap e. start-Sound now snap p free v))
          (λ elapsed e.
            either-Sound (compact_ready (pos p.buffer_size) s) _ _
              (schedule-Sound now (p.min_interval - elapsed + grace) p v) v))
]

pub launch_run-Sound :
    (p : Planner) (l : List Snapshot) → p.waiting ≡ l → Sound p → Sound (launch_run p l)
unfolding launch_run
launch_run-Sound p [] e v = v
launch_run-Sound p (snap ∷ rest) e v =
    let count : length p.waiting ≡ suc (length rest) = ap length e in
    either-Sound p.canceled _ _
      (record { busy = omega (arith, v.busy, count); due = v.due; low = v.low; high = v.high })
      (record { busy = omega (arith, v.busy, count); due = v.due; low = v.low; high = v.high })

-- A compaction has ended, the only one.
pub ended-Sound :
    (p : Planner)
    → 0 < length p.running
    → Sound p
    → Sound (record p { in_flight = false; running = drop 1 p.running })
ended-Sound p here v = record {
  busy = one_less p.in_flight p.waiting p.running here v.busy;
  due = v.due;
  low = v.low;
  high = v.high;
}
  where
    one_less :
        (b : Bool) (w r : List Snapshot)
        → 0 < length r
        → length w + length r ≤ (if b then 1 else 0)
        → length w + length (drop 1 r) ≤ 0
    one_less b w [] h k = absurd (omega (arith, h))
    one_less true w (a ∷ r) h k = omega (arith, k)
    one_less false w (a ∷ r) h k = absurd (omega (arith, k))

pub finish-Sound :
    (now : ℕ) (s : GroupState) (ending : Ending) (p : Planner)
    → 0 < length p.running
    → Sound p
    → Sound (finish now s ending p)
unfolding finish
finish-Sound now s ending p here v =
    let q = record p { in_flight = false; running = drop 1 p.running } in
    let w = ended-Sound p here v in
    option-case Sound (pause now ending q) _ _ w (λ delay e.
      either-Sound (compact_ready (pos p.buffer_size) s) _ _
        (schedule-Sound now (with_grace delay) q w) w)

pub force-Sound :
    (now : ℕ) (s : GroupState) (p : Planner) → Sound p → Sound (force_compact now s p).0
unfolding force_compact
force-Sound now s p v = elim (Bool-cases p.canceled) [
  | inl stop ↦ simp stop v
  | inr go ↦ elim (Bool-cases p.in_flight) [
    | inl busy ↦ simp (go, busy) v
    | inr free ↦ simp (go, free) (found (snapshot_compact (pos 1) s) free)
  ]
]
  where
    found :
        (o : Option Snapshot)
        → p.in_flight ≡ false
        → Sound
            (elim o as (λ z. Planner × Option Refusal) [
              | none ↦ (p, some nothing_to_compact)
              | some snap ↦ (start now snap p, none)
            ]).0
    found none free = v
    found (some snap) free = start-Sound now snap p free v
