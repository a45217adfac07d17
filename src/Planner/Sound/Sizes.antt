-- ===== src/Planner/Sound/Sizes.antt =====
-- What the sizes keep of it.
use frost_agent.Prelude.{ℕ, ◌*◌, ◌≡◌, ◌≤◌, inl, inr, false, ◌==◌, ℤ, to_nat, arith, max, Bool-cases}
use frost_agent.Planner.{Planner, new_planner, or_default, set_max_buffer_size, set_buffer_size}
use frost_agent.Planner.Sound.{Sound, either-Sound}

max_right : (a b : ℕ) → b ≤ max a b
max_right a b = omega arith

max_left : (a b : ℕ) → a ≤ max a b
max_left a b = omega arith

resize-Sound :
    (size most : ℕ) (p : Planner)
    → 1 ≤ size
    → size ≤ most
    → Sound p
    → Sound (record p { buffer_size = size; max_buffer_size = most })
resize-Sound size most p h k v = record { busy = v.busy; due = v.due; low = h; high = k }

not_zero : (n : ℕ) → (n == 0) ≡ false → 1 ≤ n
not_zero n h = ground (arith, h)

pub set_buffer_size-Sound : (size : ℤ) (p : Planner) → Sound p → Sound (set_buffer_size size p)
unfolding set_buffer_size
set_buffer_size-Sound size p v = elim (Bool-cases (to_nat size == 0)) [
  | inl zero ↦ rw zero v
  | inr above ↦ rw above (resize-Sound _ _ p (not_zero _ above) (max_right p.max_buffer_size _) v)
]

pub set_max_buffer_size-Sound :
    (size : ℤ) (p : Planner) → Sound p → Sound (set_max_buffer_size size p)
unfolding set_max_buffer_size
set_max_buffer_size-Sound size p v =
    either-Sound (to_nat size == 0) _ _ v
      (resize-Sound _ _ p v.low (max_right (to_nat size) p.buffer_size) v)

or_default-above : (n : ℤ) (default : ℕ) → 1 ≤ default → 1 ≤ or_default n default
unfolding or_default
or_default-above n default h = elim (Bool-cases (to_nat n == 0)) [
  | inl zero ↦ rw zero h
  | inr above ↦ rw above (not_zero _ above)
]

pub new-Sound : (size interval : ℤ) → Sound (new_planner size interval)
unfolding new_planner
new-Sound size interval =
    let low = or_default-above size 20 (omega arith) in
    record {
      busy = omega arith;
      due = λ k f. absurd (ground (arith, f));
      low = low;
      high = omega (arith, max_left (or_default size 20 * 10) 200);
    }
