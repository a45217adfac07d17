-- ===== src/Planner/Steps.antt =====
-- Every order in which the calls of a compactor, its timers and its goroutines come to the lock, for
-- one conversation.
use frost_agent.Prelude.{ℕ, ◌≡◌, ◌≤◌, true, ℤ, lookup, some, suc, any, ◌==◌, length, ◌<◌}
use frost_agent.GroupCompact.State.{GroupState}
use frost_agent.Planner.{
  Planner, new_planner, set_max_buffer_size, set_buffer_size, set_retry_delay, cancel_scheduled,
  trigger, force_compact, launch_compact, Ending, finish, fire, call_back,
}

pub data Step (p : Planner) : Planner → Type 0 where
  sets_max_buffer_size : (size : ℤ) → Step p (set_max_buffer_size size p)
  sets_buffer_size : (size : ℤ) → Step p (set_buffer_size size p)
  sets_retry_delay : (delay : ℤ) → Step p (set_retry_delay delay p)
  stops_timers : Step p (cancel_scheduled p)
  cancels : Step p (record p { canceled = true })
  triggers : (now : ℕ) (s : GroupState) → Step p (trigger now s p)
  forces : (now : ℕ) (s : GroupState) → Step p (force_compact now s p).0
  launches : Step p (launch_compact p)
  finishes :
      (now : ℕ) (s : GroupState) (ending : Ending)
      → 0 < length p.running
      → Step p (finish now s ending p)
  fires : (t at now : ℕ) → at ≤ now → lookup t p.armed ≡ some at → Step p (fire t p)
  calls_back : (t : ℕ) → any (λ u. u == t) p.fired ≡ true → Step p (call_back t p)
  calls :
      (now n : ℕ) (s : GroupState)
      → p.calls ≡ suc n
      → Step p (trigger now s (record p { calls = n }))

pub data Reach : Planner → Type 0 where
  begin : (buffer_size min_interval : ℤ) → Reach (new_planner buffer_size min_interval)
  later : {p q : Planner} → Reach p → Step p q → Reach q
