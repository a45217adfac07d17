-- ===== src/Planner/Promise.antt =====
-- At most one compaction at a time, and no ready batch that is forgotten.
use frost_agent.Prelude.{
  option-case, ℕ, suc, ◌≡◌, ◌≤◌, ◌<◌, refl, Bool, true, false, some, ◌==◌, ==_refl, if◌then◌else◌,
  pos, to_nat, arith, length, drop, max,
}
use frost_agent.GroupCompact.State.{GroupState}
use frost_agent.GroupCompact.Compact.{compact_ready}
use frost_agent.Planner.{
  Planner, set_retry_delay, schedule_trigger, launch_compact, Ending, success, failure, given_up,
  remaining, pause, with_grace, finish, call_back,
}
use frost_agent.Planner.Sound.{
  is_live, compactions, Sound, either-Sound, cancel-Sound, trigger-Sound, launch_run-Sound,
  finish-Sound, force-Sound,
}
use frost_agent.Planner.Sound.Timers.{fire-Sound, call_back-Sound}
use frost_agent.Planner.Sound.Sizes.{set_buffer_size-Sound, set_max_buffer_size-Sound, new-Sound}
use frost_agent.Planner.Steps.{
  Step, sets_max_buffer_size, sets_buffer_size, sets_retry_delay, stops_timers, cancels, triggers,
  forces, launches, finishes, fires, calls_back, calls, Reach, begin, later,
}

again-Sound :
    (p q : Planner)
    → compactions q ≡ compactions p
    → q.in_flight ≡ p.in_flight
    → ((t : ℕ) → q.scheduled ≡ some t → (q.scheduled_token ≡ t) × (is_live t q ≡ true))
    → q.buffer_size ≡ p.buffer_size
    → q.max_buffer_size ≡ p.max_buffer_size
    → Sound p
    → Sound q
again-Sound p q e f due g h v = record {
  busy = rw (e, f) v.busy;
  due = due;
  low = rw g v.low;
  high = rw (g, h) v.high;
}

Step-Sound : {p q : Planner} → Sound p → Step p q → Sound q
unfolding set_retry_delay launch_compact
Step-Sound {p} v (sets_max_buffer_size size) = set_max_buffer_size-Sound size p v
Step-Sound {p} v (sets_buffer_size size) = set_buffer_size-Sound size p v
Step-Sound {p} v (sets_retry_delay delay) =
    either-Sound (to_nat delay == 0) _ _ v (again-Sound p _ refl refl v.due refl refl v)
Step-Sound {p} v stops_timers = cancel-Sound p v
Step-Sound {p} v cancels = again-Sound p _ refl refl v.due refl refl v
Step-Sound {p} v (triggers now s) = trigger-Sound now s p v
Step-Sound {p} v (forces now s) = force-Sound now s p v
Step-Sound {p} v launches = launch_run-Sound p p.waiting refl v
Step-Sound {p} v (finishes now s ending here) = finish-Sound now s ending p here v
Step-Sound {p} v (fires t at now late armed) = fire-Sound t p v
Step-Sound {p} v (calls_back t waits) = call_back-Sound t p v
Step-Sound {p} v (calls now n s e) =
    trigger-Sound now s _ (again-Sound p _ refl refl v.due refl refl v)

Reach-Sound : {p : Planner} → Reach p → Sound p
Reach-Sound (begin size interval) = new-Sound size interval
Reach-Sound (later r step) = Step-Sound (Reach-Sound r) step

-- In every state that the calls, the timers and the goroutines of a compactor get to in any order:
-- a conversation has at most one compaction, started or about to start, and none unless it counts as
-- in flight; the batch size is at least 1 and the ceiling of the buffer is not below it.
pub one_compaction_at_once :
    {p : Planner}
    → Reach p
    → (compactions p ≤ (if p.in_flight then 1 else 0))
      × (1 ≤ p.buffer_size)
      × (p.buffer_size ≤ p.max_buffer_size)
one_compaction_at_once r = let v = Reach-Sound r in (v.busy, v.low, v.high)

schedule_trigger-scheduled :
    (now delay : ℕ) (p : Planner)
    → p.canceled ≡ false
    → (t : ℕ) × ((schedule_trigger now delay p).scheduled ≡ some t)
unfolding schedule_trigger
schedule_trigger-scheduled now delay p active =
    option-case (λ (q : Planner). (t : ℕ) × (q.scheduled ≡ some t)) p.scheduled _ _
      (rw active (_, refl)) (λ t e. (t, e))

call_back-calls :
    (t : ℕ) (p : Planner) → p.scheduled_token ≡ t → (call_back t p).calls ≡ suc p.calls
unfolding call_back
call_back-calls t p e = rw e (rw (==_refl t) refl)

-- Whether a compaction that ends so may be followed by another.
abbrev pub may_follow : Ending → Bool
may_follow success = true
may_follow failure = true
may_follow given_up = false

abbrev ended : Planner → Planner
ended p = record p { in_flight = false; running = drop 1 p.running }

ready-scheduled :
    (b : Bool) (now delay : ℕ) (p : Planner)
    → b ≡ true
    → p.canceled ≡ false
    → (t : ℕ) × ((if b then schedule_trigger now delay p else p).scheduled ≡ some t)
ready-scheduled b now delay p ready active =
    rw ready (schedule_trigger-scheduled now delay p active)

finish-scheduled :
    (now : ℕ) (s : GroupState) (ending : Ending) (p : Planner)
    → p.canceled ≡ false
    → compact_ready (pos p.buffer_size) s ≡ true
    → may_follow ending ≡ true
    → (t : ℕ) × ((finish now s ending p).scheduled ≡ some t)
unfolding finish pause
finish-scheduled now s success p active ready may =
    let q = ended p in ready-scheduled _ now (with_grace (remaining now q)) q ready active
finish-scheduled now s failure p active ready may =
    let q = ended p in
    ready-scheduled _ now (with_grace (max q.retry_delay (remaining now q))) q ready active
finish-scheduled now s given_up p active ready may = absurd (ground (arith, may))

-- A compaction that ends with a committed summary, or with a failure after which a retry is allowed,
-- while the context is not canceled and a full batch is ready, leaves a timer behind: the timer
-- still runs or its function waits for the lock, its token is the current one, and its function goes
-- on to call TriggerWithScope.
pub next_batch_is_due :
    {p : Planner}
    → Reach p
    → (now : ℕ) (s : GroupState) (ending : Ending) → 0 < length p.running
    → p.canceled ≡ false
    → compact_ready (pos p.buffer_size) s ≡ true
    → may_follow ending ≡ true
    → let q = finish now s ending p in
      (t : ℕ) × (q.scheduled ≡ some t)
      × (q.scheduled_token ≡ t)
      × (is_live t q ≡ true)
      × ((call_back t q).calls ≡ suc q.calls)
next_batch_is_due {p} r now s ending here active ready may =
    let (t, e) = finish-scheduled now s ending p active ready may in
    let (token, live) = (finish-Sound now s ending p here (Reach-Sound r)).due t e in
    (t, e, token, live, call_back-calls t _ token)
