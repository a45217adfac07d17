-- ===== src/Barrier.antt =====
-- internal/llm/session.go: the commit barriers that keep a background write and a reset apart.
-- A `done` channel is a number; making a new one takes the next number.
pub mod Extraction
pub mod Distillation
use frost_agent.Prelude.{ℕ, suc, Bool, true, false, ◌||◌, ltb, ◌==◌, ◌&&◌, if◌then◌else◌}

-- barrierState
pub data BarrierState : Type 0 where
  pending writing done aborted : BarrierState

abbrev pub is_writing : BarrierState → Bool
is_writing writing = true
is_writing _ = false

abbrev pub is_open : BarrierState → Bool
is_open pending = true
is_open writing = true
is_open _ = false

-- The fields that sessionExtractionBarrier and groupDistillationBarrier share.
pub record Barrier : Type 0 where
  pub state : BarrierState
  pub is_aborted : Bool
  pub ctx_done : Bool  -- ctx.Err() != nil
  pub channel : ℕ
  pub done_closed : Bool

-- A barrier as the session makes it.
abbrev pub fresh_barrier : Barrier
fresh_barrier = record {
  state = pending;
  is_aborted = false;
  ctx_done = false;
  channel = 0;
  done_closed = false;
}

-- closeDoneLocked
abbrev pub close_done : Barrier → Barrier
close_done b = record b { done_closed = true }

-- Whether a receive from a channel that the barrier had at some time returns.
abbrev pub released : Barrier → ℕ → Bool
released b c = ltb c b.channel || (c == b.channel && b.done_closed)
