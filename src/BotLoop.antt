-- ===== src/BotLoop.antt =====
-- internal/llm/session.go: the bot-loop budgets. Observations finish in the order in which they began
-- (each waits for the one before it), so a session's observations are a list.
pub mod Budget
use frost_agent.Prelude.{
  ℕ, zero, suc, ◌+◌, Bool, true, false, not, ◌&&◌, ◌||◌, Option, none, some, List, [], ◌∷◌, ℤ,
  to_nat, u64, leb, ltb, ◌==◌, if◌then◌else◌, keep,
}
use frost_agent.Text.{Text, is_empty, text_eq}

-- botLoopTurns; a missing sender counts 0.
unfoldable pub count_of : Text → List (Text × ℕ) → ℕ
count_of sender [] = 0
count_of sender ((name, n) ∷ rest) = if text_eq name sender then n else count_of sender rest

unfoldable pub set_count : Text → ℕ → List (Text × ℕ) → List (Text × ℕ)
set_count sender n turns = (sender, n) ∷ keep (λ e. not (text_eq e.0 sender)) turns

pub record LoopState : Type 0 where
  pub turns : List (Text × ℕ)  -- botLoopTurns
  pub config : Text  -- botLoopConfig
  pub epoch : ℕ  -- botLoopEpoch, uint64

abbrev pub empty_loop : LoopState
empty_loop = record { turns = []; config = []; epoch = 0 }

-- BotLoopObservation
pub record Observation : Type 0 where
  pub sender : Text
  pub marked : Bool
  pub config : Text
  pub explicit_wake : Bool
  pub epoch : ℕ

-- BeginBotLoop, for a sender that is not empty.
unfoldable pub begin : Text → Bool → Text → Bool → LoopState → Option Observation
begin sender marked config wake s =
    if is_empty sender
    then none
    else some (record {
      sender = sender;
      marked = marked;
      config = config;
      explicit_wake = wake;
      epoch = s.epoch;
    })

-- What a finished observation answers.
pub record Verdict : Type 0 where
  pub exceeded : Bool
  pub admitted : Bool

-- The counts that an observation starts from.
unfoldable pub base_turns : Observation → Bool → LoopState → List (Text × ℕ)
base_turns o eligible s =
    if not (text_eq s.config o.config) || (not o.marked && (o.explicit_wake && eligible))
    then []
    else s.turns

-- limit > 0 && count >= limit
unfoldable pub is_over : ℤ → ℕ → Bool
is_over limit count = ltb 0 (to_nat limit) && leb (to_nat limit) count

-- The callback's answer; without a callback everything is admitted.
abbrev pub asks : Option (Bool → Bool) → Bool → Bool
asks none exceeded = true
asks (some admit) exceeded = admit exceeded

-- FinishWithAdmission, the first call of it.
unfoldable pub finish :
    Observation → Bool → ℤ → Option (Bool → Bool) → LoopState → LoopState × Verdict
finish o eligible limit admit s =
    let turns = base_turns o eligible s in
    let count = count_of o.sender turns in
    let counted = o.marked && eligible in
    let exceeded = counted && is_over limit count in
    let admitted = asks admit exceeded in
    let count' = if exceeded then count else count + 1 in
    if not (o.epoch == s.epoch) then (s, record { exceeded = false; admitted = false }) else (
      if admitted
          then record s {
            turns = if counted then set_count o.sender count' turns else turns;
            config = o.config;
          }
          else s,
      record { exceeded = exceeded; admitted = admitted },
    )

-- Clear and ResetSession on the bot-loop fields.
unfoldable pub reset_loop : LoopState → LoopState
reset_loop s = record { turns = []; config = []; epoch = u64 (s.epoch + 1) }
