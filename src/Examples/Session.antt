-- ===== src/Examples/Session.antt =====
-- The theorems on pending turns and bot loops at concrete inputs.
use frost_agent.Prelude.{ℕ, ◌≡◌, refl, true, false, none, List, [], ◌∷◌, ◌++◌, pos}
use frost_agent.Text.{Text, codes, text_eq}
use frost_agent.PendingTurns.{flatten, PendingState}
use frost_agent.PendingTurns.Conservation.{IsDraw, Enqueue, run, turns_conserved}
use frost_agent.BotLoop.{LoopState, empty_loop, Observation, finish}
use frost_agent.BotLoop.Budget.{Message, send_all, observation_of, budget_exact}

-- Items are numbers here, and the least number is drawn.
abbrev least : ℕ → ℕ
least width = 0

least-IsDraw : IsDraw least
least-IsDraw = record { below = λ width h. h }

abbrev pending : PendingState ℕ
pending = record { turns = (1 ∷ 2 ∷ []) ∷ []; threshold = 0; epoch = 1; updated_at = 0 }

abbrev turn : List ℕ → Enqueue ℕ
turn items = record { now = 5; pick = least; items = items; lo = pos 2; hi = pos 3 }

turns_conserved_example :
    let cs = turn (3 ∷ []) ∷ turn [] ∷ turn (4 ∷ 5 ∷ []) ∷ [] in
    let (t, out) = run cs pending in out ++ flatten t.turns ≡ 1 ∷ 2 ∷ 3 ∷ 4 ∷ 5 ∷ []
turns_conserved_example = turns_conserved (turn (3 ∷ []) ∷ turn [] ∷ turn (4 ∷ 5 ∷ []) ∷ []) pending

abbrev bot : Text
bot = codes "bot"

abbrev from_bot : Message
from_bot = record { sender = bot; marked = true; eligible = true }

abbrev from_ann : Message
from_ann = record { sender = codes "ann"; marked = false; eligible = true }

budget_exact_example :
    let ms = from_bot ∷ from_ann ∷ from_bot ∷ [] in
    let s = send_all (pos 2) (codes "2") ms (record empty_loop { config = codes "2" }) in
    (finish (observation_of (codes "2") from_bot s) true (pos 2) none s).1.exceeded ≡ true
unfolding text_eq
budget_exact_example = budget_exact 1 (codes "2") (from_bot ∷ from_ann ∷ from_bot ∷ []) bot refl

-- A session in which the Bot has sent two messages.
abbrev spoken : LoopState
spoken = record { turns = (bot, 2) ∷ []; config = codes "2"; epoch = 3 }

abbrev wake : Observation
wake = record {
  sender = codes "ann";
  marked = false;
  config = codes "2";
  explicit_wake = true;
  epoch = 3;
}
