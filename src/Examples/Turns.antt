-- ===== src/Examples/Turns.antt =====
-- The theorems on turns at concrete inputs.
use frost_agent.Prelude.{◌≡◌, refl, true, false, none, some, [], ◌∷◌, lookup, arith}
use frost_agent.Text.{Text, codes, text_eq}
use frost_agent.Text.Maps.{find, put}
use frost_agent.History.{user_message, with_input, ChatMessage, plain_message, resync}
use frost_agent.Turns.{
  Turn, Lane, TurnState, empty_turns, running, finished, new_turn, new_lane, reserve_sequence_turn,
  join_lane, lane_for, done, may_start,
}
use frost_agent.Turns.Prepare.{prepare_turn_messages, save_transcript, without_own}
use frost_agent.Turns.Steps.{start, Reach, begin, later, reserve, wait, end}
use frost_agent.Turns.Order.{turns_in_order}
use frost_agent.Turns.Interrupt.{injection_cancels}
use frost_agent.Turns.Transcript.{spoken, durable_input_kept}

abbrev sender : Text
sender = codes "sender:7"

-- Two turns of one sender, the first of which is worked on.
abbrev two_turns : TurnState
two_turns =
    start 0
      (reserve_sequence_turn sender false false
        (reserve_sequence_turn sender false false empty_turns).0).0

two_turns_Reach : Reach true two_turns
unfolding reserve_sequence_turn join_lane lane_for find put text_eq may_start
two_turns_Reach =
    later (later (later begin (reserve sender false false)) (reserve sender false false))
      (wait 0 (new_turn none (some 0) none 1) refl refl refl)

-- The second turn has begun.
abbrev handed_over : TurnState
handed_over = start 1 (done 0 two_turns)

handed_over_Reach : Reach true handed_over
unfolding reserve_sequence_turn join_lane lane_for find put may_start start done text_eq
handed_over_Reach =
    later
      (later two_turns_Reach
        (end 0 (record (new_turn none (some 0) none 1) { place = running }) refl refl))
      (wait 1 (new_turn (some 0) (some 0) (some 0) 1) refl refl refl)

abbrev first_over : Turn
first_over = record (new_turn none (some 0) none 1) { place = finished; canceled = true }

turns_in_order_example : first_over.place ≡ finished
unfolding reserve_sequence_turn join_lane lane_for find put start done text_eq
turns_in_order_example =
    turns_in_order handed_over_Reach 1 0 0
      (record (new_turn (some 0) (some 0) (some 0) 1) { place = running }) first_over refl refl refl
      refl (omega arith) (λ h. absurd (ground (arith, h)))

abbrev their_lane : Lane
their_lane = record (new_lane false) { tail = some 1 }

injection_cancels_example :
    (z : Turn) × (lookup 1 (reserve_sequence_turn sender true false two_turns).0.turns ≡ some z)
    × (z.canceled ≡ true)
unfolding reserve_sequence_turn join_lane lane_for find put start text_eq
injection_cancels_example =
    injection_cancels two_turns_Reach sender false 0 1 (new_turn (some 0) (some 0) (some 0) 1) refl
      refl refl (λ h. absurd (ground (arith, h)))

abbrev reply : ChatMessage
reply = plain_message (codes "assistant") (codes "Hello")

abbrev rules : ChatMessage
rules = plain_message (codes "system") (codes "Be brief")

durable_input_kept_example :
    (y : Lane) × (lookup 0
        (save_transcript 0
          (rules ∷ user_message (codes "Hi (background)") ∷ reply ∷ [])
          (prepare_turn_messages 5
            (some 0)
            (codes "Hi")
            (codes "Hi (background)")
            none
            two_turns).0).lanes
      ≡ some y)
    × (y.transcript ≡ user_message (codes "Hi") ∷ spoken (reply ∷ []))
unfolding reserve_sequence_turn join_lane lane_for find put start text_eq spoken
    prepare_turn_messages without_own with_input resync
durable_input_kept_example =
    durable_input_kept 5 0 0 (codes "Hi") (codes "Hi (background)") none two_turns
      (record (new_turn none (some 0) none 1) { place = running }) their_lane
      (rules ∷ user_message (codes "Hi (background)") ∷ reply ∷ []) (reply ∷ []) refl refl refl refl
      tt refl
