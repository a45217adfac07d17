-- ===== src/Turns/Prepare.antt =====
-- internal/llm/sequence.go: the messages of a turn, and the task state that its lane keeps. A nil
-- *SessionTurn is `none`.
use frost_agent.Prelude.{
  ℕ, zero, suc, ◌+◌, ◌==◌, Bool, false, not, ◌||◌, Option, none, some, List, [], ◌∷◌, ◌++◌,
  if◌then◌else◌, lookup, adjust, any, keep, length, drop, ltb,
}
use frost_agent.Text.{Text, codes, text_eq}
use frost_agent.History.{ChatMessage, text, resync, user_message, with_input}
use frost_agent.Turns.{Turn, Lane, TurnState, lane_at}

abbrev pub is_system : ChatMessage → Bool
is_system m = text_eq m.role (codes "system")

-- The history without the inputs of the lane, which its transcript has.
unfoldable pub without_own : List ℕ → List ChatMessage → List ℕ → List ChatMessage
without_own ids [] seqs = []
without_own ids (m ∷ ms) [] = []
without_own ids (m ∷ ms) (n ∷ ns) =
    let rest = without_own ids ms ns in if any (λ k. k == n) ids then rest else m ∷ rest

abbrev pub skills_of : Option ℕ → List (ℕ × Turn) → List Text
skills_of none turns = []
skills_of (some t) turns = elim (lookup t turns) [ none ↦ [] | some x ↦ x.skills ]

-- What a prepared turn is called with: the messages, the billing state, and the input's number.
pub record Prepared : Type 0 where
  pub messages : List ChatMessage
  pub billing : Option ℕ
  pub id : ℕ

-- PrepareTurnMessages where the turn has a lane: what of the lane's task state is taken along.
abbrev pub carried : Lane → List ChatMessage
carried lane = if lane.proactive then [] else lane.transcript

abbrev pub enter_turn : ℕ → List ChatMessage → Text → ℕ → List Text → Turn → Turn
enter_turn kept base durable id skills x =
    let start = length (keep (λ m. not (is_system m)) base) in
    record x {
      skills = skills;
      transcript_start = start;
      input_index = start + kept;
      durable = durable;
      message_seq = id;
    }

abbrev pub enter_lane : ℕ → Text → Option ℕ → ℕ → Lane → Lane
enter_lane t durable billing id lane =
    let first : Option ℕ = elim lane.billing [ none ↦ billing | some b ↦ some b ] in
    record lane {
      active = some t;
      skills = some t;
      memory_written = if lane.proactive then false else lane.memory_written;
      skill_inputs = if lane.proactive then [] else lane.skill_inputs;
      message_ids = id ∷ lane.message_ids;
      transcript = carried lane ++ user_message durable ∷ [];
      billing = first;
    }

-- PrepareTurnMessages
unfoldable pub prepare_turn_messages :
    ℕ → Option ℕ → Text → Text → Option ℕ → TurnState → TurnState × Prepared
unfolding without_own with_input
prepare_turn_messages now o durable prompt billing s =
    let h = resync s.core in
    let core = with_input now durable s.core in
    let id = core.next_seq in
    let outside : TurnState × Prepared = (
      record s { core = core },
      record { messages = h.history ++ user_message prompt ∷ []; billing = billing; id = id },
    ) in
    elim o [
      | none ↦ outside
      | some t ↦ elim (lookup t s.turns) [
        | none ↦ outside
        | some x ↦
            if not (x.epoch == s.core.epoch)
            then (s, record { messages = []; billing = billing; id = 0 })
            else (elim x.lane [
              | none ↦ outside
              | some l ↦
                  let lane = lane_at l s.lanes in
                  let base = without_own lane.message_ids h.history h.seqs in
                  let skills = if lane.proactive then [] else skills_of lane.skills s.turns in
                  let lane' = enter_lane t durable billing id lane in
                  (
                    record s {
                      core = core;
                      lanes = adjust l (enter_lane t durable billing id) s.lanes;
                      turns =
                          adjust t (enter_turn (length (carried lane)) base durable id skills)
                            s.turns;
                    },
                    record {
                      messages = base ++ carried lane ++ user_message prompt ∷ [];
                      billing = lane'.billing;
                      id = id;
                    },
                  )
            ])
      ]
    ]

-- transcript[i].Content = content, where there is an i-th one
unfoldable pub set_content : ℕ → Text → List ChatMessage → List ChatMessage
set_content i durable [] = []
set_content zero durable (m ∷ ms) = record m { content = text durable } ∷ ms
set_content (suc i) durable (m ∷ ms) = m ∷ set_content i durable ms

abbrev pub keep_transcript : Turn → List ChatMessage → Lane → Lane
keep_transcript x messages lane =
    let spoken = set_content x.input_index x.durable (keep (λ m. not (is_system m)) messages) in
    if ltb (length spoken) x.transcript_start
    then lane
    else record lane { transcript = drop x.transcript_start spoken }

-- saveTranscript
unfoldable pub save_transcript : ℕ → List ChatMessage → TurnState → TurnState
unfolding set_content
save_transcript t messages s = elim (lookup t s.turns) [
  | none ↦ s
  | some x ↦ elim x.lane [
    | none ↦ s
    | some l ↦ record s { lanes = adjust l (keep_transcript x messages) s.lanes }
  ]
]

-- memoryState
unfoldable pub memory_state : Option ℕ → Bool → TurnState → TurnState × Bool
memory_state o written s =
    let lane_of : Option ℕ = elim o [
      | none ↦ none
      | some t ↦ elim (lookup t s.turns) [ none ↦ none | some x ↦ x.lane ]
    ] in
    elim lane_of [
      | none ↦ (s, written)
      | some l ↦
          let all = (lane_at l s.lanes).memory_written || written in
          (record s { lanes = adjust l (λ x. record x { memory_written = all }) s.lanes }, all)
    ]
