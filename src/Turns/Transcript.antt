-- ===== src/Turns/Transcript.antt =====
-- What a turn leaves in the transcript of its lane.
use mathlib.Core.List.{append_assoc}
use frost_agent.Prelude.{
  ℕ, ◌+◌, ◌≡◌, refl, ap, sym, ◌∙◌, not, true, false, Option, some, List, [], ◌∷◌, ◌++◌, arith, All,
  keep, keep_everything, length, length-append, drop, lookup, adjust, lookup-adjust, ltb, le→ltb,
  if◌then◌else◌, ==_iff, ◌==◌,
}
use frost_agent.Text.{Text, text_eq}
use frost_agent.History.{user_message, with_input, ChatMessage, resync}
use frost_agent.Turns.{Turn, Lane, TurnState, lane_at}
use frost_agent.Turns.Prepare.{
  is_system, without_own, skills_of, Prepared, carried, enter_turn, enter_lane,
  prepare_turn_messages, set_content, keep_transcript, save_transcript,
}

-- The messages that are no system messages.
unfoldable pub spoken : List ChatMessage → List ChatMessage
spoken messages = keep (λ m. not (is_system m)) messages

spoken-append : (xs ys : List ChatMessage) → spoken (xs ++ ys) ≡ spoken xs ++ spoken ys
unfolding spoken
spoken-append [] ys = refl
spoken-append (x ∷ xs) ys = ground (arith, spoken-append xs ys)

module _ {ℓ} {A : Type ℓ} where
  drop-append : (xs ys : List A) → drop (length xs) (xs ++ ys) ≡ ys
  drop-append [] ys = refl
  drop-append (x ∷ xs) ys = drop-append xs ys

set_content-append :
    (xs : List ChatMessage) (durable prompt : Text) (ys : List ChatMessage)
    → set_content (length xs) durable (xs ++ user_message prompt ∷ ys)
      ≡ xs ++ user_message durable ∷ ys
unfolding set_content
set_content-append [] durable prompt ys = refl
set_content-append (x ∷ xs) durable prompt ys = ap (◌∷◌ x) (set_content-append xs durable prompt ys)

module _ (base old replies messages : List ChatMessage) (durable prompt : Text)
    (clean : All (λ m. not (is_system m) ≡ true) old)
    (whole : spoken messages
      ≡ spoken (((base ++ old) ++ (user_message prompt ∷ [])) ++ replies)) where
  everything : spoken messages ≡ (spoken base ++ old) ++ (user_message prompt ∷ spoken replies)
  unfolding spoken text_eq
  everything =
      let own : spoken ((base ++ old) ++ (user_message prompt ∷ []))
          ≡ (spoken base ++ old) ++ (user_message prompt ∷ []) =
        spoken-append (base ++ old) (user_message prompt ∷ [])
        ∙ ap (λ z. z ++ (user_message prompt ∷ []))
            (spoken-append base old
              ∙ ap (λ z. spoken base ++ z) (keep_everything (λ m. not (is_system m)) old clean)) in
      whole
      ∙ spoken-append ((base ++ old) ++ (user_message prompt ∷ [])) replies
      ∙ ap (λ z. z ++ spoken replies) own
      ∙ append_assoc (spoken base ++ old) (user_message prompt ∷ []) (spoken replies)

  with_durable :
      (i : ℕ)
      → i ≡ length (spoken base) + length old
      → set_content i durable (spoken messages)
        ≡ spoken base ++ (old ++ (user_message durable ∷ spoken replies))
  with_durable i is =
      ap (λ k. set_content k durable (spoken messages)) (is ∙ sym (length-append (spoken base) old))
      ∙ ap (set_content (length (spoken base ++ old)) durable) everything
      ∙ set_content-append (spoken base ++ old) durable prompt (spoken replies)
      ∙ append_assoc (spoken base) old (user_message durable ∷ spoken replies)

  pub kept_transcript :
      (x : Turn) (lane : Lane)
      → x.transcript_start ≡ length (spoken base)
      → x.input_index ≡ length (spoken base) + length old
      → x.durable ≡ durable
      → (keep_transcript x messages lane).transcript
        ≡ old ++ (user_message durable ∷ spoken replies)
  unfolding spoken
  kept_transcript x lane start index is =
      let rest = old ++ (user_message durable ∷ spoken replies) in
      let e = with_durable x.input_index index in
      let long : ltb (length (spoken base ++ rest)) (length (spoken base)) ≡ false =
        le→ltb (length (spoken base ++ rest)) (length (spoken base))
          (omega (arith, length-append (spoken base) rest)) in
      rw (start, is, e, long) (drop-append (spoken base) rest)

-- What PrepareTurnMessages answers, and what it makes of the turn and of its lane.
module _ (now t l : ℕ) (durable prompt : Text) (billing : Option ℕ) (s : TurnState) (x : Turn)
    (lane : Lane) (e : lookup t s.turns ≡ some x) (own : x.lane ≡ some l)
    (there : lookup l s.lanes ≡ some lane) (current : x.epoch ≡ s.core.epoch) where
  base_of : List ChatMessage
  base_of = let h = resync s.core in without_own lane.message_ids h.history h.seqs

  prepared :
      let id = (with_input now durable s.core).next_seq in
      let skills = if lane.proactive then [] else skills_of lane.skills s.turns in
      prepare_turn_messages now (some t) durable prompt billing s ≡ (
        record s {
          core = with_input now durable s.core;
          lanes = adjust l (enter_lane t durable billing id) s.lanes;
          turns = adjust t (enter_turn (length (carried lane)) base_of durable id skills) s.turns;
        },
        record {
          messages = (base_of ++ carried lane) ++ (user_message prompt ∷ []);
          billing = (enter_lane t durable billing id lane).billing;
          id = id;
        },
      )
  unfolding prepare_turn_messages base_of
  prepared =
      let same : (x.epoch == s.core.epoch) ≡ true = (==_iff x.epoch s.core.epoch).1 current in
      rw (prepare_turn_messages, e, same, own, lane_at, there) refl

saved :
    (t l : ℕ) (messages : List ChatMessage) (s : TurnState) (z : Turn) (y : Lane)
    → lookup t s.turns ≡ some z
    → z.lane ≡ some l
    → lookup l s.lanes ≡ some y
    → lookup l (save_transcript t messages s).lanes ≡ some (keep_transcript z messages y)
unfolding save_transcript
saved t l messages s z y e own there =
    rw (save_transcript, e, own) (lookup-adjust l (keep_transcript z messages) s.lanes y there)

-- For a turn of a lane with the session's epoch, where the task state that the lane hands on has no
-- system message: after PrepareTurnMessages, let a run answer with a transcript that consists, but
-- for system messages, of the prepared messages and some replies. saveTranscript then leaves in the
-- lane what was handed on, the durable input, and the replies without their system messages; of the
-- request's own prompt nothing is left.
pub durable_input_kept :
    (now t l : ℕ) (durable prompt : Text) (billing : Option ℕ) (s : TurnState) (x : Turn)
    (lane : Lane) (messages replies : List ChatMessage)
    → lookup t s.turns ≡ some x
    → x.lane ≡ some l
    → lookup l s.lanes ≡ some lane
    → x.epoch ≡ s.core.epoch
    → All (λ m. not (is_system m) ≡ true) (carried lane)
    → spoken messages
      ≡ spoken ((prepare_turn_messages now (some t) durable prompt billing s).1.messages ++ replies)
    → (y : Lane) × (lookup l
          (save_transcript t messages
            (prepare_turn_messages now (some t) durable prompt billing s).0).lanes
        ≡ some y)
      × (y.transcript ≡ carried lane ++ (user_message durable ∷ spoken replies))
unfolding spoken
durable_input_kept now t l durable prompt billing s x lane messages replies e own there current
      clean whole =
    let is = prepared now t l durable prompt billing s x lane e own there current in
    let base = base_of now t l durable prompt billing s x lane e own there current in
    let id = (with_input now durable s.core).next_seq in
    let skills = if lane.proactive then [] else skills_of lane.skills s.turns in
    let f = enter_turn (length (carried lane)) base durable id skills in
    let g = enter_lane t durable billing id in
    let s' = (prepare_turn_messages now (some t) durable prompt billing s).0 in
    let turns =
      ap (λ (p : TurnState × Prepared). lookup t p.0.turns) is ∙ lookup-adjust t f s.turns x e in
    let lanes =
      ap (λ (p : TurnState × Prepared). lookup l p.0.lanes) is
      ∙ lookup-adjust l g s.lanes lane there in
    let said = ap (λ (p : TurnState × Prepared). spoken (p.1.messages ++ replies)) is in
    (
      keep_transcript (f x) messages (g lane),
      saved t l messages s' (f x) (g lane) turns own lanes,
      kept_transcript base (carried lane) replies messages durable prompt clean (whole ∙ said) (f x)
          (g lane) refl refl refl,
    )
