-- ===== src/Security/Watchdog/Rehearsal.antt =====
-- A dry run decides as the evaluation does, and changes nothing.
use frost_agent.Prelude.{
  ℕ, ◌≡◌, refl, ◌⊎◌, inl, inr, Bool, true, false, Option, [], ltb, ◌==◌, Bool-cases, sum-cases,
  if-case, option-case,
}
use frost_agent.Text.{Text}
use frost_agent.Security.{
  Principal, Stage, Source, Action, pass, warn, filter, block, strike, lock, RiskLevel, safe,
  medium, high, critical, unknown_level, ClassificationResult, AuditEvent, Decision, byte_length,
}
use frost_agent.Security.Access.{Records, record_blocked}
use frost_agent.Security.Audit.{Stores, World}
use frost_agent.Security.Watchdog.{inspect, last_hash, evaluate, max_inspection_size}
use frost_agent.Security.Watchdog.Response.{
  Watchdog, classifier_for, Verdict, plain, punishment, punish, decide, conclude,
}
use frost_agent.Security.Watchdog.Notices.{sanitized_message}
use frost_agent.Security.Watchdog.Judge.{Judgement, is_evasion, judge, strongest, is_direct}

-- A strike and a lock are blocks.
unfoldable pub soften : Action → Action
soften pass = pass
soften warn = warn
soften filter = filter
soften block = block
soften strike = block
soften lock = block

-- The decision of a dry run and that of the evaluation, but for the reason, the event and the mark of
-- a failure.
abbrev pub Foretold : Decision → Decision → Type 0
Foretold dry real =
    (dry.action ≡ soften real.action)
    × (dry.classification ≡ real.classification)
    × (dry.sanitized_content ≡ real.sanitized_content)
    × (dry.warning_notice ≡ real.warning_notice)

-- The same of what is done about a content.
abbrev Foreseen : Verdict → Verdict → Type 0
Foreseen dry real =
    (dry.action ≡ soften real.action)
    × (dry.sanitized ≡ real.sanitized)
    × (dry.notice ≡ real.notice)

punishment-soft :
    (reason sanitized : Text) (answer : Text ⊎ (ℕ × Bool))
    → Foreseen (plain block reason sanitized []) (punishment reason sanitized answer)
unfolding punishment soften
punishment-soft reason sanitized (inl e) = (refl, refl, refl)
punishment-soft reason sanitized (inr (n, true)) = (refl, refl, refl)
punishment-soft reason sanitized (inr (n, false)) = elim (Bool-cases (n == 0)) [
  | inl none_yet ↦ rw none_yet (refl, refl, refl)
  | inr some_yet ↦ rw some_yet (refl, refl, refl)
]

punish-soft :
    (w : World) (d : Watchdog) (p : Principal) (hash : Text) (evasion : Bool)
    (reason sanitized : Text) (s : Stores)
    → Foreseen (plain block reason sanitized []) (punish w d p hash evasion reason sanitized s).1
unfolding punish soften
punish-soft w d p hash evasion reason sanitized s =
    option-case (λ (r : Stores × Verdict). Foreseen (plain block reason sanitized []) r.1) s.access
      _ _ (refl, refl, refl)
      (λ records e.
        punishment-soft reason sanitized
          (record_blocked w.disk d.strike_window d.lock_after p hash evasion w.now records).1)

-- Nothing has changed, and the verdict is the same but for a softening.
abbrev Rehearsed : Stores → Stores → Verdict → Verdict → Type 0
Rehearsed s s' dry real = (s' ≡ s) × Foreseen dry real

decide-Rehearsed :
    (w : World) (d : Watchdog) (p : Principal) (source : Source) (hash : Text) (evasion : Bool)
    (c : ClassificationResult) (level : RiskLevel) (s : Stores)
    → let dry = decide w d p source true hash evasion c level s in
      Rehearsed s dry.0 dry.1 (decide w d p source false hash evasion c level s).1
unfolding decide soften
decide-Rehearsed w d p source hash evasion c safe s = (refl, (refl, refl, refl))
decide-Rehearsed w d p source hash evasion c medium s = (refl, (refl, refl, refl))
decide-Rehearsed w d p source hash evasion c high s = (refl, (refl, refl, refl))
decide-Rehearsed w d p source hash evasion c critical s = (
  refl,
  if-case
      (λ (r : Stores × Verdict).
        Foreseen (plain block c.reason (sanitized_message c.category) []) r.1)
      (is_direct source) _ _
      (punish-soft w d p hash evasion c.reason (sanitized_message c.category) s) (refl, refl, refl),
)
decide-Rehearsed w d p source hash evasion c (unknown_level t) s = (refl, (refl, refl, refl))

conclude-Rehearsed :
    (w : World) (d : Watchdog) (p : Principal) (source : Source) (hash : Text) (evasion : Bool)
    (j : Judgement) (s : Stores)
    → let dry = conclude w d p source true hash evasion j s in
      Rehearsed s dry.0 dry.1 (conclude w d p source false hash evasion j s).1
unfolding conclude soften
conclude-Rehearsed w d p source hash evasion j s = elim (Bool-cases j.failed) [
  | inl failed ↦ rw (failed, conclude) (refl, (refl, refl, refl))
  | inr fine ↦
      rw (fine, conclude)
        (decide-Rehearsed w d p source hash evasion (strongest j) (strongest j).risk_level s)
]

-- A dry run of an evaluation changes nothing, and foretells its decision.
pub evaluate-Rehearsed :
    (w : World) (d : Watchdog) (seen : Option Records) (p : Principal) (stage : Stage)
    (source : Source) (content : Text) (meta : AuditEvent) (s : Stores)
    → let dry = evaluate w d seen p stage source content meta true s in
      let real = evaluate w d seen p stage source content meta false s in
      (dry.0 ≡ s) × Foretold dry.1 real.1
unfolding evaluate soften inspect
evaluate-Rehearsed w d seen p stage source content meta s =
    elim (Bool-cases (ltb max_inspection_size (byte_length content))) [
      | inl long ↦ rw (long, evaluate) (refl, (refl, refl, refl, refl))
      | inr short ↦ elim (sum-cases (last_hash w d seen p)) [
        | inl (e, bad) ↦ rw (short, bad, evaluate) (refl, (refl, refl, refl, refl))
        | inr (hash, read) ↦
            let (normalized, modified) = w.normalize content in
            let j = judge (classifier_for d meta.instance_id) source content normalized modified in
            let evasion = is_evasion j modified hash (w.hash content) (w.hash normalized) in
            let told = conclude-Rehearsed w d p source (w.hash normalized) evasion j s in
            rw (short, read, evaluate) (told.0, (told.1.0, refl, told.1.1, told.1.2))
      ]
    ]
