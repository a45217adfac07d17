-- ===== src/Security/Watchdog/Inspected.antt =====
-- Nothing is let in that a classifier has not answered for, below the level high, in each of its forms.
use frost_agent.Prelude.{
  ℕ, ◌≡◌, ◌≤◌, refl, ◌⊎◌, inl, inr, Bool, true, false, not, ◌&&◌, Option, none, some, ltb,
  if◌then◌else◌, arith, Bool-cases, Option-cases, sum-cases, if-case, option-case,
}
use frost_agent.Text.{Text}
use frost_agent.Security.{
  Principal, Stage, Source, Action, pass, warn, filter, block, strike, lock, RiskLevel, safe,
  medium, high, critical, unknown_level, ClassificationResult, AuditEvent, byte_length,
}
use frost_agent.Security.Access.{Records, last_blocked, record_blocked}
use frost_agent.Security.Audit.{Stores, World, named}
use frost_agent.Security.Watchdog.{inspect, last_hash, evaluate, max_inspection_size}
use frost_agent.Security.Watchdog.Response.{
  Watchdog, classifier_for, Verdict, punishment, punish, decide, conclude,
}
use frost_agent.Security.Watchdog.Judge.{
  Classifier, severity, Judgement, judge, strongest, is_direct,
}

-- The content goes on as it is, with or without a warning.
unfoldable pub lets_in : Action → Bool
lets_in pass = true
lets_in warn = true
lets_in filter = false
lets_in block = false
lets_in strike = false
lets_in lock = false

-- The classifier answers, and neither with the level high nor with critical; a level that the code
-- does not know counts as below.
abbrev pub BelowHigh : Classifier → Text → Type 0
BelowHigh classify text =
    (c : ClassificationResult) × (classify text ≡ inr c) × (severity c.risk_level ≤ 2)

-- There is a classifier, and it answers so for the content as it is normalised and, where that
-- differs, as it is.
abbrev pub Inspected : Option Classifier → Text → Text → Bool → Type 0
Inspected cls content normalized modified =
    (classify : Classifier) × (cls ≡ some classify)
    × BelowHigh classify normalized
    × (modified ≡ true → BelowHigh classify content)

punishment-shut :
    (reason sanitized : Text) (answer : Text ⊎ (ℕ × Bool))
    → lets_in (punishment reason sanitized answer).action ≡ false
unfolding punishment lets_in
punishment-shut reason sanitized (inl e) = refl
punishment-shut reason sanitized (inr (n, true)) = refl
punishment-shut reason sanitized (inr (n, false)) = ground arith

punish-shut :
    (w : World) (d : Watchdog) (p : Principal) (hash : Text) (evasion : Bool)
    (reason sanitized : Text) (s : Stores)
    → lets_in (punish w d p hash evasion reason sanitized s).1.action ≡ false
unfolding punish lets_in
punish-shut w d p hash evasion reason sanitized s =
    option-case (λ (r : Stores × Verdict). lets_in r.1.action ≡ false) s.access _ _ refl
      (λ records e.
        punishment-shut reason sanitized
          (record_blocked w.disk d.strike_window d.lock_after p hash evasion w.now records).1)

decide-low :
    (w : World) (d : Watchdog) (p : Principal) (source : Source) (dry : Bool) (hash : Text)
    (evasion : Bool) (c : ClassificationResult) (level : RiskLevel) (s : Stores)
    → lets_in (decide w d p source dry hash evasion c level s).1.action ≡ true
    → severity level ≤ 2
unfolding decide lets_in severity
decide-low w d p source dry hash evasion c safe s h = omega arith
decide-low w d p source dry hash evasion c medium s h = omega arith
decide-low w d p source dry hash evasion c high s h = absurd (ground (arith, h))
decide-low w d p source dry hash evasion c critical s h =
    let shut : lets_in (decide w d p source dry hash evasion c critical s).1.action ≡ false =
      if-case (λ (r : Stores × Verdict). lets_in r.1.action ≡ false) (not dry && is_direct source) _
        _ (punish-shut w d p hash evasion c.reason _ s) refl in
    absurd (ground (arith, h, shut))
decide-low w d p source dry hash evasion c (unknown_level t) s h = omega arith

stronger-le :
    (c r : ClassificationResult)
    → severity (if ltb (severity c.risk_level) (severity r.risk_level) then r else c).risk_level ≤ 2
    → (severity c.risk_level ≤ 2) × (severity r.risk_level ≤ 2)
stronger-le c r h = elim (Bool-cases (ltb (severity c.risk_level) (severity r.risk_level))) [
  | inl above ↦ let low = rw above at h in (ground (arith, above, low), low)
  | inr below ↦ let low = rw below at h in (low, ground (arith, below, low))
]

judge-answers :
    (cls : Option Classifier) (source : Source) (content normalized : Text) (modified : Bool)
    → let j = judge cls source content normalized modified in
      j.failed ≡ false
      → severity (strongest j).risk_level ≤ 2
      → Inspected cls content normalized modified
unfolding judge strongest
judge-answers none source content normalized modified f low = absurd (ground (arith, f))
judge-answers (some classify) source content normalized modified f low =
    elim (sum-cases (classify normalized)) [
      | inl (e, bad) ↦ absurd (ground (arith, rw (bad, judge) at f))
      | inr (c, good) ↦ elim (Bool-cases modified) [
        | inr same ↦
            let mild = rw (good, same, judge, strongest) at low in
            (
              classify,
              refl,
              (c, good, (stronger-le c c mild).0),
              λ e. absurd (ground (arith, e, same)),
            )
        | inl other ↦ elim (sum-cases (classify content)) [
          | inl (e, bad) ↦ absurd (ground (arith, rw (good, other, bad, judge) at f))
          | inr (r, fine) ↦
              let mild = rw (good, other, fine, judge, strongest) at low in
              (
                classify,
                refl,
                (c, good, (stronger-le c r mild).0),
                λ e. (r, fine, (stronger-le c r mild).1),
              )
        ]
      ]
    ]

conclude-answers :
    (w : World) (d : Watchdog) (p : Principal) (source : Source) (dry : Bool) (hash : Text)
    (evasion : Bool) (j : Judgement) (s : Stores)
    → lets_in (conclude w d p source dry hash evasion j s).1.action ≡ true
    → (j.failed ≡ false) × (severity (strongest j).risk_level ≤ 2)
unfolding conclude lets_in
conclude-answers w d p source dry hash evasion j s h = elim (Bool-cases j.failed) [
  | inl failed ↦ absurd (ground (arith, rw (failed, conclude) at h))
  | inr fine ↦ (
    fine,
    decide-low w d p source dry hash evasion (strongest j) (strongest j).risk_level s
        (rw (fine, conclude) at h),
  )
]

inspect-answers :
    (w : World) (d : Watchdog) (p : Principal) (stage : Stage) (source : Source) (content : Text)
    (meta : AuditEvent) (dry : Bool) (last : Text) (s : Stores)
    → lets_in (inspect w d p stage source content meta dry last s).1.action ≡ true
    → Inspected
        (classifier_for d meta.instance_id)
        content
        (w.normalize content).0
        (w.normalize content).1
unfolding inspect
inspect-answers w d p stage source content meta dry last s h =
    let cls = classifier_for d meta.instance_id in
    let (normalized, modified) = w.normalize content in
    let (fine, low) =
      conclude-answers w d p source dry _ _ (judge cls source content normalized modified) s h in
    judge-answers cls source content normalized modified fine low

last_hash-read :
    (w : World) (d : Watchdog) (seen : Option Records) (p : Principal) (hash : Text)
    → last_hash w d seen p ≡ inr hash
    → (seen ≡ none) ⊎ (w.read_fails ≡ none)
unfolding last_hash last_blocked
last_hash-read w d none p hash h = inl refl
last_hash-read w d (some records) p hash h = elim (Option-cases w.read_fails) [
  | inl fine ↦ inr fine
  | inr (e, bad) ↦ absurd (ground (arith, rw (bad, last_hash, last_blocked) at h))
]

-- What evaluateWithContext lets in, be it with a warning, is not too long, the records could be
-- read, and there is a classifier that answers with a level below high, or with a level that the
-- code does not know, for the normalised content and, where it differs, for the content itself.
pub lets_in-Inspected :
    (w : World) (d : Watchdog) (seen : Option Records) (p : Principal) (stage : Stage)
    (source : Source) (content : Text) (meta : AuditEvent) (dry : Bool) (s : Stores)
    → lets_in (evaluate w d seen p stage source content meta dry s).1.action ≡ true
    → (byte_length content ≤ max_inspection_size)
      × ((seen ≡ none) ⊎ (w.read_fails ≡ none))
      × Inspected
          (classifier_for d meta.instance_id)
          content
          (w.normalize content).0
          (w.normalize content).1
unfolding evaluate lets_in
lets_in-Inspected w d seen p stage source content meta dry s h =
    elim (Bool-cases (ltb max_inspection_size (byte_length content))) [
      | inl long ↦ absurd (ground (arith, rw (long, evaluate) at h))
      | inr short ↦ elim (sum-cases (last_hash w d seen p)) [
        | inl (e, bad) ↦ absurd (ground (arith, rw (short, bad, evaluate) at h))
        | inr (hash, read) ↦
            let rest = rw (short, read, evaluate) at h in
            (
              ground (arith, short),
              last_hash-read w d seen p hash read,
              inspect-answers w d p stage source content (named w meta) dry hash s rest,
            )
      ]
    ]
