-- ===== src/Security/Watchdog/Blameless.antt =====
-- Strikes and locks are for what a principal sends itself.
use frost_agent.Prelude.{
  ◌≡◌, refl, ◌⊎◌, inl, inr, Bool, true, false, not, ◌&&◌, ◌||◌, Option, some, ltb, if◌then◌else◌,
  arith, Bool-cases, sum-cases,
}
use frost_agent.Text.{Text}
use frost_agent.Security.{
  Principal, Stage, Source, Action, pass, warn, filter, block, strike, lock, RiskLevel, safe,
  medium, high, critical, unknown_level, ClassificationResult, AuditEvent, byte_length,
}
use frost_agent.Security.Access.{Records}
use frost_agent.Security.Audit.{Stores, World, note_event, named}
use frost_agent.Security.Watchdog.{inspect, last_hash, evaluate, max_inspection_size}
use frost_agent.Security.Watchdog.Response.{Watchdog, classifier_for, decide, conclude}
use frost_agent.Security.Watchdog.Judge.{
  severity, Judgement, is_evasion, judge, strongest, is_direct, is_pass,
}

unfoldable pub is_sanction : Action → Bool
is_sanction pass = false
is_sanction warn = false
is_sanction filter = false
is_sanction block = false
is_sanction strike = true
is_sanction lock = true

-- The access records stay as they are, and the action is neither a strike nor a lock.
abbrev pub Spared : Stores → Stores → Action → Type 0
Spared s s' action = (s'.access ≡ s.access) × (is_sanction action ≡ false)

-- The principal itself has sent a content whose risk is critical.
abbrev pub Guilty : Bool → Source → ClassificationResult → Type 0
Guilty dry source c = (dry ≡ false) × (is_direct source ≡ true) × (severity c.risk_level ≡ 4)

decide-Guilty :
    (w : World) (d : Watchdog) (p : Principal) (source : Source) (dry : Bool) (hash : Text)
    (evasion : Bool) (c : ClassificationResult) (level : RiskLevel) (s : Stores)
    → let r = decide w d p source dry hash evasion c level s in
      Spared s r.0 r.1.action ⊎ ((dry ≡ false) × (is_direct source ≡ true) × (severity level ≡ 4))
unfolding decide is_sanction severity
decide-Guilty w d p source dry hash evasion c safe s = inl (refl, refl)
decide-Guilty w d p source dry hash evasion c medium s = inl (refl, refl)
decide-Guilty w d p source dry hash evasion c high s = inl (refl, refl)
decide-Guilty w d p source dry hash evasion c critical s =
    elim (Bool-cases (not dry && is_direct source)) [
      | inl own ↦ inr (ground (arith, own), ground (arith, own), refl)
      | inr other ↦ inl (rw other (refl, refl))
    ]
decide-Guilty w d p source dry hash evasion c (unknown_level t) s = inl (refl, refl)

conclude-Guilty :
    (w : World) (d : Watchdog) (p : Principal) (source : Source) (dry : Bool) (hash : Text)
    (evasion : Bool) (j : Judgement) (s : Stores)
    → let r = conclude w d p source dry hash evasion j s in
      Spared s r.0 r.1.action ⊎ ((j.failed ≡ false) × Guilty dry source (strongest j))
unfolding conclude is_sanction
conclude-Guilty w d p source dry hash evasion j s = elim (Bool-cases j.failed) [
  | inl failed ↦ inl (rw (failed, conclude) (refl, refl))
  | inr fine ↦
      elim (decide-Guilty w d p source dry hash evasion (strongest j) (strongest j).risk_level s) [
        | inl spared ↦ inl (rw (fine, conclude) spared)
        | inr guilty ↦ inr (fine, guilty)
      ]
]

pub note_event-access :
    (w : World) (e : AuditEvent) (s : Stores) → (note_event w e s).access ≡ s.access
unfolding note_event
note_event-access w e s = refl

-- What is written to the audit log spares whom it spared before.
noted-Spared :
    (w : World) (e : AuditEvent) (quiet : Bool) (s s' : Stores) (action : Action)
    → Spared s s' action
    → Spared s (if quiet then s' else note_event w e s') action
unfolding note_event
noted-Spared w e true s s' action v = v
noted-Spared w e false s s' action v = v

inspect-Spared :
    (w : World) (d : Watchdog) (p : Principal) (stage : Stage) (source : Source) (content : Text)
    (meta : AuditEvent) (dry : Bool) (last : Text) (s : Stores)
    → let r = inspect w d p stage source content meta dry last s in
      let j =
        judge
          (classifier_for d meta.instance_id)
          source
          content
          (w.normalize content).0
          (w.normalize content).1 in
      Spared s r.0 r.1.action
      ⊎ ((r.1.classification ≡ some (strongest j))
          × (j.failed ≡ false)
          × Guilty dry source (strongest j))
unfolding inspect
inspect-Spared w d p stage source content meta dry last s =
    let (normalized, modified) = w.normalize content in
    let j = judge (classifier_for d meta.instance_id) source content normalized modified in
    let evasion = is_evasion j modified last (w.hash content) (w.hash normalized) in
    let v = conclude w d p source dry (w.hash normalized) evasion j s in
    elim (conclude-Guilty w d p source dry (w.hash normalized) evasion j s) [
      | inl spared ↦ inl (noted-Spared w _ (dry || is_pass v.1.action) s v.0 v.1.action spared)
      | inr guilty ↦ inr (refl, guilty.0, guilty.1)
    ]

-- An evaluation leaves the access records as they are and neither strikes nor locks, or it is no
-- rehearsal, the principal has sent the content itself, and the classification that it acts on
-- came from a classifier without an error and is critical.
pub blameless :
    (w : World) (d : Watchdog) (seen : Option Records) (p : Principal) (stage : Stage)
    (source : Source) (content : Text) (meta : AuditEvent) (dry : Bool) (s : Stores)
    → let r = evaluate w d seen p stage source content meta dry s in
      let j =
        judge
          (classifier_for d meta.instance_id)
          source
          content
          (w.normalize content).0
          (w.normalize content).1 in
      Spared s r.0 r.1.action
      ⊎ ((r.1.classification ≡ some (strongest j))
          × (j.failed ≡ false)
          × Guilty dry source (strongest j))
unfolding evaluate is_sanction
blameless w d seen p stage source content meta dry s =
    let j =
      judge (classifier_for d meta.instance_id) source content (w.normalize content).0
        (w.normalize content).1 in
    elim (Bool-cases (ltb max_inspection_size (byte_length content))) [
      | inl long ↦ inl (rw (long, evaluate) (noted-Spared w _ dry s s block (refl, refl)))
      | inr short ↦ elim (sum-cases (last_hash w d seen p)) [
        | inl (e, bad) ↦
            inl (rw (short, bad, evaluate) (noted-Spared w _ dry s s block (refl, refl)))
        | inr (hash, read) ↦
            rw (short, read, evaluate)
              (inspect-Spared w d p stage source content (named w meta) dry hash s)
      ]
    ]
