-- ===== src/Security/Watchdog.antt =====
-- internal/security/watchdog.go: the evaluation of a content. The classifiers and the normalisation of
-- a content are arguments, as are the regular expressions of its preview.
pub mod Notices
pub mod Judge
pub mod Response
pub mod Inspected
pub mod Blameless
pub mod Rehearsal
use frost_agent.Prelude.{
  ℕ, ◌-◌, ◌==◌, ◌⊎◌, inl, inr, Bool, true, false, not, ◌&&◌, ◌||◌, Option, none, some, List, [],
  ◌∷◌, ◌++◌, ltb, leb, drop, length, if◌then◌else◌,
}
use frost_agent.Text.{Text, codes, is_empty, text_eq}
use frost_agent.Text.Maps.{find}
use frost_agent.Security.{
  Principal, Stage, Source, user_direct, user_quote, group_context, tool_argument, tool_result,
  model_output, vision_result, platform_meta, Action, pass, warn, filter, block, strike, lock,
  RiskLevel, safe, medium, high, critical, unknown_level, RiskCategory, no_category,
  prompt_injection, malicious_execution, data_exfiltration, politics, pornography,
  violence_terrorism, contraband, fraud_gambling, harassment_manipulation, unknown_category,
  ClassificationResult, AuditEvent, Decision, byte_length,
}
use frost_agent.Security.Access.{Records, Disk, last_blocked, record_blocked, evasion_reason}
use frost_agent.Security.Watchdog.Notices.{sanitized_message, warning_text}
use frost_agent.Security.Audit.{
  AuditLog, Stores, World, append_event, list_events, named, note_event,
}
use frost_agent.Security.Watchdog.Judge.{
  Classifier, Judgement, classifier_error, closed, closed_result, is_direct, is_evasion,
  is_no_category, is_pass, is_risky, judge, severity, strongest,
}
use frost_agent.Security.Watchdog.Response.{
  Watchdog, new_watchdog, classifier_for, Verdict, punishment, punish, plain, decide, conclude,
}

-- The event and the decision of a block before the classification.
abbrev pub early_block :
    World
    → Bool
    → Principal
    → Stage
    → Source
    → Text
    → Text
    → Text
    → AuditEvent
    → Bool
    → Stores
    → Stores × Decision
early_block w dry p stage source content hash reason meta failure s =
    let event = record meta {
      at = w.now;
      principal = p;
      stage = stage;
      source = source;
      action = block;
      reason = reason;
      hash = hash;
      preview = w.preview content;
    } in
    (
      if dry then s else note_event w event s,
      record {
        action = block;
        reason = reason;
        classification = none;
        sanitized_content = [];
        warning_notice = [];
        event = event;
        is_failure = failure;
      },
    )

-- The evaluation once the last hash is known.
unfoldable pub inspect :
    World
    → Watchdog
    → Principal
    → Stage
    → Source
    → Text
    → AuditEvent
    → Bool
    → Text
    → Stores
    → Stores × Decision
unfolding judge is_evasion conclude note_event is_pass
inspect w d p stage source content meta dry last s =
    let (normalized, modified) = w.normalize content in
    let norm_hash = w.hash normalized in
    let j = judge (classifier_for d meta.instance_id) source content normalized modified in
    let evasion = is_evasion j modified last (w.hash content) norm_hash in
    let (s', v) = conclude w d p source dry norm_hash evasion j s in
    let event = record meta {
      at = w.now;
      principal = p;
      stage = stage;
      source = source;
      action = v.action;
      reason = v.reason;
      hash = norm_hash;
      encoded = evasion;
      preview = w.preview content;
      category = (strongest j).category;
      risk_level = (strongest j).risk_level;
    } in
    (
      if dry || is_pass v.action then s' else note_event w event s',
      record {
        action = v.action;
        reason = v.reason;
        classification = some (strongest j);
        sanitized_content = v.sanitized;
        warning_notice = v.notice;
        event = event;
        is_failure = v.failure;
      },
    )

-- MaxInspectionSize
abbrev pub max_inspection_size : ℕ
max_inspection_size = 262144

-- The hash of the last block of the principal, or the error of LastBlockedHash.
unfoldable pub last_hash : World → Watchdog → Option Records → Principal → Text ⊎ Text
last_hash w d seen p = elim seen [
  | none ↦ inr []
  | some records ↦ last_blocked w.read_fails p w.asked_at d.strike_window records
]

-- evaluateWithContext; `seen` are the records as LastBlockedHash finds them, which other
-- evaluations may have changed when this one writes.
unfoldable pub evaluate :
    World
    → Watchdog
    → Option Records
    → Principal
    → Stage
    → Source
    → Text
    → AuditEvent
    → Bool
    → Stores
    → Stores × Decision
unfolding inspect
evaluate w d seen p stage source content given dry s =
    let meta = named w given in
    if ltb max_inspection_size (byte_length content)
    then early_block w dry p stage source content (w.hash content)
        (codes "input exceeds maximum inspection limit") meta false s
    else (elim (last_hash w d seen p) [
      | inl e ↦
          early_block w dry p stage source content (w.hash (w.normalize content).0)
            (codes "access control unavailable: " ++ e) meta true s
      | inr hash ↦ inspect w d p stage source content meta dry hash s
    ])
