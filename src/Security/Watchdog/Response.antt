-- ===== src/Security/Watchdog/Response.antt =====
-- internal/security/watchdog.go: what is done about a content once it is classified.
use frost_agent.Prelude.{
  ℕ, ◌==◌, ◌⊎◌, inl, inr, Bool, true, false, not, ◌&&◌, Option, none, some, List, [], ◌++◌,
  if◌then◌else◌,
}
use frost_agent.Text.{Text, codes, is_empty}
use frost_agent.Text.Maps.{find}
use frost_agent.Security.{
  Principal, Source, Action, pass, warn, filter, block, strike, lock, RiskLevel, safe, medium, high,
  critical, unknown_level, ClassificationResult,
}
use frost_agent.Security.Access.{record_blocked, evasion_reason}
use frost_agent.Security.Watchdog.Notices.{sanitized_message, warning_text}
use frost_agent.Security.Audit.{Stores, World}
use frost_agent.Security.Watchdog.Judge.{Classifier, Judgement, is_direct, strongest}

pub record Watchdog : Type 0 where
  pub classifier : Option Classifier
  pub instances : List (Text × Classifier)
  pub strike_window : ℕ
  pub lock_after : ℕ

-- NewWatchdog: fifteen minutes, in nanoseconds, and three strikes.
abbrev pub new_watchdog : Watchdog
new_watchdog = record {
  classifier = none;
  instances = [];
  strike_window = 900000000000;
  lock_after = 3;
}

-- ClassifierForInstance
unfoldable pub classifier_for : Watchdog → Text → Option Classifier
classifier_for d instance_id = elim (find instance_id d.instances) [
  | none ↦ d.classifier
  | some c ↦ if is_empty instance_id then d.classifier else some c
]

-- What is done about a content.
pub record Verdict : Type 0 where
  pub action : Action
  pub reason : Text
  pub sanitized : Text
  pub notice : Text
  pub failure : Bool

-- What the answer of RecordBlockedSubmission comes to.
unfoldable pub punishment : Text → Text → Text ⊎ (ℕ × Bool) → Verdict
punishment reason sanitized (inl e) = record {
  action = block;
  reason = codes "access control persistence failure: " ++ e;
  sanitized = sanitized;
  notice = [];
  failure = true;
}
punishment reason sanitized (inr (strikes, true)) = record {
  action = lock;
  reason = evasion_reason;
  sanitized = sanitized;
  notice = [];
  failure = false;
}
punishment reason sanitized (inr (strikes, false)) = record {
  action = if strikes == 0 then block else strike;
  reason = reason;
  sanitized = sanitized;
  notice = [];
  failure = false;
}

-- A critical content that its principal sent itself.
unfoldable pub punish :
    World → Watchdog → Principal → Text → Bool → Text → Text → Stores → Stores × Verdict
unfolding punishment
punish w d p norm_hash evasion reason sanitized s = elim s.access [
  | none ↦ (
    s,
    record {
      action = block;
      reason = codes "access control unavailable";
      sanitized = sanitized;
      notice = [];
      failure = true;
    },
  )
  | some records ↦
      let (records', answer) =
        record_blocked w.disk d.strike_window d.lock_after p norm_hash evasion w.now records in
      (record s { access = some records' }, punishment reason sanitized answer)
]

abbrev pub plain : Action → Text → Text → Text → Verdict
plain action reason sanitized notice = record {
  action = action;
  reason = reason;
  sanitized = sanitized;
  notice = notice;
  failure = false;
}

-- What the level of a classification comes to.
unfoldable pub decide :
    World
    → Watchdog
    → Principal
    → Source
    → Bool
    → Text
    → Bool
    → ClassificationResult
    → RiskLevel
    → Stores
    → Stores × Verdict
unfolding is_direct punish
decide w d p source dry norm_hash evasion c safe s = (s, plain pass c.reason [] [])
decide w d p source dry norm_hash evasion c medium s = (s, plain warn c.reason [] warning_text)
decide w d p source dry norm_hash evasion c high s =
    (s, plain filter c.reason (sanitized_message c.category) [])
decide w d p source dry norm_hash evasion c critical s =
    if not dry && is_direct source
    then punish w d p norm_hash evasion c.reason (sanitized_message c.category) s
    else (s, plain block c.reason (sanitized_message c.category) [])
decide w d p source dry norm_hash evasion c (unknown_level t) s = (s, plain pass c.reason [] [])

unfoldable pub conclude :
    World
    → Watchdog
    → Principal
    → Source
    → Bool
    → Text
    → Bool
    → Judgement
    → Stores
    → Stores × Verdict
unfolding strongest decide
conclude w d p source dry norm_hash evasion j s =
    let c = strongest j in
    if j.failed
    then (s, record (plain block c.reason (sanitized_message c.category) []) { failure = true })
    else decide w d p source dry norm_hash evasion c c.risk_level s
