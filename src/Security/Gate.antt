-- ===== src/Security/Gate.antt =====
-- internal/security/controller.go and mode.go: what a message has to pass before anything is done
-- with it. The controller and its audit log are there; the other stores may be missing.
pub mod Passing
use frost_agent.Prelude.{
  ℕ, ◌==◌, ◌⊎◌, inl, inr, Bool, true, false, not, ◌||◌, Option, none, some, List, [], ◌∷◌, ◌++◌,
  if◌then◌else◌,
}
use frost_agent.Text.{Text, codes, is_empty, text_eq, trim_space}
use frost_agent.Security.{
  Principal, principal_key, Stage, ingress, tool_result_stage, Source, user_direct, tool_result,
  Action, pass, warn, filter, block, strike, lock, AuditEvent, Decision,
}
use frost_agent.Security.Access.{Records, is_locked, lock_principal, unlock_principal, AccessRecord}
use frost_agent.Security.Audit.{Stores, World, note_event, named}
use frost_agent.Security.Watchdog.{evaluate}
use frost_agent.Security.Watchdog.Response.{Watchdog}

-- ControlMode
pub data Mode : Type 0 where
  off simple aggressive : Mode

-- ParseControlMode; `lower` is strings.ToLower.
unfoldable pub parse_control_mode : (Text → Text) → Text → Mode
parse_control_mode lower raw =
    let m = lower (trim_space raw) in
    if text_eq m (codes "off")
    then off
    else if text_eq m (codes "aggressive")
    then aggressive
    else simple

unfoldable pub is_aggressive : Mode → Bool
is_aggressive off = false
is_aggressive simple = false
is_aggressive aggressive = true

pub record Controller : Type 0 where
  pub mode : Mode
  pub watchdog : Option Watchdog

-- NewController
abbrev pub new_controller : Watchdog → Controller
new_controller d = record { mode = simple; watchdog = some d }

-- SetMode
unfoldable pub set_mode : (Text → Text) → Text → Controller → Controller
set_mode lower raw c = record c { mode = parse_control_mode lower raw }

-- A decision that changes nothing and is not audited.
abbrev pub bare : Action → Text → AuditEvent → Bool → Decision
bare action reason event failure = record {
  action = action;
  reason = reason;
  classification = none;
  sanitized_content = [];
  warning_notice = [];
  event = event;
  is_failure = failure;
}

abbrev pub locked_reason : Text
locked_reason = codes "principal is globally locked"

-- The event of a message of a locked principal.
abbrev pub locked_event : World → Principal → Text → AccessRecord → AuditEvent → AuditEvent
locked_event w p content r meta = record meta {
  principal = p;
  stage = ingress;
  source = user_direct;
  action = block;
  reason = r.reason;
  hash = w.hash content;
}

-- CheckAccess: an error of the store, or whether the principal is locked.
unfoldable pub check_access : Option Text → Principal → Stores → Text ⊎ Bool
check_access failed p s = elim s.access [
  | none ↦ inl (codes "access control unavailable")
  | some records ↦ elim (is_locked failed p records) [ inl e ↦ inl e | inr (b, r) ↦ inr b ]
]

-- What the mode and the watchdog make of a content; `dry` is EvaluateDryRun.
unfoldable pub evaluate_content :
    World
    → Controller
    → Option Records
    → Principal
    → Stage
    → Source
    → Text
    → AuditEvent
    → Bool
    → Stores
    → Stores × Decision
evaluate_content w c seen p stage source content meta dry s =
    if not (is_aggressive c.mode) then (s, bare pass [] meta false) else (elim c.watchdog [
      | none ↦ (s, bare block (codes "security control unavailable") meta (not dry))
      | some d ↦ evaluate w d seen p stage source content meta dry s
    ])

-- Evaluate and EvaluateContext
unfoldable pub evaluate_context :
    World
    → Controller
    → Option Records
    → Principal
    → Stage
    → Source
    → Text
    → AuditEvent
    → Bool
    → Stores
    → Stores × Decision
evaluate_context w c seen p stage source content meta dry s =
    evaluate_content w c seen p stage source content (named w meta) dry s

-- The lock of a principal, or why it could not be looked up.
unfoldable pub look_up : Option Text → Option Records → Principal → Text ⊎ (Bool × AccessRecord)
look_up gate_fails at_gate p = elim at_gate [
  | none ↦ inl (codes "security control unavailable")
  | some records ↦ is_locked gate_fails p records
]

-- GateIngress, and GateIngressDryRun for `dry`. The lock is looked up in `at_gate` with the error
-- `gate_fails`; `seen` is what the watchdog finds afterwards.
unfoldable pub gate_ingress :
    World
    → Option Text
    → Controller
    → Option Records
    → Option Records
    → Principal
    → Text
    → AuditEvent
    → Bool
    → Stores
    → Stores × Decision
unfolding evaluate_content
gate_ingress w gate_fails c at_gate seen p content given dry s =
    let meta = named w given in
    elim (look_up gate_fails at_gate p) [
      | inl e ↦
          let reason = elim at_gate as (λ o. Text) [
            | none ↦ e
            | some records ↦
                if dry
                then codes "access-control state unavailable"
                else codes "access-control state unavailable: " ++ e
          ] in
          (s, bare block reason meta (not dry))
      | inr (true, r) ↦
          let event = locked_event w p content r meta in
          (if dry then s else note_event w event s, bare block locked_reason event false)
      | inr (false, r) ↦ evaluate_content w c seen p ingress user_direct content meta dry s
    ]

-- LockWithMeta, with its answer: an error or none.
unfoldable pub lock_with_meta :
    World → (ℕ → Text → Text) → Principal → Text → AuditEvent → Stores → Stores × Option Text
lock_with_meta w cut p reason given s = elim s.access [
  | none ↦ (s, some (codes "access control unavailable"))
  | some records ↦
      let (records', failed) = lock_principal cut w.disk w.now p reason records in
      let event = record (named w given) {
        principal = p;
        action = lock;
        reason = reason;
        hash = w.hash reason;
      } in
      elim failed [
        | some e ↦ (s, some e)
        | none ↦ (note_event w event (record s { access = some records' }), none)
      ]
]

-- Unlock; `zero` is an event with no field set.
unfoldable pub unlock_with_note : World → AuditEvent → Principal → Stores → Stores × Option Text
unlock_with_note w zero p s = elim s.access [
  | none ↦ (s, some (codes "access control unavailable"))
  | some records ↦
      let (records', failed) = unlock_principal w.disk w.now p records in
      let event = record zero {
        principal = p;
        stage = ingress;
        source = user_direct;
        action = pass;
        reason = codes "manual unlock";
        hash = w.hash (principal_key p);
      } in
      elim failed [
        | some e ↦ (s, some e)
        | none ↦ (note_event w event (record s { access = some records' }), none)
      ]
]

-- Blocks
unfoldable pub blocks : Action → Bool
blocks pass = false
blocks warn = false
blocks filter = false
blocks block = true
blocks strike = true
blocks lock = true

-- The three texts of RejectMessage.
pub data Rejection : Type 0 where
  gateway_rejects service_fails inspector_rejects : Rejection

unfoldable pub is_lock : Action → Bool
is_lock pass = false
is_lock warn = false
is_lock filter = false
is_lock block = false
is_lock strike = false
is_lock lock = true

-- IsLocked of the controller
unfoldable pub is_locked_now : Option Text → Principal → Stores → Bool
unfolding check_access
is_locked_now failed p s = elim (check_access failed p s) [ inl e ↦ false | inr b ↦ b ]

-- RejectMessage
unfoldable pub reject_message : Option Text → Principal → Decision → Stores → Rejection
unfolding is_lock
reject_message failed p d s =
    if is_locked_now failed p s || is_lock d.action || text_eq d.reason locked_reason
    then gateway_rejects
    else if d.is_failure
    then service_fails
    else inspector_rejects
