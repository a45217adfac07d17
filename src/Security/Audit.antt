-- ===== src/Security/Audit.antt =====
-- internal/security/watchdog.go: the audit log, the stores that all watchdogs share, and what the
-- surroundings do in one evaluation.
use frost_agent.Prelude.{
  ℕ, ◌-◌, ◌==◌, Bool, ◌||◌, Option, none, some, List, [], ◌∷◌, ◌++◌, ltb, drop, length,
  if◌then◌else◌,
}
use frost_agent.Text.{Text, is_empty}
use frost_agent.Security.{AuditEvent}
use frost_agent.Security.Access.{Records, Disk}

-- AuditStore: the events, the oldest first, and how many may stay.
pub record AuditLog : Type 0 where
  pub events : List AuditEvent
  pub limit : ℕ

-- The stores that all watchdogs share; a store may not be there.
pub record Stores : Type 0 where
  pub access : Option Records
  pub audit : Option AuditLog

-- What the surroundings do in one evaluation: the clock when the last hash is asked for and later,
-- the errors of the stores, a fresh id, ContentHash, safePreview and normalizeBounded.
pub record World : Type 0 where
  pub asked_at : ℕ
  pub now : ℕ
  pub read_fails : Option Text
  pub disk : Disk
  pub audit_fails : Bool
  pub fresh_id : Text
  pub hash : Text → Text
  pub preview : Text → Text
  pub normalize : Text → Text × Bool

-- Append; its error is dropped by all callers.
unfoldable pub append_event : World → AuditEvent → AuditLog → AuditLog
append_event w event log =
    let event' = record event {
      at = if event.at == 0 then w.now else event.at;
      id = if is_empty event.id then w.fresh_id else event.id;
    } in
    let events = log.events ++ event' ∷ [] in
    if w.audit_fails then log else record log { events = drop (length events - log.limit) events }

unfoldable pub note_event : World → AuditEvent → Stores → Stores
note_event w event s = record s {
  audit = elim s.audit [ none ↦ none | some log ↦ some (append_event w event log) ];
}

-- List, of the events that the file has; `most` is the limit of the call, where it is above 0.
unfoldable pub list_events : ℕ → AuditLog → List AuditEvent
list_events most log =
    if most == 0 || ltb (length log.events) most
    then log.events
    else drop (length log.events - most) log.events

-- An event gets an id where it has none.
abbrev pub named : World → AuditEvent → AuditEvent
named w meta = record meta { id = if is_empty meta.id then w.fresh_id else meta.id }
