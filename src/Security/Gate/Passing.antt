-- ===== src/Security/Gate/Passing.antt =====
-- What the gate lets in, what it says to a locked principal, and that a dry run foretells it.
use frost_agent.Prelude.{
  ℕ, ◌≡◌, refl, ◌⊎◌, inl, inr, Bool, true, false, Option, none, some, List, All, Bool-cases,
  Option-cases, sum-cases,
}
use frost_agent.Text.{Text}
use frost_agent.Security.{
  Principal, principal_key, Stage, ingress, Source, user_direct, block, AuditEvent,
}
use frost_agent.Security.Access.{Records, AccessRecord, Disk, is_locked, record_blocked}
use frost_agent.Security.Access.Locks.{
  Call, NoUnlock, apply_all, apply_all-Held, record_blocked-Held, Held,
}
use frost_agent.Security.Audit.{Stores, World, named}
use frost_agent.Security.Watchdog.Response.{Watchdog}
use frost_agent.Security.Watchdog.Inspected.{Inspected}
use frost_agent.Security.Watchdog.Blameless.{note_event-access}
use frost_agent.Security.Watchdog.Rehearsal.{soften, Foretold, evaluate-Rehearsed}
use frost_agent.Security.Gate.{Controller, is_aggressive, look_up, gate_ingress, evaluate_content}

content-Rehearsed :
    (w : World) (c : Controller) (seen : Option Records) (p : Principal) (stage : Stage)
    (source : Source) (content : Text) (meta : AuditEvent) (s : Stores)
    → let dry = evaluate_content w c seen p stage source content meta true s in
      let real = evaluate_content w c seen p stage source content meta false s in
      (dry.0 ≡ s) × Foretold dry.1 real.1
unfolding evaluate_content soften
content-Rehearsed w c seen p stage source content meta s =
    elim (Bool-cases (is_aggressive c.mode)) [
      | inr calm ↦ rw (calm, evaluate_content) (refl, (refl, refl, refl, refl))
      | inl alert ↦ elim (Option-cases c.watchdog) [
        | inl nobody ↦ rw (alert, nobody, evaluate_content) (refl, (refl, refl, refl, refl))
        | inr (d, there) ↦
            rw (alert, there, evaluate_content)
              (evaluate-Rehearsed w d seen p stage source content meta s)
      ]
    ]

-- GateIngressDryRun changes neither store. Its decision has the action that GateIngress would have at
-- the same time, where a strike and a lock count as a block, and the same classification, sanitized
-- content and warning. The reasons and failure marks may differ and are not compared.
pub rehearsal_agrees :
    (w : World) (gate_fails : Option Text) (c : Controller) (at_gate seen : Option Records)
    (p : Principal) (content : Text) (meta : AuditEvent) (s : Stores)
    → let dry = gate_ingress w gate_fails c at_gate seen p content meta true s in
      let real = gate_ingress w gate_fails c at_gate seen p content meta false s in
      (dry.0 ≡ s) × Foretold dry.1 real.1
unfolding gate_ingress soften
rehearsal_agrees w gate_fails c at_gate seen p content meta s =
    elim (sum-cases (look_up gate_fails at_gate p)) [
      | inl (e, bad) ↦ rw (bad, gate_ingress) (refl, (refl, refl, refl, refl))
      | inr ((true, r), held) ↦ rw (held, gate_ingress) (refl, (refl, refl, refl, refl))
      | inr ((false, r), clear) ↦
          rw (clear, gate_ingress)
            (content-Rehearsed w c seen p ingress user_direct content (named w meta) s)
    ]

abbrev answered : Text ⊎ (Bool × AccessRecord) → Bool
answered (inl e) = true
answered (inr (b, r)) = b

locked-blocked :
    (w : World) (gate_fails : Option Text) (c : Controller) (records : Records)
    (seen : Option Records) (p : Principal) (content : Text) (meta : AuditEvent) (dry : Bool)
    (s : Stores)
    → Held (principal_key p) records
    → let r = gate_ingress w gate_fails c (some records) seen p content meta dry s in
      (r.1.action ≡ block) × (r.0.access ≡ s.access)
unfolding gate_ingress look_up is_locked
locked-blocked w (some e) c records seen p content meta dry s held = (refl, refl)
locked-blocked w none c records seen p content meta true s held =
    rw (held, gate_ingress, look_up, is_locked) (refl, refl)
locked-blocked w none c records seen p content meta false s held =
    rw (held, gate_ingress, look_up, is_locked) (refl, note_event-access w _ s)

-- Once RecordBlockedSubmission has answered that it locked the principal, and whatever other calls
-- the store gets after that, Unlock of this principal excepted, every message of the principal is
-- blocked at the gate, in each mode, and is no further strike; so too if the store cannot be read.
pub locked_until_unlocked :
    (cut : ℕ → Text → Text) (d : Disk) (window threshold : ℕ) (p : Principal) (hash : Text)
    (encoded : Bool) (now n : ℕ) (before : Records) (cs : List Call)
    → let first = record_blocked d window threshold p hash encoded now before in
      first.1 ≡ inr (n, true)
      → All (NoUnlock (principal_key p)) cs
      → (w : World) (gate_fails : Option Text) (c : Controller) (seen : Option Records)
        (content : Text) (meta : AuditEvent) (s : Stores)
      → let at_gate = some (apply_all cut cs first.0) in
        let r = gate_ingress w gate_fails c at_gate seen p content meta false s in
        (r.1.action ≡ block) × (r.0.access ≡ s.access)
locked_until_unlocked cut d window threshold p hash encoded now n before cs h quiet w gate_fails c
      seen content meta s =
    let held = record_blocked-Held d window threshold p hash encoded now n before h in
    locked-blocked w gate_fails c _ seen p content meta false s
      (apply_all-Held cut (principal_key p) cs _ quiet held)
