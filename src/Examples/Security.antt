-- ===== src/Examples/Security.antt =====
-- The theorems on the access control at concrete inputs.
use frost_agent.Prelude.{
  ◌||◌, ℕ, ◌≡◌, ◌⊎◌, refl, inr, true, false, none, some, List, [], ◌∷◌, arith, length, ltb, leb,
  ◌&&◌,
}
use frost_agent.Text.{Text, codes, text_eq}
use frost_agent.Text.Maps.{find, put}
use frost_agent.Security.{
  Principal, principal_key, ingress, user_direct, tool_result, block, pass, no_category, safe,
  critical, malicious_execution, ClassificationResult, AuditEvent,
}
use frost_agent.Security.Access.{
  Disk, disk_error, update, record_at, strikes_after, offends, struck_record, record_blocked,
  is_locked_state,
}
use frost_agent.Security.Access.Strikes.{
  Submission, submit_all, counted, recent_offences, strikes_exact,
}
use frost_agent.Security.Access.Locks.{Call, submits, apply_all}
use frost_agent.Security.Audit.{Stores, World}
use frost_agent.Security.Watchdog.{evaluate}
use frost_agent.Security.Watchdog.Response.{Watchdog, new_watchdog, classifier_for}
use frost_agent.Security.Watchdog.Judge.{Classifier, judge, strongest}
use frost_agent.Security.Watchdog.Inspected.{Inspected}
use frost_agent.Security.Watchdog.Blameless.{Spared, Guilty, blameless}
use frost_agent.Security.Watchdog.Rehearsal.{Foretold}
use frost_agent.Security.Gate.{Controller, aggressive, gate_ingress}
use frost_agent.Security.Gate.Passing.{rehearsal_agrees, locked_until_unlocked}

abbrev ann : Principal
ann = record { platform = codes "qq"; user_id = codes "7" }

abbrev bob : Principal
bob = record { platform = codes "qq"; user_id = codes "8" }

abbrev works : Disk
works = record { lock_fails = none; load_fails = none; save_fails = none }

abbrev sends : Principal → ℕ → Submission
sends p at = record { principal = p; hash = codes "h"; encoded = false; at = at; disk = works }

-- Of two principals, the newest first.
abbrev earlier : List Submission
earlier = sends ann 30 ∷ sends bob 25 ∷ sends ann 20 ∷ sends ann 10 ∷ []

strikes_exact_example :
    let n = length (recent_offences 100 (sends ann 40 ∷ counted (principal_key ann) earlier)) in
    let before = submit_all 100 3 earlier in
    let r = record_blocked works 100 3 ann (codes "h") false 40 before in
    let locks = ltb 0 3 && leb 3 n in
    (r.1 ≡ inr (n, locks))
    × (is_locked_state (record_at (principal_key ann) r.0).state
        ≡ (locks || is_locked_state (record_at (principal_key ann) before).state))
unfolding disk_error
strikes_exact_example = strikes_exact 100 3 (sends ann 40) earlier (omega arith) refl

abbrev no_event : AuditEvent
no_event = record {
  id = [];
  at = 0;
  principal = ann;
  instance_id = [];
  session = [];
  tool = [];
  stage = ingress;
  source = user_direct;
  action = pass;
  reason = [];
  hash = [];
  preview = [];
  encoded = false;
  category = no_category;
  risk_level = safe;
}

abbrev world : World
world = record {
  asked_at = 50;
  now = 51;
  read_fails = none;
  disk = works;
  audit_fails = false;
  fresh_id = codes "eval_1";
  hash = λ t. t;
  preview = λ t. t;
  normalize = λ t. (t, false);
}

abbrev finds : ClassificationResult → Classifier
finds c = λ t. inr c

abbrev harmless : ClassificationResult
harmless = record { category = no_category; risk_level = safe; origin = user_direct; reason = [] }

abbrev severe : ClassificationResult
severe = record {
  category = malicious_execution;
  risk_level = critical;
  origin = user_direct;
  reason = [];
}

abbrev watching : ClassificationResult → Watchdog
watching c = record new_watchdog { classifier = some (finds c) }

abbrev stores : Stores
stores = record { access = some []; audit = none }

blameless_example :
    let r =
      evaluate world
        (watching severe)
        (some [])
        ann
        ingress
        tool_result
        (codes "rm")
        no_event
        false
        stores in
    let j =
      judge (classifier_for (watching severe) []) tool_result (codes "rm") (codes "rm") false in
    Spared stores r.0 r.1.action
    ⊎ ((r.1.classification ≡ some (strongest j))
        × (j.failed ≡ false)
        × Guilty false tool_result (strongest j))
blameless_example =
    blameless world (watching severe) (some []) ann ingress tool_result (codes "rm") no_event false
      stores

abbrev guarded : ClassificationResult → Controller
guarded c = record { mode = aggressive; watchdog = some (watching c) }

rehearsal_agrees_example :
    let dry =
      gate_ingress world none
        (guarded severe)
        (some [])
        (some [])
        ann
        (codes "rm")
        no_event
        true
        stores in
    let real =
      gate_ingress world none
        (guarded severe)
        (some [])
        (some [])
        ann
        (codes "rm")
        no_event
        false
        stores in
    (dry.0 ≡ stores) × Foretold dry.1 real.1
rehearsal_agrees_example =
    rehearsal_agrees world none (guarded severe) (some []) (some []) ann (codes "rm") no_event
      stores

-- Another principal is struck after the lock.
abbrev others : List Call
others = submits works 100 3 bob (codes "h") false 45 ∷ []

-- The third strike.
third :
    (record_blocked works 100 3 ann (codes "h") false 40 (submit_all 100 3 earlier)).1
    ≡ inr (3, true)
unfolding record_blocked update disk_error submit_all record_at struck_record strikes_after offends
    principal_key find put text_eq
third = refl

locked_until_unlocked_example :
    let first = record_blocked works 100 3 ann (codes "h") false 40 (submit_all 100 3 earlier) in
    let r =
      gate_ingress world none
        (guarded harmless)
        (some (apply_all (λ n t. t) others first.0))
        (some [])
        ann
        (codes "hi")
        no_event
        false
        stores in
    (r.1.action ≡ block) × (r.0.access ≡ stores.access)
locked_until_unlocked_example =
    locked_until_unlocked (λ n t. t) works 100 3 ann (codes "h") false 40 3
      (submit_all 100 3 earlier) others third (tt, tt) world none (guarded harmless) (some [])
      (codes "hi") no_event stores
