-- ===== src/Security/Access/Locks.antt =====
-- A lock holds until Unlock, whatever else is called.
use frost_agent.Prelude.{
  ℕ, ◌≡◌, refl, ap, sym, subst, ◌⊎◌, inl, inr, Bool, true, false, ◌&&◌, List, [], ◌∷◌, ltb, leb,
  length, All, if◌then◌else◌, arith, Bool-cases, Option-cases, if-case, option-case,
}
use frost_agent.Text.{Text, text_eq, text_eq_iff}
use frost_agent.Text.Maps.{find, put}
use frost_agent.Security.{Principal, principal_key}
use frost_agent.Security.Access.{
  AccessState, unset, active, locked, AccessRecord, Records, record_at, is_locked_state, wake_state,
  Disk, disk_error, update, lock_record, unlock_record, struck_record, record_blocked,
  lock_principal, unlock_principal,
}
use frost_agent.Security.Access.Strikes.{record_at-put, record_at-put_other}

-- A call that changes the records, with what the disk answers.
pub data Call : Type 0 where
  submits : Disk → (window threshold : ℕ) → Principal → (hash : Text) → (encoded : Bool) → ℕ → Call
  locks : Disk → ℕ → Principal → Text → Call
  unlocks : Disk → ℕ → Principal → Call

unfoldable pub apply : (ℕ → Text → Text) → Call → Records → Records
apply cut (submits d window threshold p hash encoded now) records =
    (record_blocked d window threshold p hash encoded now records).0
apply cut (locks d now p reason) records = (lock_principal cut d now p reason records).0
apply cut (unlocks d now p) records = (unlock_principal d now p records).0

unfoldable pub apply_all : (ℕ → Text → Text) → List Call → Records → Records
apply_all cut [] records = records
apply_all cut (c ∷ cs) records = apply_all cut cs (apply cut c records)

-- The call does not unlock the principal with the key.
abbrev pub NoUnlock : Text → Call → Type 0
NoUnlock key (submits d window threshold p hash encoded now) = Unit {0}
NoUnlock key (locks d now p reason) = Unit {0}
NoUnlock key (unlocks d now p) = text_eq (principal_key p) key ≡ false

abbrev pub Held : Text → Records → Type 0
Held key records = is_locked_state (record_at key records).state ≡ true

update-Held :
    (key : Text) (d : Disk) (f : Records → Records) (records : Records)
    → Held key records
    → Held key (f records)
    → Held key (update d f records).0
unfolding update
update-Held key d f records v w = elim (Option-cases (disk_error d)) [
  | inl works ↦ rw (works, update) w
  | inr (e, fails) ↦ rw (fails, update) v
]

-- A record put for a principal keeps the lock of another, and its own if it is locked.
put-Held :
    (key j : Text) (r : AccessRecord) (records : Records)
    → Held key records
    → (j ≡ key → is_locked_state r.state ≡ true)
    → Held key (put j r records)
put-Held key j r records v own = elim (Bool-cases (text_eq j key)) [
  | inl hit ↦
      let same : j ≡ key = (text_eq_iff j key).0 hit in
      subst (λ k. is_locked_state (record_at k (put j r records)).state ≡ true) same
        (rw (record_at-put j r records) (own same))
  | inr miss ↦ rw (record_at-put_other j key r records miss) v
]

wake-locked : (s : AccessState) → is_locked_state s ≡ true → is_locked_state (wake_state s) ≡ true
unfolding is_locked_state
wake-locked unset v = v
wake-locked active v = v
wake-locked locked v = v

struck-locked :
    (window threshold : ℕ) (p : Principal) (hash : Text) (encoded : Bool) (now : ℕ)
    (r : AccessRecord)
    → is_locked_state r.state ≡ true
    → is_locked_state (struck_record window threshold p hash encoded now r).state ≡ true
unfolding struck_record is_locked_state
struck-locked window threshold p hash encoded now r v =
    if-case (λ (q : AccessRecord). is_locked_state q.state ≡ true)
      (ltb 0 threshold && leb threshold _) _ _ refl (wake-locked r.state v)

unlock-Held :
    (key : Text) (now : ℕ) (p : Principal) (records : Records)
    → text_eq (principal_key p) key ≡ false
    → Held key records
    → Held key (unlock_record now p records)
unfolding unlock_record
unlock-Held key now p records other v =
    option-case (Held key) (find (principal_key p) records) _ _ v
      (λ r e. rw (record_at-put_other (principal_key p) key _ records other) v)

apply-Held :
    (cut : ℕ → Text → Text) (key : Text) (c : Call) (records : Records)
    → NoUnlock key c
    → Held key records
    → Held key (apply cut c records)
unfolding apply record_blocked lock_principal unlock_principal lock_record is_locked_state
apply-Held cut key (submits d window threshold p hash encoded now) records n v =
    let j = principal_key p in
    let r = struck_record window threshold p hash encoded now (record_at j records) in
    update-Held key d (put j r) records v (
      put-Held key j r records v (λ same.
        struck-locked window threshold p hash encoded now (record_at j records)
          (subst (λ k. is_locked_state (record_at k records).state ≡ true) (sym same) v)))
apply-Held cut key (locks d now p reason) records n v =
    update-Held key d (lock_record cut now p reason) records v
      (put-Held key (principal_key p) _ records v (λ same. refl))
apply-Held cut key (unlocks d now p) records n v =
    update-Held key d (unlock_record now p) records v (unlock-Held key now p records n v)

pub apply_all-Held :
    (cut : ℕ → Text → Text) (key : Text) (cs : List Call) (records : Records)
    → All (NoUnlock key) cs
    → Held key records
    → Held key (apply_all cut cs records)
unfolding apply_all
apply_all-Held cut key [] records n v = v
apply_all-Held cut key (c ∷ cs) records n v =
    apply_all-Held cut key cs (apply cut c records) n.1 (apply-Held cut key c records n.0 v)

abbrev was_locked : Text ⊎ (ℕ × Bool) → Bool
was_locked (inl e) = false
was_locked (inr (n, b)) = b

-- The two parts of RecordBlockedSubmission that look at the strikes agree.
struck-tested :
    (window threshold : ℕ) (p : Principal) (hash : Text) (encoded : Bool) (now : ℕ)
    (r : AccessRecord)
    → let q = struck_record window threshold p hash encoded now r in
      (ltb 0 threshold && leb threshold (length q.strike_times)) ≡ true
      → is_locked_state q.state ≡ true
unfolding struck_record is_locked_state
struck-tested window threshold p hash encoded now r = tested threshold _ _ _ refl refl refl
  where
    tested :
        (threshold : ℕ) (ts : List ℕ) (x y : AccessRecord)
        → x.strike_times ≡ ts
        → y.strike_times ≡ ts
        → is_locked_state x.state ≡ true
        → let q = if ltb 0 threshold && leb threshold (length ts) then x else y in
          (ltb 0 threshold && leb threshold (length q.strike_times)) ≡ true
          → is_locked_state q.state ≡ true
    tested threshold ts x y e f g h =
        elim (Bool-cases (ltb 0 threshold && leb threshold (length ts))) [
          | inl c ↦ rw c g
          | inr c ↦ absurd (ground (arith, c, rw c at h, ap length f))
        ]

-- A submission that answers that it has locked its principal has done so.
pub record_blocked-Held :
    (d : Disk) (window threshold : ℕ) (p : Principal) (hash : Text) (encoded : Bool) (now n : ℕ)
    (records : Records)
    → (record_blocked d window threshold p hash encoded now records).1 ≡ inr (n, true)
    → Held (principal_key p) (record_blocked d window threshold p hash encoded now records).0
unfolding record_blocked update
record_blocked-Held d window threshold p hash encoded now n records h =
    let key = principal_key p in
    let r = record_at key records in
    elim (Option-cases (disk_error d)) [
      | inl works ↦
          let tested = ap was_locked (rw (works, record_blocked, update) at h) in
          rw (works, record_blocked, update)
            (rw (record_at-put key (struck_record window threshold p hash encoded now r) records)
              (struck-tested window threshold p hash encoded now r tested))
      | inr (e, fails) ↦ absurd (ground (arith, rw (fails, record_blocked, update) at h))
    ]
