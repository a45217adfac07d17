-- ===== src/Security/Access/Strikes.antt =====
-- The strikes of a principal are the evasions in the window, counted over all of its submissions.
use frost_agent.Prelude.{
  ℕ, ◌+◌, ◌≡◌, ◌≤◌, ◌<◌, refl, sym, subst, ap, ◌∙◌, ◌⊎◌, inl, inr, Bool, true, false, not, ◌&&◌,
  ◌||◌, Option, none, some, List, [], ◌∷◌, ◌++◌, ltb, leb, keep, length, All, All-keep,
  if◌then◌else◌, arith, Bool-cases,
}
use frost_agent.Text.{Text, is_empty, text_eq, text_eq_iff}
use frost_agent.Text.Maps.{find, put, find-put, find-put_other}
use frost_agent.Security.{Principal, principal_key}
use frost_agent.Security.Access.{
  AccessRecord, Records, record_at, Disk, disk_error, update, in_window, offends, strikes_after,
  struck_record, record_blocked, AccessState, unset, active, locked, is_locked_state, wake_state,
}

-- A call of RecordBlockedSubmission.
pub record Submission : Type 0 where
  pub principal : Principal
  pub hash : Text
  pub encoded : Bool
  pub at : ℕ
  pub disk : Disk

-- A submission is an offence if the one before it lies in the window and it repeats it or is encoded.
abbrev pub is_offence : ℕ → Submission → List Submission → Bool
is_offence window c [] = false
is_offence window c (d ∷ ds) =
    ltb c.at (d.at + window) && ((not (is_empty c.hash) && text_eq c.hash d.hash) || c.encoded)

-- The times of the offences among submissions, of which the newest comes first.
unfoldable pub offence_times : ℕ → List Submission → List ℕ
offence_times window [] = []
offence_times window (c ∷ cs) =
    let before = offence_times window cs in
    if is_offence window c cs then before ++ c.at ∷ [] else before

-- The offences in the window before the newest submission.
abbrev pub recent_offences : ℕ → List Submission → List ℕ
recent_offences window [] = []
recent_offences window (c ∷ cs) = keep (in_window window c.at) (offence_times window (c ∷ cs))

-- What the store makes of submissions of any principals, of which the newest comes first.
unfoldable pub submit_all : ℕ → ℕ → List Submission → Records
submit_all window threshold [] = []
submit_all window threshold (c ∷ cs) =
    let records = submit_all window threshold cs in
    (record_blocked c.disk window threshold c.principal c.hash c.encoded c.at records).0

abbrev pub succeeds : Submission → Bool
succeeds c = elim (disk_error c.disk) [ none ↦ true | some e ↦ false ]

-- The submissions of one principal that reached the disk.
abbrev pub counted : Text → List Submission → List Submission
counted key cs = keep (λ c. succeeds c && text_eq (principal_key c.principal) key) cs

-- The times are positive and do not fall.
abbrev pub Timed : List Submission → Type 0
Timed [] = Unit {0}
Timed (c ∷ cs) = (0 < c.at) × All (λ d. d.at ≤ c.at) cs × Timed cs

abbrev top_hash : List Submission → Text
top_hash [] = []
top_hash (c ∷ cs) = c.hash

abbrev top_at : List Submission → ℕ
top_at [] = 0
top_at (c ∷ cs) = c.at

record Matches (window : ℕ) (r : AccessRecord) (cs : List Submission) : Type 0 where
  times : r.strike_times ≡ recent_offences window cs
  hash : r.last_blocked_hash ≡ top_hash cs
  at : r.last_blocked_at ≡ top_at cs

keep-keep_window :
    (window now then_ : ℕ) (ts : List ℕ)
    → then_ ≤ now
    → keep (in_window window now) (keep (in_window window then_) ts)
      ≡ keep (in_window window now) ts
keep-keep_window window now then_ [] h = refl
keep-keep_window window now then_ (t ∷ ts) h =
    let rest = keep-keep_window window now then_ ts h in
    elim (Bool-cases (in_window window then_ t)) [
      | inl inside ↦ rw inside (rw rest refl)
      | inr outside ↦
          let late : in_window window now t ≡ false = ground (arith, outside, h) in
          rw (outside, late) rest
    ]

keep-append_one :
    (p : ℕ → Bool) (ts : List ℕ) (t : ℕ) → p t ≡ true → keep p (ts ++ t ∷ []) ≡ keep p ts ++ t ∷ []
keep-append_one p [] t h = rw h refl
keep-append_one p (u ∷ ts) t h = elim (Bool-cases (p u)) [
  | inl e ↦ rw e (ap (λ l. u ∷ l) (keep-append_one p ts t h))
  | inr e ↦ rw e (keep-append_one p ts t h)
]

offends-is_offence :
    (window : ℕ) (c : Submission) (cs : List Submission)
    → Timed (c ∷ cs)
    → offends window c.at c.hash c.encoded (top_hash cs) (top_at cs) ≡ is_offence window c cs
unfolding offends
offends-is_offence window c [] t = refl
offends-is_offence window c (d ∷ cs) t = let above : 0 < d.at = t.2.0 in ground (arith, above)

keep-append_if :
    (p : ℕ → Bool) (b : Bool) (ts : List ℕ) (t : ℕ)
    → (b ≡ true → p t ≡ true)
    → keep p (if b then ts ++ t ∷ [] else ts) ≡ (if b then keep p ts ++ t ∷ [] else keep p ts)
keep-append_if p true ts t h = keep-append_one p ts t (h refl)
keep-append_if p false ts t h = refl

-- The strikes that a submission leaves, where the record matches those before it.
strikes_after-recent :
    (window : ℕ) (c : Submission) (cs : List Submission)
    → Timed (c ∷ cs)
    → strikes_after window c.at c.hash c.encoded
        (top_hash cs)
        (top_at cs)
        (recent_offences window cs)
      ≡ recent_offences window (c ∷ cs)
unfolding strikes_after offence_times offends
strikes_after-recent window c [] t = refl
strikes_after-recent window c (d ∷ cs) t =
    let same = offends-is_offence window c (d ∷ cs) t in
    let earlier : d.at ≤ c.at = t.1.0 in
    let kept = keep-keep_window window c.at d.at (offence_times window (d ∷ cs)) earlier in
    let reaches : is_offence window c (d ∷ cs) ≡ true → in_window window c.at c.at ≡ true =
      λ e. ground (arith, e, earlier) in
    (λ i. if same i then kept i ++ c.at ∷ [] else kept i)
    ∙ sym (
        keep-append_if (in_window window c.at) (is_offence window c (d ∷ cs))
          (offence_times window (d ∷ cs)) c.at reaches)

All-keep_le :
    (p : Submission → Bool) (n : ℕ) (cs : List Submission)
    → All (λ d. d.at ≤ n) cs
    → All (λ d. d.at ≤ n) (keep p cs)
All-keep_le p n cs h = All-keep (λ d. d.at ≤ n) p cs h

Timed-keep : (p : Submission → Bool) (cs : List Submission) → Timed cs → Timed (keep p cs)
Timed-keep p [] t = t
Timed-keep p (c ∷ cs) t = elim (Bool-cases (p c)) [
  | inl e ↦ rw e (t.0, All-keep_le p c.at cs t.1, Timed-keep p cs t.2)
  | inr e ↦ rw e (Timed-keep p cs t.2)
]

struck-Matches :
    (window threshold : ℕ) (c : Submission) (cs : List Submission) (r : AccessRecord)
    → Timed (c ∷ cs)
    → Matches window r cs
    → Matches window (struck_record window threshold c.principal c.hash c.encoded c.at r) (c ∷ cs)
unfolding struck_record
struck-Matches window threshold c cs r t m =
    let next =
      strikes_after window c.at c.hash c.encoded r.last_blocked_hash r.last_blocked_at
        r.strike_times in
    let times : next ≡ recent_offences window (c ∷ cs) =
      (λ i. strikes_after window c.at c.hash c.encoded (m.hash i) (m.at i) (m.times i))
      ∙ strikes_after-recent window c cs t in
    elim (Bool-cases (ltb 0 threshold && leb threshold (length next))) [
      | inl e ↦ rw e (record { times = times; hash = refl; at = refl })
      | inr e ↦ rw e (record { times = times; hash = refl; at = refl })
    ]

pub record_at-put :
    (k : Text) (r : AccessRecord) (records : Records) → record_at k (put k r records) ≡ r
unfolding record_at
record_at-put k r records = rw (find-put k r records, record_at) refl

pub record_at-put_other :
    (j k : Text) (r : AccessRecord) (records : Records)
    → text_eq j k ≡ false
    → record_at k (put j r records) ≡ record_at k records
unfolding record_at
record_at-put_other j k r records h = rw (find-put_other j k r records h, record_at) refl

-- One call, whose submission is of the principal with the key or not and fails or not.
call-Matches :
    (window : ℕ) (key j : Text) (o : Option Text) (f : AccessRecord → AccessRecord)
    (records : Records) (c : Submission) (cs : List Submission)
    → ((r : AccessRecord) → Matches window r cs → Matches window (f r) (c ∷ cs))
    → Matches window (record_at key records) cs
    → Matches window
        (record_at key
          (elim o as (λ x. Records × Option Text) [
            | some e ↦ (records, some e)
            | none ↦ (put j (f (record_at j records)) records, none)
          ]).0)
        (if (elim o as (λ x. Bool) [ none ↦ true | some e ↦ false ]) && text_eq j key
          then c ∷ cs
          else cs)
call-Matches window key j (some e) f records c cs step m = m
call-Matches window key j none f records c cs step m = elim (Bool-cases (text_eq j key)) [
  | inl hit ↦
      let same : j ≡ key = (text_eq_iff j key).0 hit in
      let here : record_at key (put j (f (record_at j records)) records)
          ≡ f (record_at key records) =
        (λ i. record_at key (put (same i) (f (record_at (same i) records)) records))
        ∙ record_at-put key (f (record_at key records)) records in
      rw hit (subst (λ r. Matches window r (c ∷ cs)) (sym here) (step (record_at key records) m))
  | inr miss ↦
      let there = record_at-put_other j key (f (record_at j records)) records miss in
      rw miss (subst (λ r. Matches window r cs) (sym there) m)
]

-- The record of a principal matches its submissions, whatever other principals do.
submit_all-Matches :
    (window threshold : ℕ) (key : Text) (cs : List Submission)
    → Timed cs
    → Matches window (record_at key (submit_all window threshold cs)) (counted key cs)
unfolding submit_all record_blocked update record_at find
submit_all-Matches window threshold key [] t = record { times = refl; hash = refl; at = refl }
submit_all-Matches window threshold key (c ∷ cs) t =
    let before = counted key cs in
    let t' : Timed (c ∷ before) = (t.0, All-keep_le _ c.at cs t.1, Timed-keep _ cs t.2) in
    call-Matches window key (principal_key c.principal) (disk_error c.disk)
      (struck_record window threshold c.principal c.hash c.encoded c.at)
      (submit_all window threshold cs) c before
      (λ r m. struck-Matches window threshold c before r t' m)
      (submit_all-Matches window threshold key cs t.2)

wake-state : (x : AccessState) → is_locked_state (wake_state x) ≡ is_locked_state x
unfolding is_locked_state
wake-state unset = refl
wake-state active = refl
wake-state locked = refl

-- The record is locked if the strikes of this submission reach the threshold or it was before.
struck-state :
    (window threshold : ℕ) (c : Submission) (r : AccessRecord)
    → let next = struck_record window threshold c.principal c.hash c.encoded c.at r in
      is_locked_state next.state
      ≡ ((ltb 0 threshold && leb threshold (length next.strike_times)) || is_locked_state r.state)
unfolding struck_record is_locked_state
struck-state window threshold c r =
    let times =
      strikes_after window c.at c.hash c.encoded r.last_blocked_hash r.last_blocked_at
        r.strike_times in
    let or_before = λ (b : Bool). b || is_locked_state r.state in
    elim (Bool-cases (ltb 0 threshold && leb threshold (length times))) [
      | inl e ↦ rw (e, struck_record) (sym (ap or_before e))
      | inr e ↦ rw (e, struck_record) (wake-state r.state ∙ sym (ap or_before e))
    ]

abbrev answer : ℕ → List ℕ → Text ⊎ (ℕ × Bool)
answer threshold ts = inr (length ts, ltb 0 threshold && leb threshold (length ts))

-- Behind any row of submissions of any principals at times that do not fall, of which some fail on
-- the disk, a submission that reaches the disk answers the number of offences that the principal
-- has made in the window, itself included. An offence is a submission of the principal that comes
-- within the window behind the last one that reached the disk, and repeats its hash or is encoded.
-- The answer says that the principal is locked by it exactly if they are at least as many as a
-- threshold above 0. Behind it the record of the principal is locked exactly if the answer says so or
-- the record was locked before.
pub strikes_exact :
    (window threshold : ℕ) (c : Submission) (cs : List Submission)
    → Timed (c ∷ cs)
    → disk_error c.disk ≡ none
    → let n = length (recent_offences window (c ∷ counted (principal_key c.principal) cs)) in
      let key = principal_key c.principal in
      let before = submit_all window threshold cs in
      let r = record_blocked c.disk window threshold c.principal c.hash c.encoded c.at before in
      let locks = ltb 0 threshold && leb threshold n in
      (r.1 ≡ inr (n, locks))
      × (is_locked_state (record_at key r.0).state
          ≡ (locks || is_locked_state (record_at key before).state))
unfolding record_blocked update
strikes_exact window threshold c cs t works =
    let key = principal_key c.principal in
    let before = counted key cs in
    let t' : Timed (c ∷ before) = (t.0, All-keep_le _ c.at cs t.1, Timed-keep _ cs t.2) in
    let m =
      struck-Matches window threshold c before _ t'
        (submit_all-Matches window threshold key cs t.2) in
    let old = record_at key (submit_all window threshold cs) in
    let next = struck_record window threshold c.principal c.hash c.encoded c.at old in
    rw (works, record_blocked, update)
      (
        ap (answer threshold) m.times,
        ap (λ r. is_locked_state r.state) (record_at-put key next (submit_all window threshold cs))
            ∙ struck-state window threshold c old
            ∙ ap (λ ts. (ltb 0 threshold && leb threshold (length ts)) || is_locked_state old.state)
                m.times,
      )
