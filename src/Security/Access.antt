-- ===== src/Security/Access.antt =====
-- internal/security/access.go: the strikes and locks of principals. A time is a number of nanoseconds
-- and 0 the zero time; every call reads the records anew and replaces them as a whole.
pub mod Strikes
pub mod Locks
use frost_agent.Prelude.{
  ℕ, ◌+◌, ◌==◌, ◌⊎◌, inl, inr, Bool, true, false, not, ◌&&◌, ◌||◌, Option, none, some, List, [],
  ◌∷◌, ◌++◌, ltb, leb, keep, length, if◌then◌else◌,
}
use frost_agent.Text.{Text, codes, is_empty, text_eq}
use frost_agent.Text.Maps.{find, put}
use frost_agent.Security.{Principal, principal_key, truncate}

-- AccessState; `unset` is the empty string of a record that was not there.
pub data AccessState : Type 0 where
  unset active locked : AccessState

pub record AccessRecord : Type 0 where
  pub principal : Principal
  pub state : AccessState
  pub reason : Text
  pub locked_at : ℕ
  pub updated_at : ℕ
  pub strike_times : List ℕ
  pub last_blocked_hash : Text
  pub last_blocked_at : ℕ

abbrev pub Records : Type 0
Records = List (Text × AccessRecord)

-- The zero value of AccessRecord.
abbrev pub no_record : AccessRecord
no_record = record {
  principal = record { platform = []; user_id = [] };
  state = unset;
  reason = [];
  locked_at = 0;
  updated_at = 0;
  strike_times = [];
  last_blocked_hash = [];
  last_blocked_at = 0;
}

unfoldable pub is_locked_state : AccessState → Bool
is_locked_state unset = false
is_locked_state active = false
is_locked_state locked = true

-- file.Records[key], with the zero value for a missing key.
unfoldable pub record_at : Text → Records → AccessRecord
record_at key records = elim (find key records) [ none ↦ no_record | some r ↦ r ]

-- IsLocked; `failed` is the error of load.
unfoldable pub is_locked : Option Text → Principal → Records → Text ⊎ (Bool × AccessRecord)
unfolding record_at
is_locked failed p records =
    let r = record_at (principal_key p) records in
    elim failed [ some e ↦ inl e | none ↦ inr (is_locked_state r.state, r) ]

-- LastBlockedHash, for the time `now` with the window before it as the cutoff.
unfoldable pub last_blocked : Option Text → Principal → ℕ → ℕ → Records → Text ⊎ Text
unfolding record_at
last_blocked failed p now window records =
    let r = record_at (principal_key p) records in
    let hash =
      if r.last_blocked_at == 0 || ltb (r.last_blocked_at + window) now
      then []
      else r.last_blocked_hash in
    elim failed [ some e ↦ inl e | none ↦ inr hash ]

-- ListLocked, before it is sorted by the time of the lock.
unfoldable pub list_locked : Option Text → Records → Text ⊎ List (Text × AccessRecord)
list_locked failed records = elim failed [
  | some e ↦ inl e
  | none ↦ inr (keep (λ e. is_locked_state e.1.state) records)
]

-- update: the file lock, load and save may each fail, and then nothing is changed.
pub record Disk : Type 0 where
  pub lock_fails : Option Text
  pub load_fails : Option Text
  pub save_fails : Option Text

-- The first error of a call of update.
unfoldable pub disk_error : Disk → Option Text
disk_error d = elim d.lock_fails [
  | some e ↦ some e
  | none ↦ elim d.load_fails [ some e ↦ some e | none ↦ d.save_fails ]
]

unfoldable pub update : Disk → (Records → Records) → Records → Records × Option Text
update d f records = elim (disk_error d) [ some e ↦ (records, some e) | none ↦ (f records, none) ]

-- The function that Lock hands to update.
unfoldable pub lock_record : (ℕ → Text → Text) → ℕ → Principal → Text → Records → Records
lock_record cut now p reason records =
    let r = record_at (principal_key p) records in
    put (principal_key p)
      (record r {
        principal = p;
        state = locked;
        reason = truncate cut 512 reason;
        updated_at = now;
        locked_at = if r.locked_at == 0 then now else r.locked_at;
      })
      records

-- The function that Unlock hands to update.
unfoldable pub unlock_record : ℕ → Principal → Records → Records
unlock_record now p records = elim (find (principal_key p) records) [
  | none ↦ records
  | some r ↦
      put (principal_key p)
        (record r {
          state = active;
          updated_at = now;
          reason = [];
          locked_at = 0;
          strike_times = [];
          last_blocked_hash = [];
          last_blocked_at = 0;
        })
        records
]

-- Whether a block at `last` lies within the window before `now`.
abbrev pub in_window : ℕ → ℕ → ℕ → Bool
in_window window now at = ltb now (at + window)

-- Whether there was a block within the window; 0 is the zero time.
abbrev pub had_prior : ℕ → ℕ → ℕ → Bool
had_prior window now last_at = not (last_at == 0) && in_window window now last_at

-- Whether a submission counts as a strike, by the last block.
unfoldable pub offends : ℕ → ℕ → Text → Bool → Text → ℕ → Bool
offends window now hash encoded last_hash last_at =
    let repeated = not (is_empty hash) && text_eq hash last_hash && had_prior window now last_at in
    had_prior window now last_at && (repeated || encoded)

-- The strikes behind a submission.
unfoldable pub strikes_after : ℕ → ℕ → Text → Bool → Text → ℕ → List ℕ → List ℕ
strikes_after window now hash encoded last_hash last_at times =
    let kept = keep (in_window window now) times in
    if offends window now hash encoded last_hash last_at then kept ++ now ∷ [] else kept

abbrev pub evasion_reason : Text
evasion_reason = codes "repeated active attempts to evade watchdog blocks"

abbrev pub wake_state : AccessState → AccessState
wake_state unset = active
wake_state active = active
wake_state locked = locked

-- The record behind a submission.
unfoldable pub struck_record : ℕ → ℕ → Principal → Text → Bool → ℕ → AccessRecord → AccessRecord
struck_record window threshold p hash encoded now r =
    let times =
      strikes_after window now hash encoded r.last_blocked_hash r.last_blocked_at r.strike_times in
    let r' = record r {
      principal = p;
      state = wake_state r.state;
      strike_times = times;
      last_blocked_hash = hash;
      last_blocked_at = now;
      updated_at = now;
    } in
    if ltb 0 threshold && leb threshold (length times)
    then record r' { state = locked; locked_at = now; reason = evasion_reason }
    else r'

-- RecordBlockedSubmission: the strikes and whether the principal is locked by it, or an error.
unfoldable pub record_blocked :
    Disk → ℕ → ℕ → Principal → Text → Bool → ℕ → Records → Records × (Text ⊎ (ℕ × Bool))
unfolding struck_record update
record_blocked d window threshold p hash encoded now records =
    let key = principal_key p in
    let r = struck_record window threshold p hash encoded now (record_at key records) in
    let n = length r.strike_times in
    let (records', failed) = update d (put key r) records in
    (records', elim failed [ some e ↦ inl e | none ↦ inr (n, ltb 0 threshold && leb threshold n) ])

-- Lock
unfoldable pub lock_principal :
    (ℕ → Text → Text) → Disk → ℕ → Principal → Text → Records → Records × Option Text
lock_principal cut d now p reason records = update d (lock_record cut now p reason) records

-- Unlock
unfoldable pub unlock_principal : Disk → ℕ → Principal → Records → Records × Option Text
unlock_principal d now p records = update d (unlock_record now p) records
