-- ===== src/GroupCompact/Invariant.antt =====
-- The order of the sequence numbers in the buffer, under each call of a session.
use frost_agent.Prelude.{
  ℕ, suc, ◌+◌, ◌<◌, ◌≡◌, refl, inl, inr, Bool, true, false, not, ◌&&◌, ◌||◌, Option, none, some,
  List, [], ◌∷◌, u64, u64_mod, arith, Bool-cases, Option-cases, ◌==◌,
}
use frost_agent.Text.{Text, is_empty, trim_space, text_eq, codes}
use frost_agent.GroupCompact.Message.{GroupCompactMessage}
use frost_agent.GroupCompact.Buffer.{Slot}
use frost_agent.GroupCompact.Buffer.Order.{
  Between, enforce_cap-Between, unstage-Between, keep-Between, append-Between,
  after_sequence-Between,
}
use frost_agent.GroupCompact.State.{GroupState, Snapshot, buffer_limit}
use frost_agent.GroupCompact.Ingest.{
  resolve, push_message, append_resolved, append_internal, promotes, promote_slot, describe,
}
use frost_agent.GroupCompact.Guard.{Guard, guard_sequence, set_image_description}
use frost_agent.GroupCompact.Compact.{
  Persisted, commit_snapshot, commit_with_persistence, reset_group_compact, reset_session_group,
  clear_group, set_running_summary,
}
use frost_agent.GroupCompact.Revoke.{drops, drop_state, drop_slot_checked}
use frost_agent.GroupCompact.Distill.{begin_distillation, cleanup_distillation}
use frost_agent.GroupCompact.Ops.{
  Quiet, append, promote, picture, commit, set_summary, begin, cleanup, Call, quiet, drop_message,
  reset_compact, reset_session, clear, quiet_step, step,
}

pub record Ordered (s : GroupState) : Type 0 where
  pub rising : Between 0 s.sequence s.buffer

-- The next number, where the counter does not wrap.
pub next_sequence : (n : ℕ) → n + 1 < u64_mod → u64 (n + 1) ≡ suc n
next_sequence n h = omega arith

push_message-Ordered :
    (now : ℕ) (m : GroupCompactMessage) (staged : Bool) (max : ℕ) (s : GroupState)
    → s.sequence + 1 < u64_mod
    → Ordered s
    → Ordered (push_message now m staged max s).0
unfolding push_message
push_message-Ordered now m staged max s h v =
    let n = u64 (s.sequence + 1) in
    let up : s.sequence < n = omega (arith, next_sequence s.sequence h) in
    record {
      rising =
          enforce_cap-Between 0 n max _
            (append-Between 0 s.sequence n s.buffer _ v.rising (omega arith) up refl);
    }

append_resolved-Ordered :
    (o : Option GroupCompactMessage) (now : ℕ) (staged : Bool) (max : ℕ) (s : GroupState)
    → s.sequence + 1 < u64_mod
    → Ordered s
    → Ordered (append_resolved o now staged max s).0
unfolding append_resolved
append_resolved-Ordered none now staged max s h v = v
append_resolved-Ordered (some m) now staged max s h v =
    elim (Bool-cases (is_empty (trim_space m.content))) [
      | inl e ↦ rw e v
      | inr e ↦ rw e (push_message-Ordered now m staged max s h v)
    ]

promote_slot-Ordered :
    (now seq : ℕ) (id : Text) (s : GroupState) → Ordered s → Ordered (promote_slot now seq id s).0
unfolding promote_slot
promote_slot-Ordered now seq id s v =
    let up = unstage-Between 0 s.sequence (promotes seq (trim_space id)) s.buffer v.rising in
    ground (arith, v.rising, up)

-- The slots that an optional buffer holds.
abbrev Maybe : ℕ → ℕ → Option (List Slot) → Type 0
Maybe lo hi none = Unit {0}
Maybe lo hi (some xs) = Between lo hi xs

describe-Between :
    (lo hi seq : ℕ) (text : Text) (xs : List Slot)
    → Between lo hi xs
    → Maybe lo hi (describe seq text xs)
unfolding describe
describe-Between lo hi seq text [] b = tt
describe-Between lo hi seq text (x ∷ xs) b =
    let ih = describe-Between x.sequence hi seq text xs b.2 in
    elim (Bool-cases (x.sequence == seq && (x.staged && text_eq x.message.role (codes "user")))) [
      | inl here ↦ rw here (b.0, b.1, b.2)
      | inr other ↦ elim (Option-cases (describe seq text xs)) [
        | inl none_left ↦ rw (other, none_left) tt
        | inr (ys, e) ↦ rw (other, e) (b.0, b.1, (rw e at ih))
      ]
    ]

describe_state-Ordered :
    (o : Option (List Slot)) (s : GroupState)
    → Maybe 0 s.sequence o
    → Ordered s
    → Ordered
        (elim o as (λ _. GroupState × Bool) [
          | none ↦ (s, false)
          | some buffer ↦ (record s { buffer = buffer }, true)
        ]).0
describe_state-Ordered none s b v = v
describe_state-Ordered (some xs) s b v = record { rising = b }

picture-Ordered :
    (text : Text) (g : Guard) (s : GroupState)
    → Ordered s
    → Ordered (set_image_description text g s).0
unfolding set_image_description
picture-Ordered text g s v =
    elim (Bool-cases (guard_sequence g == 0 || (is_empty text || g.finalized))) [
      | inl stop ↦ rw stop v
      | inr go ↦ rw go (
          describe_state-Ordered (describe (guard_sequence g) text s.buffer) s
            (describe-Between 0 s.sequence (guard_sequence g) text s.buffer v.rising) v)
    ]

commit_snapshot-Ordered :
    (now : ℕ) (snap : Snapshot) (summary : Text) (s : GroupState)
    → Ordered s
    → Ordered (commit_snapshot now snap summary s)
unfolding commit_snapshot
commit_snapshot-Ordered now snap summary s v = record {
  rising = after_sequence-Between 0 s.sequence snap.through s.buffer v.rising;
}

commit-Ordered :
    (now : ℕ) (snap : Snapshot) (summary : Text) (persist : Option Persisted) (s : GroupState)
    → Ordered s
    → Ordered (commit_with_persistence now snap summary persist s).0
unfolding commit_with_persistence
commit-Ordered now snap summary persist s v =
    let t = commit_snapshot-Ordered now snap (trim_space summary) s v in
    ground (arith, v.rising, t.rising)

drop-Ordered :
    (now : ℕ) (store : Option (Text → Option Text)) (seq : ℕ) (id : Text) (s : GroupState)
    → Ordered s
    → Ordered (drop_slot_checked now store seq id s).0
unfolding drop_slot_checked drop_state
drop-Ordered now store seq id s v =
    let left =
      keep-Between 0 s.sequence (λ item. not (drops seq (trim_space id) item)) s.buffer v.rising in
    ground (arith, v.rising, left)

begin-Ordered :
    (snap : Snapshot) (s : GroupState) → Ordered s → Ordered (begin_distillation snap s).0
unfolding begin_distillation
begin-Ordered snap s v = ground (arith, v.rising)

pub quiet_step-Ordered :
    (now : ℕ) (q : Quiet) (s : GroupState)
    → s.sequence + 1 < u64_mod
    → Ordered s
    → Ordered (quiet_step now q s)
unfolding quiet_step append_internal
quiet_step-Ordered now (append item staged max ids) s h v =
    append_resolved-Ordered (resolve item ids) now staged (buffer_limit max) s h v
quiet_step-Ordered now (promote seq id) s h v = promote_slot-Ordered now seq id s v
quiet_step-Ordered now (picture text g) s h v = picture-Ordered text g s v
quiet_step-Ordered now (commit snap summary persist) s h v =
    commit-Ordered now snap summary persist s v
quiet_step-Ordered now (set_summary summary) s h v =
    unfold set_running_summary in record { rising = v.rising }
quiet_step-Ordered now (begin snap) s h v = begin-Ordered snap s v
quiet_step-Ordered now (cleanup id snap) s h v =
    unfold cleanup_distillation in record { rising = v.rising }

pub step-Ordered :
    (now : ℕ) (c : Call) (s : GroupState)
    → s.sequence + 1 < u64_mod
    → Ordered s
    → Ordered (step now c s)
unfolding step
step-Ordered now (quiet q) s h v = quiet_step-Ordered now q s h v
step-Ordered now (drop_message store seq id) s h v = drop-Ordered now store seq id s v
step-Ordered now reset_compact s h v = unfold reset_group_compact in record { rising = tt }
step-Ordered now reset_session s h v = unfold reset_session_group in record { rising = tt }
step-Ordered now clear s h v = unfold clear_group in record { rising = tt }
