-- ===== src/GroupCompact/Refusal.antt =====
-- Revoked messages and the batches that hold them.
use frost_agent.Prelude.{
  ℕ, ◌≡◌, refl, ◌∙◌, inl, inr, Bool, true, false, not, ◌||◌, some, List, [], ◌∷◌, arith, keep,
  Bool-cases, any, ◌==◌, lookup, ==_iff,
}
use frost_agent.Text.{Text, text_eq, text_eq_refl, text_eq_iff, contains}
use frost_agent.Barrier.{is_writing}
use frost_agent.Barrier.Distillation.{try_begin_commit}
use frost_agent.GroupCompact.State.{GroupState, Snapshot, Distillation}
use frost_agent.GroupCompact.Compact.{
  commit_with_persistence, commit_snapshot, abort_and_wait, abort_ids, set_running_summary,
}
use frost_agent.GroupCompact.Distill.{refuses, is_refused, begin_distillation, cleanup_distillation}
use frost_agent.GroupCompact.Ingest.{append_internal, append_resolved, push_message, promote_slot}
use frost_agent.GroupCompact.Guard.{set_image_description}
use frost_agent.GroupCompact.Ops.{
  Quiet, append, promote, picture, commit, set_summary, begin, cleanup, quiet_step, quiet_run,
}

-- A test that some entry of the rest passes finds nothing there.
pub any-keep-not {ℓ} :
    {A : Type ℓ} (p : A → Bool) (xs : List A) → any p (keep (λ x. not (p x)) xs) ≡ false
any-keep-not p [] = refl
any-keep-not p (x ∷ xs) = ground (arith, any-keep-not p xs)

-- A number that is in a list and passes a test is among those that pass.
pub any-keep_number :
    (k : ℕ) (p : ℕ → Bool) (ks : List ℕ)
    → any (λ j. j == k) ks ≡ true
    → p k ≡ true
    → any (λ j. j == k) (keep p ks) ≡ true
any-keep_number k p [] h e = ground arith
any-keep_number k p (j ∷ js) h e = elim (Bool-cases (j == k)) [
  | inl same ↦ rw ((==_iff j k).0 same, e, (==_iff k k).1 refl)
  | inr other ↦ elim (Bool-cases (p j)) [
    | inl e' ↦ rw (e', other) (any-keep_number k p js (rw other at h) e)
    | inr e' ↦ rw e' (any-keep_number k p js (rw other at h) e)
  ]
]

pub lookup-abort_ids :
    (k : ℕ) (ids : List ℕ) (m : List (ℕ × Distillation)) (d : Distillation)
    → any (λ j. j == k) ids ≡ true
    → lookup k m ≡ some d
    → lookup k (abort_ids ids m) ≡ some (abort_and_wait d)
unfolding abort_ids
lookup-abort_ids k ids [] d h e = cc
lookup-abort_ids k ids ((j, c) ∷ m) d h e = elim (Bool-cases (j == k)) [
  | inl same ↦ let hit = rw same at e in rw ((==_iff j k).0 same, (==_iff k k).1 refl, h) (cc hit)
  | inr other ↦ rw other (lookup-abort_ids k ids m d h (rw other at e))
]

-- No write begins under an aborted barrier, and none is under way.
pub abort_and_wait-dead :
    (d : Distillation)
    → ((try_begin_commit (abort_and_wait d).barrier).1 ≡ false)
      × (is_writing (abort_and_wait d).barrier.state ≡ false)
unfolding abort_and_wait try_begin_commit
abort_and_wait-dead d = ground arith

pub contains-cons : (id : Text) (ids : List Text) → contains (id ∷ ids) id ≡ true
unfolding contains
contains-cons id ids = rw (text_eq_refl id)

contains-head :
    (i : Text) (ids : List Text) (id : Text)
    → contains (i ∷ ids) id ≡ (text_eq i id || contains ids id)
unfolding contains
contains-head i ids id = refl

contains-nil : (id : Text) → contains [] id ≡ false
unfolding contains
contains-nil id = refl

any-contains :
    (revoked : List Text) (id : Text) (ids : List Text)
    → contains revoked id ≡ true
    → contains ids id ≡ true
    → any (λ i. contains revoked i) ids ≡ true
any-contains revoked id [] h k = cc (contains-nil id)
any-contains revoked id (i ∷ ids) h k = elim (Bool-cases (text_eq i id)) [
  | inl same ↦ rw ((text_eq_iff i id).0 same, h)
  | inr other ↦ ground (arith, any-contains revoked id ids, contains-head i ids id)
]

-- A snapshot that holds a revoked message is refused.
pub refused_of_revoked :
    (id : Text) (snap : Snapshot) (s : GroupState)
    → contains s.revoked id ≡ true
    → contains snap.message_ids id ≡ true
    → is_refused snap s ≡ true
unfolding is_refused refuses
refused_of_revoked id snap s h k = ground (arith, any-contains s.revoked id snap.message_ids h k)

quiet_step-revoked :
    (now : ℕ) (q : Quiet) (s : GroupState) → (quiet_step now q s).revoked ≡ s.revoked
unfolding quiet_step
quiet_step-revoked now (append item staged max ids) s =
    unfold append_internal append_resolved push_message in ground arith
quiet_step-revoked now (promote seq id) s = unfold promote_slot in ground arith
quiet_step-revoked now (picture text g) s = unfold set_image_description in ground arith
quiet_step-revoked now (commit snap summary persist) s =
    unfold commit_with_persistence commit_snapshot in ground arith
quiet_step-revoked now (set_summary summary) s = unfold set_running_summary in refl
quiet_step-revoked now (begin snap) s = unfold begin_distillation in ground arith
quiet_step-revoked now (cleanup id snap) s = unfold cleanup_distillation in refl

pub quiet_run-revoked :
    (qs : List (ℕ × Quiet)) (s : GroupState) → (quiet_run qs s).revoked ≡ s.revoked
unfolding quiet_run
quiet_run-revoked [] s = refl
quiet_run-revoked ((now, q) ∷ qs) s =
    quiet_run-revoked qs (quiet_step now q s) ∙ quiet_step-revoked now q s
