-- ===== src/GroupCompact/Distill.antt =====
-- internal/llm/session.go: BeginGroupDistillation and the cleanup that it returns.
use frost_agent.Prelude.{
  ℕ, ◌+◌, Bool, true, false, ◌||◌, not, Option, none, some, List, [], ◌∷◌, u64, ◌==◌, if◌then◌else◌,
  any, keep, lookup, delete,
}
use frost_agent.Text.{Text, contains, text_eq}
use frost_agent.Barrier.{Barrier, aborted, fresh_barrier}
use frost_agent.Barrier.Distillation.{end_commit}
use frost_agent.GroupCompact.State.{GroupState, Snapshot, Source, Distillation}

-- Both lists have a head, and the heads are not the same.
heads_differ : List Text → List Text → Bool
heads_differ [] ids = false
heads_differ (a ∷ rest) [] = false
heads_differ (a ∷ rest) (b ∷ bs) = not (text_eq a b)

unfoldable pub refuses : Option Source → Snapshot → List Text → Bool
unfolding heads_differ
refuses none snap revoked = true
refuses (some source) snap revoked =
    heads_differ source.message_ids snap.message_ids
    || any (λ id. contains revoked id) snap.message_ids

-- The tests that refuse a snapshot.
unfoldable pub is_refused : Snapshot → GroupState → Bool
unfolding refuses
is_refused snap s = refuses (lookup snap.through s.sources) snap s.revoked

-- The barrier that comes with a refusal.
abbrev pub dead_barrier : Barrier
dead_barrier = record {
  state = aborted;
  is_aborted = true;
  ctx_done = true;
  channel = 0;
  done_closed = true;
}

-- BeginGroupDistillation: the id of the registered barrier, or `none` with a refusal.
unfoldable pub begin_distillation : Snapshot → GroupState → GroupState × (Option ℕ × Barrier)
begin_distillation snap s =
    let id = u64 (s.next_distill + 1) in
    if is_refused snap s then (s, (none, dead_barrier)) else (
      record s {
        next_distill = id;
        distillations = (id, record { snapshot = snap; barrier = fresh_barrier }) ∷ s.distillations;
        registered = id ∷ s.registered;
      },
      (some id, fresh_barrier),
    )

finish : ℕ → List (ℕ × Distillation) → List (ℕ × Distillation)
finish id [] = []
finish id ((k, d) ∷ rest) =
    let b = end_commit d.barrier in
    (k, if k == id then record d { barrier = record b { ctx_done = true } } else d) ∷ finish id rest

-- The first call of the cleanup.
unfoldable pub cleanup_distillation : ℕ → Snapshot → GroupState → GroupState
unfolding finish end_commit
cleanup_distillation id snap s = record s {
  distillations = finish id s.distillations;
  registered = keep (λ k. not (k == id)) s.registered;
  sources = delete snap.through s.sources;
}
