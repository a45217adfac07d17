-- ===== src/Persistence/Log/Kept.antt =====
-- No summary that was queued leaves the queue before the store has answered for it.
use frost_agent.Prelude.{
  some_injective, ℕ, ◌+◌, ◌≡◌, refl, sym, ◌∙◌, subst, ◌⊎◌, inl, inr, Bool, true, false, none, some,
  ◌∷◌, arith, lookup, All-keep, All-map, Bool-cases, Option-cases, if-case,
}
use frost_agent.Text.{Text, is_empty, trim_space}
use frost_agent.Summaries.{Failure, Store, generation, upsert}
use frost_agent.Persistence.{
  Pending, head, holding, failed, stored, sleeping, leaving, Persistence, World, fresh_record,
  same_record, launch, queue, roll_back_to, move_to, look, put_record, count_retry, settle_record,
  wake_up, leave_off,
}
use frost_agent.Persistence.Log.{
  Key, key_of_record, Log, note, Recorded, rolled, Step, queues, rolls_back, looks, puts, fails,
  settles, wakes, leaves, cancels, elsewhere, Reach, begin, later,
}
use frost_agent.Persistence.Log.Tracked.{
  Held, Kept, All-adjust, All-lookup, Recorded-head, Held-cons, same_record-key, note-Kept,
  move-Kept, launch-Kept, queued-Kept, again-Kept, retried-Kept, cleared-Kept, if-Kept,
}

queue-Kept :
    (p : Persistence) (g : Log) (summary : Text) (gen : ℕ)
    → Kept p g
    → Kept (queue summary gen p) (record g { last = some (summary, gen) })
unfolding queue
queue-Kept p g summary gen v =
    let q = queued-Kept p g summary gen v in
    if-case (λ k. Kept k (record g { last = some (summary, gen) })) p.active _ _ q
      (launch-Kept (record p { pending = some (fresh_record summary gen) })
        (record g { last = some (summary, gen) }) q)

-- The Upsert of RollbackPersistence has answered.
answered-Kept :
    (answer : Failure ⊎ Bool) (p : Persistence) (g : Log) (summary : Text) (gen : ℕ) (store : Store)
    → Kept p g
    → Kept
        (elim answer as (λ a. Persistence) [
          | inr applied ↦ record p { pending = none; store = store }
          | inl e ↦ launch (record p { pending = some (fresh_record summary gen); store = store })
        ])
        (note answer (summary, gen) (record g { last = some (summary, gen) }))
answered-Kept (inr applied) p g summary gen store v =
    cleared-Kept p (record p { pending = none; store = store }) _ refl
      (λ k f.
        subst (λ j. Recorded j ((summary, gen) ∷ g.answered)) (some_injective f)
          (Recorded-head (summary, gen) g.answered))
      (All-map (λ e. Held-cons (summary, gen) g.answered e.1) p.workers v.held)
answered-Kept (inl e) p g summary gen store v =
    let q = queued-Kept p g summary gen v in
    launch-Kept (record p { pending = some (fresh_record summary gen); store = store })
      (record g { last = some (summary, gen) })
      (record { covered = q.covered; fresh = q.fresh; held = q.held })

roll_back-Kept :
    (w : World) (owner clean : Text) (p : Persistence) (g : Log)
    → Kept p g
    → Kept (roll_back_to w owner clean p) (rolled w owner clean p g)
unfolding roll_back_to
roll_back-Kept w owner clean p g v =
    let text = trim_space clean in
    let gen = generation p.store owner in
    let (store, answer) = upsert w.now w.save p.store owner text gen in
    if-Kept (is_empty text) _ _ _ _
      (cleared-Kept p _ _ refl (λ k f. absurd (ground (arith, f))) v.held)
      (if-Kept p.active _ _ _ _ (queued-Kept p g text gen v)
        (answered-Kept answer p g text gen store v))

settle-Kept :
    (i : ℕ) (r : Pending) (p : Persistence) (g : Log)
    → lookup i p.workers ≡ some (stored r)
    → Kept p g
    → Kept (settle_record i r p) g
unfolding settle_record
settle-Kept i r p g e v =
    let taken = All-lookup (Held g.answered) i (stored r) p.workers v.held e in
    let moved = All-adjust (Held g.answered) i head p.workers tt v.held in
    elim (Option-cases p.pending) [
      | inl nothing ↦ rw (settle_record, nothing) (again-Kept p _ g (sym nothing) moved v)
      | inr (cur, there) ↦ elim (Bool-cases (same_record cur r)) [
        | inr other ↦ rw (settle_record, there, other) (again-Kept p _ g (sym there) moved v)
        | inl same ↦
            rw (settle_record, there, same)
              (cleared-Kept p _ g refl
                (λ k f.
                  let is =
                    some_injective (sym f ∙ v.fresh cur there) ∙ same_record-key cur r same in
                  subst (λ j. Recorded j g.answered) (sym is) taken)
                moved)
      ]
    ]

count-Kept :
    (i : ℕ) (r : Pending) (p : Persistence) (g : Log) → Kept p g → Kept (count_retry i r p) g
unfolding count_retry
count-Kept i r p g v =
    let gone = All-adjust (Held g.answered) i leaving p.workers tt v.held in
    let asleep = All-adjust (Held g.answered) i sleeping p.workers tt v.held in
    elim (Option-cases p.pending) [
      | inl nothing ↦ rw (count_retry, nothing) (again-Kept p _ g refl gone v)
      | inr (cur, there) ↦ elim (Bool-cases (same_record cur r)) [
        | inr other ↦ rw (count_retry, there, other) (again-Kept p _ g (sym there) asleep v)
        | inl same ↦
            rw (count_retry, there, same)
              (retried-Kept p _ g cur (record cur { retries = cur.retries + 1 }) there refl refl
                asleep v)
      ]
    ]

look-Kept : (i : ℕ) (p : Persistence) (g : Log) → Kept p g → Kept (look i p) g
unfolding look
look-Kept i p g v =
    let gone = move-Kept p g i leaving tt v in
    if-case (λ k. Kept k g) p.canceled _ _ gone
      (elim (Option-cases p.pending) [
        | inl nothing ↦ rw nothing gone
        | inr (r, there) ↦ rw there (move-Kept p g i (holding r) tt v)
      ])

leave-Kept : (i : ℕ) (p : Persistence) (g : Log) → Kept p g → Kept (leave_off i p) g
unfolding leave_off
leave-Kept i p g v =
    again-Kept p _ g refl (All-keep (λ e. Held g.answered e.1) _ p.workers v.held) v

put-Kept :
    (answer : Failure ⊎ Bool) (i : ℕ) (r : Pending) (p : Persistence) (g : Log) (store : Store)
    → Kept p g
    → Kept
        (elim answer as (λ a. Persistence) [
          | inl e ↦ move_to i (failed r) (record p { store = store })
          | inr applied ↦ move_to i (stored r) (record p { store = store })
        ])
        (note answer (key_of_record r) g)
put-Kept (inl e) i r p g store v = again-Kept p _ g refl (move-Kept p g i (failed r) tt v).held v
put-Kept (inr applied) i r p g store v =
    let k = key_of_record r in
    let v' = note-Kept p g (inr applied) k v in
    again-Kept p _ _ refl (move-Kept p _ i (stored r) (Recorded-head k g.answered) v').held v'

Step-Kept :
    {owner : Text} {p q : Persistence} {g h : Log} → Kept p g → Step owner p g q h → Kept q h
unfolding put_record wake_up
Step-Kept {p = p} {g = g} v (queues summary gen) = queue-Kept p g summary gen v
Step-Kept {owner} {p} {g = g} v (rolls_back w clean) = roll_back-Kept w owner clean p g v
Step-Kept {p = p} {g = g} v (looks i e) = look-Kept i p g v
Step-Kept {owner} {p} {g = g} v (puts w i r e) =
    let (store, answer) = upsert w.now w.save p.store owner r.summary r.generation in
    put-Kept answer i r p g store v
Step-Kept {p = p} {g = g} v (fails i r e) = count-Kept i r p g v
Step-Kept {p = p} {g = g} v (settles i r e) = settle-Kept i r p g e v
Step-Kept {p = p} {g = g} v (wakes i true e) = move-Kept p g i leaving tt v
Step-Kept {p = p} {g = g} v (wakes i false e) = move-Kept p g i head tt v
Step-Kept {p = p} {g = g} v (leaves i e) = leave-Kept i p g v
Step-Kept {p = p} {g = g} v cancels = again-Kept p _ g refl v.held v
Step-Kept {p = p} {g = g} v (elsewhere store) = again-Kept p _ g refl v.held v

Reach-Kept : {owner : Text} {p : Persistence} {g : Log} → Reach owner p g → Kept p g
Reach-Kept (begin store) = record {
  covered = λ k e. absurd (ground (arith, e));
  fresh = λ q e. absurd (ground (arith, e));
  held = tt;
}
Reach-Kept (later r step) = Step-Kept (Reach-Kept r) step

-- In every state that the calls and the workers for one owner get to, in any order and with any
-- answers of the store: the summary that was queued or rolled back to last, unless a rollback to
-- nothing came after it, is still pending, or Upsert has answered without an error for a summary with
-- its text and epoch, be it that it stored the summary or that it discarded it as stale. Of equal
-- summaries it does not say which one this was, nor in which order two workers stored theirs.
pub queued_or_answered :
    {owner : Text} {p : Persistence} {g : Log}
    → Reach owner p g
    → (k : Key) → g.last ≡ some k
    → ((q : Pending) × (p.pending ≡ some q) × (key_of_record q ≡ k)) ⊎ Recorded k g.answered
queued_or_answered r k e = (Reach-Kept r).covered k e
