-- ===== src/Persistence/Log/Tracked.antt =====
-- What holds of the queue and the log together, and the changes that leave it so.
use frost_agent.Prelude.{
  some_injective, ℕ, ◌≡◌, refl, ap, sym, ◌∙◌, subst, ◌⊎◌, inl, inr, Bool, true, false, none, some,
  List, [], ◌∷◌, ◌==◌, ==_iff, if◌then◌else◌, arith, lookup, adjust, All, All-map, Bool-cases,
}
use frost_agent.Text.{Text, text_eq_iff, text_eq_refl}
use frost_agent.Summaries.{Failure}
use frost_agent.Persistence.{
  Pending, Place, head, holding, failed, stored, sleeping, leaving, Persistence, fresh_record,
  same_record, launch, move_to,
}
use frost_agent.Persistence.Log.{Key, key_of_record, Log, note, Recorded}

-- For what a worker counts as stored, Upsert has answered without an error.
abbrev pub Held : List Key → Place → Type 0
Held answered head = Unit {0}
Held answered (holding r) = Unit {0}
Held answered (failed r) = Unit {0}
Held answered (stored r) = Recorded (key_of_record r) answered
Held answered sleeping = Unit {0}
Held answered leaving = Unit {0}

pub record Kept (p : Persistence) (g : Log) : Type 0 where
  pub covered :
      (k : Key)
      → g.last ≡ some k
      → ((q : Pending) × (p.pending ≡ some q) × (key_of_record q ≡ k)) ⊎ Recorded k g.answered
  pub fresh : (q : Pending) → p.pending ≡ some q → g.last ≡ some (key_of_record q)
  pub held : All (λ e. Held g.answered e.1) p.workers

pub All-adjust :
    (P : Place → Type 0) (i : ℕ) (place : Place) (ws : List (ℕ × Place))
    → P place
    → All (λ e. P e.1) ws
    → All (λ e. P e.1) (adjust i (λ old. place) ws)
All-adjust P i place [] h v = tt
All-adjust P i place ((j, old) ∷ ws) h v = elim (Bool-cases (j == i)) [
  | inl hit ↦ rw hit (h, All-adjust P i place ws h v.1)
  | inr miss ↦ rw miss (v.0, All-adjust P i place ws h v.1)
]

pub All-lookup :
    (P : Place → Type 0) (i : ℕ) (place : Place) (ws : List (ℕ × Place))
    → All (λ e. P e.1) ws
    → lookup i ws ≡ some place
    → P place
All-lookup P i place [] v h = absurd (ground (arith, h))
All-lookup P i place ((j, old) ∷ ws) v h = elim (Bool-cases (j == i)) [
  | inl hit ↦ subst P (some_injective (rw hit at h)) v.0
  | inr miss ↦ All-lookup P i place ws v.1 (rw miss at h)
]

pub Recorded-cons : (k a : Key) (acc : List Key) → Recorded k acc → Recorded k (a ∷ acc)
Recorded-cons k a acc h = ground (arith, h)

pub Recorded-head : (k : Key) (acc : List Key) → Recorded k (k ∷ acc)
Recorded-head k acc = rw (text_eq_refl k.0) (ground arith)

pub Held-cons : (a : Key) (acc : List Key) (place : Place) → Held acc place → Held (a ∷ acc) place
Held-cons a acc head h = tt
Held-cons a acc (holding r) h = tt
Held-cons a acc (failed r) h = tt
Held-cons a acc (stored r) h = Recorded-cons (key_of_record r) a acc h
Held-cons a acc sleeping h = tt
Held-cons a acc leaving h = tt

pub same_record-key : (a b : Pending) → same_record a b ≡ true → key_of_record a ≡ key_of_record b
same_record-key a b h =
    let texts : a.summary ≡ b.summary = (text_eq_iff a.summary b.summary).0 (ground (arith, h)) in
    let gens : a.generation ≡ b.generation =
      (==_iff a.generation b.generation).0 (ground (arith, h)) in
    rw (texts, gens) refl

-- The log after a call of Upsert for `k`.
pub note-Kept :
    (p : Persistence) (g : Log) (answer : Failure ⊎ Bool) (k : Key)
    → Kept p g
    → Kept p (note answer k g)
note-Kept p g (inl e) k v = v
note-Kept p g (inr applied) k v = record {
  covered =
      λ j e. elim (v.covered j e) [ inl c ↦ inl c | inr c ↦ inr (Recorded-cons j k g.answered c) ];
  fresh = v.fresh;
  held = All-map (λ e. Held-cons k g.answered e.1) p.workers v.held;
}

pub move-Kept :
    (p : Persistence) (g : Log) (i : ℕ) (place : Place)
    → Held g.answered place
    → Kept p g
    → Kept (move_to i place p) g
move-Kept p g i place h v = record {
  covered = v.covered;
  fresh = v.fresh;
  held = All-adjust (Held g.answered) i place p.workers h v.held;
}

pub launch-Kept : (p : Persistence) (g : Log) → Kept p g → Kept (launch p) g
unfolding launch
launch-Kept p g v = elim (Bool-cases p.canceled) [
  | inl e ↦ rw (launch, e) (record { covered = v.covered; fresh = v.fresh; held = v.held })
  | inr e ↦ rw (launch, e) (record { covered = v.covered; fresh = v.fresh; held = (tt, v.held) })
]

-- A record that has just been queued.
pub queued-Kept :
    (p : Persistence) (g : Log) (summary : Text) (gen : ℕ)
    → Kept p g
    → Kept
        (record p { pending = some (fresh_record summary gen) })
        (record g { last = some (summary, gen) })
queued-Kept p g summary gen v = record {
  covered = λ k e. inl (fresh_record summary gen, refl, some_injective e);
  fresh = λ q e. ap (λ o. elim o [ none ↦ none | some r ↦ some (key_of_record r) ]) e;
  held = v.held;
}

-- A change that leaves the pending record, or counts its retries.
pub again-Kept :
    (p q : Persistence) (g : Log)
    → q.pending ≡ p.pending
    → All (λ e. Held g.answered e.1) q.workers
    → Kept p g
    → Kept q g
again-Kept p q g e held v = record {
  covered =
      λ k f. elim (v.covered k f) [ inl (r, there, is) ↦ inl (r, e ∙ there, is) | inr c ↦ inr c ];
  fresh = λ r f. v.fresh r (sym e ∙ f);
  held = held;
}

pub retried-Kept :
    (p q : Persistence) (g : Log) (cur cur' : Pending)
    → p.pending ≡ some cur
    → q.pending ≡ some cur'
    → key_of_record cur ≡ key_of_record cur'
    → All (λ e. Held g.answered e.1) q.workers
    → Kept p g
    → Kept q g
retried-Kept p q g cur cur' e e' same held v = record {
  covered = λ k f. elim (v.covered k f) [
    | inl (r, there, is) ↦
        let is_cur : r ≡ cur = some_injective (sym there ∙ e) in
        inl (cur', e', sym same ∙ ap key_of_record (sym is_cur) ∙ is)
    | inr c ↦ inr c
  ];
  fresh = λ r f.
      let is_cur : cur' ≡ r = some_injective (sym e' ∙ f) in
      v.fresh cur e ∙ ap some (same ∙ ap key_of_record is_cur);
  held = held;
}

-- The pending record is taken away: Upsert has answered for it, or it is not wanted any more.
pub cleared-Kept :
    (p q : Persistence) (g : Log)
    → q.pending ≡ none
    → ((k : Key) → g.last ≡ some k → Recorded k g.answered)
    → All (λ e. Held g.answered e.1) q.workers
    → Kept q g
cleared-Kept p q g e done held = record {
  covered = λ k f. inr (done k f);
  fresh = λ r f. absurd (ground (arith, e, f));
  held = held;
}

pub if-Kept :
    (b : Bool) (p q : Persistence) (g h : Log)
    → Kept p g
    → Kept q h
    → Kept (if b then p else q) (if b then g else h)
if-Kept true p q g h v w = v
if-Kept false p q g h v w = w
