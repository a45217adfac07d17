-- ===== src/GroupCompact/Once.antt =====
-- The finalisation of a StagedGroupCompactGuard.
use frost_agent.Prelude.{
  ℕ, zero, suc, ◌<◌, ◌≡◌, refl, Bool, true, false, ◌&&◌, Option, List, [], ◌∷◌, arith, any, ◌==◌,
  All,
}
use frost_agent.Text.{Text, trim_space}
use frost_agent.GroupCompact.Buffer.{Slot, unstage}
use frost_agent.GroupCompact.State.{GroupState}
use frost_agent.GroupCompact.Ingest.{promotes, promote_slot}
use frost_agent.GroupCompact.Guard.{Guard, Finalized, promote_all, guard_promote, guard_drop}

-- The methods that settle a guard; Done is Promote.
pub data Settle : Type 0 where
  promotes_it : Settle
  drops_it : Option (Text → Option Text) → Settle

unfoldable pub settle : ℕ → Settle → Guard → GroupState → Finalized
settle now promotes_it g s = guard_promote now g s
settle now (drops_it store) g s = guard_drop now store g s

settle-finalized :
    (now : ℕ) (m : Settle) (g : Guard) (s : GroupState) → (settle now m g s).guard.finalized ≡ true
unfolding settle
settle-finalized now promotes_it g s = unfold guard_promote in ground arith
settle-finalized now (drops_it store) g s = unfold guard_drop in ground arith

settle-again :
    (now : ℕ) (m : Settle) (g : Guard) (s : GroupState)
    → g.finalized ≡ true
    → settle now m g s ≡ record { guard = g; state = s; hit = false; notified = false; errors = [] }
unfolding settle
settle-again now promotes_it g s h = unfold guard_promote in ground arith
settle-again now (drops_it store) g s h = unfold guard_drop in ground arith

-- Whichever of Promote, Done and Drop comes first settles the guard. Any of them that comes later
-- changes nothing, whatever has happened to the session between the two, and calls nobody.
pub settles_once :
    (now later : ℕ) (m n : Settle) (g : Guard) (s t : GroupState)
    → let r = settle now m g s in
      settle later n r.guard t
      ≡ record { guard = r.guard; state = t; hit = false; notified = false; errors = [] }
settles_once now later m n g s t =
    settle-again later n (settle now m g s).guard t (settle-finalized now m g s)

-- Whether a slot with the number still waits for its guard.
abbrev pub holds_back : ℕ → Slot → Bool
holds_back seq item = item.staged && item.sequence == seq

unstage-clears :
    (seq : ℕ) (id : Text) (xs : List Slot)
    → any (holds_back (suc seq)) (unstage (promotes (suc seq) id) xs) ≡ false
unfolding unstage promotes
unstage-clears seq id [] = refl
unstage-clears seq id (x ∷ xs) = ground (arith, unstage-clears seq id xs)

unstage-keeps :
    (k seq : ℕ) (id : Text) (xs : List Slot)
    → any (holds_back k) xs ≡ false
    → any (holds_back k) (unstage (promotes (suc seq) id) xs) ≡ false
unfolding unstage promotes
unstage-keeps k seq id [] h = refl
unstage-keeps k seq id (x ∷ xs) h = ground (arith, unstage-keeps k seq id xs)

promote_slot-clears :
    (now seq : ℕ) (id : Text) (s : GroupState)
    → any (holds_back (suc seq)) (promote_slot now (suc seq) id s).0.buffer ≡ false
unfolding promote_slot promotes
promote_slot-clears now seq id s = ground (arith, unstage-clears seq (trim_space id) s.buffer)

promote_slot-keeps :
    (k now seq : ℕ) (id : Text) (s : GroupState)
    → any (holds_back k) s.buffer ≡ false
    → any (holds_back k) (promote_slot now (suc seq) id s).0.buffer ≡ false
unfolding promote_slot promotes
promote_slot-keeps k now seq id s h = ground (arith, unstage-keeps k seq (trim_space id) s.buffer h)

promote_all-keeps :
    (k now : ℕ) (id : Text) (seqs : List ℕ) (s : GroupState)
    → All (λ n. 0 < n) seqs
    → any (holds_back k) s.buffer ≡ false
    → any (holds_back k) (promote_all now id seqs s).0.buffer ≡ false
unfolding promote_all
promote_all-keeps k now id [] s p h = h
promote_all-keeps k now id (zero ∷ seqs) s p h = absurd (omega arith)
promote_all-keeps k now id (suc seq ∷ seqs) s p h =
    promote_all-keeps k now id seqs (promote_slot now (suc seq) id s).0 p.1
      (promote_slot-keeps k now seq id s h)

promote_all-clears :
    (now : ℕ) (id : Text) (seqs : List ℕ) (s : GroupState)
    → All (λ n. 0 < n) seqs
    → All (λ k. any (holds_back k) (promote_all now id seqs s).0.buffer ≡ false) seqs
unfolding promote_all
promote_all-clears now id [] s p = tt
promote_all-clears now id (zero ∷ seqs) s p = absurd (omega arith)
promote_all-clears now id (suc seq ∷ seqs) s p =
    let s1 = (promote_slot now (suc seq) id s).0 in
    (
      promote_all-keeps (suc seq) now id seqs s1 p.1 (promote_slot-clears now seq id s),
      promote_all-clears now id seqs s1 p.1,
    )

promote_fresh :
    (now : ℕ) (g : Guard) (s : GroupState)
    → g.finalized ≡ false
    → ((guard_promote now g s).state ≡ (promote_all now g.message_id g.sequences s).0)
      × ((guard_promote now g s).notified ≡ true)
unfolding guard_promote
promote_fresh now g s fresh = ground arith

-- Promote, and so Done, of a guard that is not settled yet and whose slots have positive numbers
-- leaves none of the guard's slots staged, so that none of them holds a snapshot back, and calls
-- onPromote.
pub promote_releases :
    (now : ℕ) (g : Guard) (s : GroupState)
    → g.finalized ≡ false
    → All (λ n. 0 < n) g.sequences
    → let r = settle now promotes_it g s in
      All (λ k. any (holds_back k) r.state.buffer ≡ false) g.sequences × (r.notified ≡ true)
unfolding settle
promote_releases now g s fresh positive =
    let (state, notified) = promote_fresh now g s fresh in
    (rw state (promote_all-clears now g.message_id g.sequences s positive), notified)
