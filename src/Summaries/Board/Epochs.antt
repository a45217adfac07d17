-- ===== src/Summaries/Board/Epochs.antt =====
-- The deletion epochs of the summary store.
use frost_agent.Prelude.{
  ℕ, suc, ◌+◌, ◌<◌, ◌≡◌, ◌≢◌, refl, sym, ◌∙◌, ap, ◌⊎◌, inl, inr, Bool, false, not, ◌&&◌, List, [],
  ◌∷◌, arith, map, u64, u64_mod, if◌then◌else◌, Bool-cases, ◌==◌,
}
use frost_agent.Text.{Text, is_empty, trim_space}
use frost_agent.Text.Maps.{find}
use frost_agent.Summaries.Ids.{canonical_session_id}
use frost_agent.Summaries.Ids.Agreement.{canonical_session_id-trim}
use frost_agent.Summaries.{Summary, Failure, Store, generation, generation_at, upsert, open_store}
use frost_agent.Summaries.Board.{
  Board, view, same_group, Request, write, erase, Step, written, stale, refused, erased, kept,
  blank, Surroundings,
}
use frost_agent.Summaries.Board.Runs.{Steps, over, next, serve_all, serve_all_refines}

-- Whether a call deletes the summary of a group, as far as it is up to the store.
abbrev erases : Text → Request → Bool
erases k (write id text epoch) = false
erases k (erase id) = not (is_empty (trim_space id)) && same_group k id

-- How often the summary of a group is deleted in a row of calls.
abbrev pub erasures : Text → List Request → ℕ
erasures k [] = 0
erasures k (r ∷ rs) = (if erases k r then 1 else 0) + erasures k rs

Step-epoch :
    {b c : Board} {r : Request} {a : Failure ⊎ Bool}
    → Step b r a c
    → (k : Text) → (c k).epoch ≡ (if erases k r then u64 (suc (b k).epoch) else (b k).epoch)
Step-epoch (written given h e) k = ground (arith, ap (λ x. x.epoch) (e k))
Step-epoch (stale h) k = refl
Step-epoch refused k = refl
Step-epoch (erased given e) k = ground (arith, given, ap (λ x. x.epoch) (e k))
Step-epoch (kept given e) k = ground (arith, given, ap (λ x. x.epoch) (e k))
Step-epoch (blank empty) k = rw empty refl

u64_step : (e n : ℕ) → u64 (u64 (suc e) + n) ≡ u64 (e + (1 + n))
u64_step e n = omega arith

u64_lt : (e : ℕ) → u64 e < u64_mod
u64_lt e = omega arith

u64_moved : (e n : ℕ) → e < u64_mod → 0 < n → n < u64_mod → u64 (e + n) ≢ e
u64_moved e n small pos few h = omega (arith, h)

Steps-epoch :
    {b c : Board} {rs : List Request} {answers : List (Failure ⊎ Bool)}
    → Steps b rs answers c
    → (k : Text) → (b k).epoch < u64_mod
    → (c k).epoch ≡ u64 ((b k).epoch + erasures k rs)
Steps-epoch over k small = omega (arith, small)
Steps-epoch {b} {c} (next {c = d} {r = r} {rs = rs} step rest) k small =
    elim (Bool-cases (erases k r)) [
      | inl hit ↦
          let e : (d k).epoch ≡ u64 (suc (b k).epoch) = rw hit at (Step-epoch step k) in
          rw hit (
            Steps-epoch rest k (rw e (u64_lt (suc (b k).epoch)))
            ∙ rw e (u64_step (b k).epoch (erasures k rs)))
      | inr miss ↦
          let e : (d k).epoch ≡ (b k).epoch = rw miss at (Step-epoch step k) in
          rw miss (Steps-epoch rest k (rw e small) ∙ omega (arith, e))
    ]

opened-epoch : (file : Failure ⊎ List Summary) (k : Text) → (view (open_store file) k).epoch ≡ 0
unfolding view generation generation_at find open_store
opened-epoch (inl e) k = refl
opened-epoch (inr rows) k = refl

-- In every state that a row of calls leads to the epochs fit in a uint64.
served-epoch-lt :
    (file : Failure ⊎ List Summary) (cs : List (Surroundings × Request)) (k : Text)
    → (view (serve_all cs (open_store file)).0 k).epoch < u64_mod
served-epoch-lt file cs k =
    let start = opened-epoch file k in
    let e = Steps-epoch (serve_all_refines cs (open_store file)) k (omega (arith, start)) in
    rw e (u64_lt ((view (open_store file) k).epoch + erasures k (map (λ c. c.1) cs)))

-- Upsert with an epoch that is not the group's own.
upsert-stale :
    (w : Surroundings) (s : Store) (id text : Text) (epoch : ℕ)
    → is_empty (trim_space id) ≡ false
    → is_empty (trim_space text) ≡ false
    → (view s id).epoch ≢ epoch
    → upsert w.now w.save s id text epoch ≡ (s, inr false)
unfolding upsert view generation
upsert-stale w s id text epoch given full old =
    let own : generation_at (canonical_session_id (trim_space id)) s.generations
        ≡ (view s id).epoch =
      ap (λ c. generation_at c s.generations) (canonical_session_id-trim id) in
    let differ : (generation_at (canonical_session_id (trim_space id)) s.generations == epoch)
        ≡ false =
      ground (arith, own, old) in
    rw (given, full, differ) refl

-- However the store was opened and whatever calls it has had: once a group's summary has been
-- deleted under any of the group's names, an Upsert with the epoch that Generation gave before, for
-- an id and a summary that are not blank, answers false and changes nothing, whatever Upserts and
-- (fewer than 2^64) Deletes came between and whether or not they reached the disk.
pub overtaken_write :
    (file : Failure ⊎ List Summary) (earlier between : List (Surroundings × Request))
    (w : Surroundings) (id text : Text)
    → is_empty (trim_space id) ≡ false
    → is_empty (trim_space text) ≡ false
    → 0 < erasures id (map (λ c. c.1) between)
    → erasures id (map (λ c. c.1) between) < u64_mod
    → let s = (serve_all earlier (open_store file)).0 in
      let t = (serve_all between s).0 in
      upsert w.now w.save t id text (generation s id) ≡ (t, inr false)
unfolding view generation
overtaken_write file earlier between w id text given full some_deleted few =
    let s = (serve_all earlier (open_store file)).0 in
    let t = (serve_all between s).0 in
    let small = served-epoch-lt file earlier id in
    let e = Steps-epoch (serve_all_refines between s) id small in
    upsert-stale w t id text (generation s id) given full (λ h.
      u64_moved (view s id).epoch (erasures id (map (λ c. c.1) between)) small some_deleted few
        (sym e ∙ h))
