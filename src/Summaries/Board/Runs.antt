-- ===== src/Summaries/Board/Runs.antt =====
-- Rows of calls of the summary store, and what is read after them.
use frost_agent.Prelude.{
  refl, inr, ℕ, ◌≡◌, ◌⊎◌, Bool, none, List, [], ◌∷◌, arith, All, All-keep, map,
}
use frost_agent.Text.{Text, trim_space}
use frost_agent.Text.Maps.{put, remove, remove_all}
use frost_agent.Summaries.Ids.{canonical_session_id, session_id_aliases}
use frost_agent.Summaries.Ids.Agreement.{canonical_session_id_idem}
use frost_agent.Summaries.{
  Summary, Records, Failure, Store, replaced, upsert, delete_summary, take_in, load_records,
  open_store,
}
use frost_agent.Summaries.Board.{Board, view, Request, write, erase, Step, Surroundings, serve}
use frost_agent.Summaries.Board.Changes.{names}
use frost_agent.Summaries.Board.Refinement.{upsert_refines, delete_refines}

pub data Steps : Board → List Request → List (Failure ⊎ Bool) → Board → Type 0 where
  over : {b : Board} → Steps b [] [] b
  next :
      {b c d : Board} {r : Request} {rs : List Request} {a : Failure ⊎ Bool}
      {answers : List (Failure ⊎ Bool)}
      → Step b r a c
      → Steps c rs answers d
      → Steps b (r ∷ rs) (a ∷ answers) d

unfoldable pub serve_all : List (Surroundings × Request) → Store → Store × List (Failure ⊎ Bool)
unfolding serve
serve_all [] s = (s, [])
serve_all (c ∷ cs) s =
    let (t, a) = serve c.0 c.1 s in let (u, rest) = serve_all cs t in (u, a ∷ rest)

serve_refines :
    (w : Surroundings) (r : Request) (s : Store)
    → let (t, a) = serve w r s in Step (view s) r a (view t)
unfolding serve
serve_refines w (write id text epoch) s = upsert_refines w s id text epoch
serve_refines w (erase id) s = delete_refines w s id

pub serve_all_refines :
    (cs : List (Surroundings × Request)) (s : Store)
    → let (t, answers) = serve_all cs s in Steps (view s) (map (λ c. c.1) cs) answers (view t)
unfolding serve_all
serve_all_refines [] s = over
serve_all_refines (c ∷ cs) s =
    next (serve_refines c.0 c.1 s) (serve_all_refines cs (serve c.0 c.1 s).0)

-- A store that reads and writes, whose records stand under canonical ids.
pub record Open (s : Store) : Type 0 where
  pub free : s.blocked ≡ none
  pub canonical : All (λ e. canonical_session_id e.0 ≡ e.0) s.records

abbrev Canonical : Records → Type 0
Canonical records = All (λ e. canonical_session_id e.0 ≡ e.0) records

Canonical-put :
    (k : Text) (r : Summary) (records : Records)
    → canonical_session_id k ≡ k
    → Canonical records
    → Canonical (put k r records)
unfolding put remove
Canonical-put k r records h v = (h, All-keep _ _ records v)

Canonical-remove_all :
    (ks : List Text) (records : Records) → Canonical records → Canonical (remove_all ks records)
unfolding remove_all remove
Canonical-remove_all [] records v = v
Canonical-remove_all (k ∷ ks) records v =
    Canonical-remove_all ks (remove k records) (All-keep _ _ records v)

pub replaced-Canonical :
    (now : ℕ) (sid text : Text) (records : Records)
    → Canonical records
    → Canonical (replaced now sid text records)
unfolding replaced
replaced-Canonical now sid text records v =
    Canonical-put (canonical_session_id sid) _ _ (canonical_session_id_idem sid)
      (Canonical-remove_all (session_id_aliases sid) records v)

upsert-Open :
    (w : Surroundings) (id text : Text) (epoch : ℕ) (s : Store)
    → Open s
    → Open (upsert w.now w.save s id text epoch).0
unfolding upsert
upsert-Open w id text epoch s v = record {
  free = ground (arith, v.free);
  canonical = ground (
    arith,
    v.canonical,
    replaced-Canonical w.now (trim_space id) (trim_space text) s.records v.canonical,
  );
}

delete-Open :
    (w : Surroundings) (id : Text) (s : Store) → Open s → Open (delete_summary w.save s id).0
unfolding delete_summary
delete-Open w id s v = record {
  free = ground (arith, v.free);
  canonical =
      ground
        (arith, v.canonical, Canonical-remove_all (names (trim_space id)) s.records v.canonical);
}

serve-Open : (w : Surroundings) (r : Request) (s : Store) → Open s → Open (serve w r s).0
unfolding serve
serve-Open w (write id text epoch) s v = upsert-Open w id text epoch s v
serve-Open w (erase id) s v = delete-Open w id s v

pub serve_all-Open :
    (cs : List (Surroundings × Request)) (s : Store) → Open s → Open (serve_all cs s).0
unfolding serve_all
serve_all-Open [] s v = v
serve_all-Open (c ∷ cs) s v = serve_all-Open cs (serve c.0 c.1 s).0 (serve-Open c.0 c.1 s v)

take_in-Canonical :
    (r : Summary) (records : Records) → Canonical records → Canonical (take_in r records)
unfolding take_in
take_in-Canonical r records v =
    let key = canonical_session_id (trim_space r.session_id) in
    ground (
      arith,
      v,
      Canonical-put key (record r { session_id = key; summary = trim_space r.summary }) records
          (canonical_session_id_idem (trim_space r.session_id)) v,
    )

load_records-Canonical :
    (rows : List Summary) (records : Records)
    → Canonical records
    → Canonical (load_records rows records)
unfolding load_records
load_records-Canonical [] records v = v
load_records-Canonical (r ∷ rows) records v =
    load_records-Canonical rows (take_in r records) (take_in-Canonical r records v)

pub open_store-Open : (rows : List Summary) → Open (open_store (inr rows))
unfolding open_store
open_store-Open rows = record { free = refl; canonical = load_records-Canonical rows [] tt }
