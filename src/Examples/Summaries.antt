-- ===== src/Examples/Summaries.antt =====
-- The theorems on the summary store at concrete inputs.
use frost_agent.Prelude.{
  ◌≡◌, refl, inr, true, false, Option, none, some, List, [], ◌∷◌, ◌++◌, map, arith,
}
use frost_agent.Text.{Text, codes, trim_space, text_eq, trim_left, is_space}
use frost_agent.Text.Maps.{find, put}
use frost_agent.Sessions.Keys.{cut_prefix, first_cut}
use frost_agent.Summaries.Ids.{canonical_session_id, canonical_group, session_id_aliases}
use frost_agent.Summaries.{
  Summary, outside, generation, upsert, delete_summary, persist, any_record, get, open_store,
}
use frost_agent.Summaries.Board.{
  view, text_of, same_group, Request, write, erase, Surroundings, serve,
}
use frost_agent.Summaries.Board.Runs.{Steps, serve_all}
use frost_agent.Summaries.Board.Promise.{store_refines, write_then_read}
use frost_agent.Summaries.Board.Epochs.{overtaken_write}

abbrev works : Surroundings
works = record { now = 5; save = λ records gens. none }

abbrev broken : Surroundings
broken = record { now = 6; save = λ records gens. some (outside (codes "disk full")) }

abbrev on_file : List Summary
on_file =
    record {
      session_id = codes "qq:group:42";
      summary = codes " old ";
      created_at = 1;
      updated_at = 2;
    }
    ∷ []

abbrev made : List (Surroundings × Request)
made = (works, write (codes "onebot:group:7") (codes "plans") 0) ∷ []

abbrev deleted : List (Surroundings × Request)
deleted = (broken, erase (codes "group:42")) ∷ []

store_refines_example :
    let (t, answers) = serve_all (made ++ deleted) (open_store (inr on_file)) in
    Steps (view (open_store (inr on_file))) (map (λ c. c.1) (made ++ deleted)) answers (view t)
    × ((k : Text) → (r : Option Summary) × (get t k ≡ inr r) × (text_of r ≡ (view t k).summary))
store_refines_example = store_refines on_file (made ++ deleted)

write_then_read_example :
    let s = (serve_all deleted (open_store (inr on_file))).0 in
    let (t, a) =
      upsert 5 works.save s
        (codes "qq:group:42")
        (codes "new")
        (generation s (codes "qq:group:42")) in
    (a ≡ inr true)
    × ((k : Text)
        → same_group k (codes "qq:group:42") ≡ true
        → (r : Summary) × (get t k ≡ inr (some r)) × (r.summary ≡ codes "new"))
unfolding trim_space trim_left is_space persist serve_all serve delete_summary open_store any_record
    session_id_aliases canonical_session_id canonical_group find put text_eq
write_then_read_example =
    write_then_read on_file deleted works (codes "qq:group:42") (codes "new") refl refl refl

overtaken_write_example :
    let s = (serve_all made (open_store (inr on_file))).0 in
    let t = (serve_all deleted s).0 in
    upsert 5 works.save t (codes "qq:group:42") (codes "late") (generation s (codes "qq:group:42"))
    ≡ (t, inr false)
unfolding trim_space trim_left is_space text_eq canonical_session_id canonical_group first_cut
    cut_prefix
overtaken_write_example =
    overtaken_write (inr on_file) made deleted works (codes "qq:group:42") (codes "late") refl refl
      (omega arith) (omega arith)
