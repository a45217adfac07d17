-- ===== src/Summaries/Board.antt =====
-- What the summary store of internal/groupsummary/store.go is for its callers: for each group its
-- summary, if there is one, and its deletion epoch, under whatever name the group is called.
pub mod Changes
pub mod Refinement
pub mod Runs
pub mod Promise
pub mod Epochs
use frost_agent.Prelude.{
  ℕ, suc, ◌≡◌, ◌≢◌, ◌⊎◌, inl, inr, Bool, true, false, Option, none, some, List, [], ◌∷◌, ◌||◌,
  if◌then◌else◌, u64,
}
use frost_agent.Text.{Text, is_empty, trim_space, text_eq}
use frost_agent.Text.Maps.{find}
use frost_agent.Summaries.Ids.{canonical_session_id}
use frost_agent.Summaries.{Summary, Records, Failure, Store, generation, upsert, delete_summary}

pub record Entry : Type 0 where
  pub summary : Option Text
  pub epoch : ℕ

abbrev pub Board : Type 0
Board = Text → Entry

abbrev pub text_of : Option Summary → Option Text
text_of none = none
text_of (some r) = some r.summary

unfoldable pub view : Store → Board
unfolding generation
view s k = record {
  summary = text_of (find (canonical_session_id k) s.records);
  epoch = generation s k;
}

abbrev pub same_group : Text → Text → Bool
same_group k id = text_eq (canonical_session_id k) (canonical_session_id id)

pub data Request : Type 0 where
  write : Text → Text → ℕ → Request
  erase : Text → Request

-- What a write or an erasure may do to the board, and answer.
pub data Step (b : Board) : Request → Failure ⊎ Bool → Board → Type 0 where
  written :
      {id text : Text} {epoch : ℕ} {b' : Board}
      → (is_empty (trim_space id) || is_empty (trim_space text)) ≡ false
      → (b id).epoch ≡ epoch
      → ((k : Text)
          → b' k ≡ (
              if same_group k id
              then record { summary = some (trim_space text); epoch = (b k).epoch }
              else b k))
      → Step b (write id text epoch) (inr true) b'
  stale :
      {id text : Text} {epoch : ℕ}
      → (b id).epoch ≢ epoch
      → Step b (write id text epoch) (inr false) b
  refused : {id text : Text} {epoch : ℕ} {e : Failure} → Step b (write id text epoch) (inl e) b
  erased :
      {id : Text} {b' : Board}
      → is_empty (trim_space id) ≡ false
      → ((k : Text)
          → b' k ≡ (
              if same_group k id
              then record { summary = none; epoch = u64 (suc (b k).epoch) }
              else b k))
      → Step b (erase id) (inr true) b'
  kept :
      {id : Text} {e : Failure} {b' : Board}
      → is_empty (trim_space id) ≡ false
      → ((k : Text)
          → b' k ≡ (
              if same_group k id
              then record { summary = (b k).summary; epoch = u64 (suc (b k).epoch) }
              else b k))
      → Step b (erase id) (inl e) b'
  blank : {id : Text} → is_empty (trim_space id) ≡ true → Step b (erase id) (inr true) b

-- What the surroundings do in one call: the time, and what the disk answers.
pub record Surroundings : Type 0 where
  pub now : ℕ
  pub save : Records → List (Text × ℕ) → Option Failure

abbrev pub done : Failure ⊎ Unit {0} → Failure ⊎ Bool
done (inl e) = inl e
done (inr u) = inr true

unfoldable pub serve : Surroundings → Request → Store → Store × (Failure ⊎ Bool)
unfolding upsert delete_summary
serve w (write id text epoch) s = upsert w.now w.save s id text epoch
serve w (erase id) s = let (t, a) = delete_summary w.save s id in (t, done a)
