-- ===== src/Sessions/Deleted.antt =====
-- Delete, and Get after it.
use frost_agent.Prelude.{
  ◌≡◌, refl, ◌∙◌, subst, true, none, List, [], ◌∷◌, arith, Bool-cases, inl, inr,
}
use frost_agent.Text.{Text, is_empty, trim_space}
use frost_agent.GroupCompact.Message.{or_else}
use frost_agent.Sessions.Keys.{canonical_key, key_aliases}
use frost_agent.Text.Maps.{find, remove, remove_all, find-remove_same, find-remove_all-none}
use frost_agent.Sessions.{key_of, Manager, empty_manager, get_session, delete_session}
use frost_agent.Sessions.Lookup.{find_session-none, key_of_lem, canonical_key-trim}
use frost_agent.Sessions.Sharing.{Call, run, run-AllCanonical, delete_session-AllCanonical}

-- Where the canonical key is empty, so is the session id.
blank_key :
    (s : Text) → is_empty (canonical_key (trim_space s)) ≡ true → trim_space s ≡ canonical_key s
blank_key s h =
    or_else-right (canonical_key (trim_space s)) (trim_space s) h ∙ (unfold key_of in key_of_lem s)
  where
    or_else-right : (a b : Text) → is_empty a ≡ true → b ≡ or_else a b
    or_else-right [] b h = refl
    or_else-right (c ∷ a) b h = ground arith

delete_session-find :
    (session_id : Text) (m : Manager)
    → find (canonical_key session_id) (delete_session session_id m).sessions ≡ none
unfolding delete_session
delete_session-find session_id m =
    let sid = trim_space session_id in
    let key = canonical_key session_id in
    elim (Bool-cases (is_empty (canonical_key sid))) [
      | inl blank ↦ rw blank (
          unfold remove_all in
          find-remove_all-none key (key_aliases sid) (remove sid m.sessions) (
            subst (λ k. find k (remove sid m.sessions) ≡ none) (blank_key session_id blank)
              (find-remove_same sid m.sessions)))
      | inr solid ↦ rw solid (
          find-remove_all-none key (sid ∷ key_aliases sid) (remove (canonical_key sid) m.sessions) (
            subst (λ k. find k (remove (canonical_key sid) m.sessions) ≡ none)
              (canonical_key-trim session_id) (find-remove_same (canonical_key sid) m.sessions)))
    ]

-- Whatever calls of GetOrCreate, SetGroupName, Cleanup and Delete a manager has had, after Delete
-- of a session id Get finds no session for any id with the same canonical key.
pub deleted_is_gone :
    (cs : List Call) (x y : Text)
    → canonical_key x ≡ canonical_key y
    → get_session y (delete_session x (run cs empty_manager)) ≡ none
unfolding get_session
deleted_is_gone cs x y same =
    let m = run cs empty_manager in
    let v = delete_session-AllCanonical x m (run-AllCanonical cs empty_manager tt) in
    find_session-none 0 (λ key. none) y (delete_session x m) v
      (subst (λ k. find k (delete_session x m).sessions ≡ none) same (delete_session-find x m))
