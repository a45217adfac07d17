-- ===== src/Sessions/Sharing.antt =====
-- The calls of a SessionManager, and one conversation under several ids.
use frost_agent.Prelude.{
  ℕ, ◌≡◌, refl, subst, sym, not, Option, List, [], ◌∷◌, All-keep, Bool-cases, Option-cases, inl,
  inr,
}
use frost_agent.Text.{Text, is_empty, trim_space, text_eq}
use frost_agent.Sessions.Keys.{canonical_key}
use frost_agent.Sessions.Keys.Canonical.{canonical_key_idem}
use frost_agent.Text.Maps.{find, remove, put, remove_all, find-put}
use frost_agent.Sessions.{
  Manager, empty_manager, add_session, get_or_create, set_group_name, cleanup, delete_session,
}
use frost_agent.Sessions.Lookup.{AllCanonical, get_or_create-found, get_or_create-made}

add_session-AllCanonical :
    (now : ℕ) (stored : Text → Option Text) (key sid : Text) (m : Manager)
    → canonical_key key ≡ key
    → AllCanonical m.sessions
    → AllCanonical (add_session now stored key sid m).0.sessions
unfolding add_session put remove
add_session-AllCanonical now stored key sid m h v =
    (h, All-keep (λ e. canonical_key e.0 ≡ e.0) (λ e. not (text_eq e.0 key)) m.sessions v)

pub get_or_create-AllCanonical :
    (now : ℕ) (stored : Text → Option Text) (session_id : Text) (m : Manager)
    → AllCanonical m.sessions
    → AllCanonical (get_or_create now stored session_id m).0.sessions
get_or_create-AllCanonical now stored session_id m v =
    elim (Option-cases (find (canonical_key session_id) m.sessions)) [
      | inr (r, e) ↦ rw (get_or_create-found now stored session_id m v r e) v
      | inl e ↦ rw (get_or_create-made now stored session_id m v e) (
          add_session-AllCanonical now stored (canonical_key session_id) (trim_space session_id) m
            (canonical_key_idem session_id) v)
    ]

-- The calls of a manager.
pub data Call : Type 0 where
  open_session : ℕ → (Text → Option Text) → Text → Call
  name_group : Text → Text → Call
  clean : ℕ → ℕ → Call
  forget : Text → Call

unfoldable pub step : Call → Manager → Manager
step (open_session now stored session_id) m = (get_or_create now stored session_id m).0
step (name_group session_id name) m = set_group_name session_id name m
step (clean now ttl) m = cleanup now ttl m
step (forget session_id) m = delete_session session_id m

unfoldable pub run : List Call → Manager → Manager
run [] m = m
run (c ∷ cs) m = run cs (step c m)

pub set_group_name-sessions :
    (session_id name : Text) (m : Manager)
    → (set_group_name session_id name m).sessions ≡ m.sessions
unfolding set_group_name
set_group_name-sessions session_id name m = elim (Bool-cases (is_empty (trim_space name))) [
  | inl blank ↦ rw blank refl
  | inr solid ↦ rw solid refl
]

remove_all-AllCanonical :
    (ks : List Text) (m : List (Text × ℕ)) → AllCanonical m → AllCanonical (remove_all ks m)
unfolding remove_all remove
remove_all-AllCanonical [] m v = v
remove_all-AllCanonical (k ∷ ks) m v =
    remove_all-AllCanonical ks (remove k m)
      (All-keep (λ e. canonical_key e.0 ≡ e.0) (λ e. not (text_eq e.0 k)) m v)

pub delete_session-AllCanonical :
    (session_id : Text) (m : Manager)
    → AllCanonical m.sessions
    → AllCanonical (delete_session session_id m).sessions
delete_session-AllCanonical session_id m v =
    elim (Bool-cases (is_empty (canonical_key (trim_space session_id)))) [
      | inl blank ↦ unfold delete_session in rw blank (remove_all-AllCanonical _ m.sessions v)
      | inr solid ↦
          unfold delete_session in
          rw solid (
            remove_all-AllCanonical _ _
              (unfold remove in All-keep (λ e. canonical_key e.0 ≡ e.0) _ m.sessions v))
    ]

pub step-AllCanonical :
    (c : Call) (m : Manager) → AllCanonical m.sessions → AllCanonical (step c m).sessions
unfolding step
step-AllCanonical (open_session now stored session_id) m v =
    get_or_create-AllCanonical now stored session_id m v
step-AllCanonical (name_group session_id name) m v =
    subst AllCanonical (sym (set_group_name-sessions session_id name m)) v
step-AllCanonical (clean now ttl) m v =
    unfold cleanup in All-keep (λ e. canonical_key e.0 ≡ e.0) _ m.sessions v
step-AllCanonical (forget session_id) m v = delete_session-AllCanonical session_id m v

pub run-AllCanonical :
    (cs : List Call) (m : Manager) → AllCanonical m.sessions → AllCanonical (run cs m).sessions
unfolding run
run-AllCanonical [] m v = v
run-AllCanonical (c ∷ cs) m v = run-AllCanonical cs (step c m) (step-AllCanonical c m v)

-- Whatever calls of GetOrCreate, SetGroupName, Cleanup and Delete a manager has had, two session
-- ids with one canonical key have one session: when GetOrCreate has answered for the one, it gives
-- the same session for the other and makes none.
pub one_session :
    (cs : List Call) (now later : ℕ) (stored stored' : Text → Option Text) (x y : Text)
    → canonical_key x ≡ canonical_key y
    → let (t, r) = get_or_create now stored x (run cs empty_manager) in
      get_or_create later stored' y t ≡ (t, r)
unfolding add_session
one_session cs now later stored stored' x y same =
    let m = run cs empty_manager in
    let v : AllCanonical m.sessions = run-AllCanonical cs empty_manager tt in
    let w = get_or_create-AllCanonical now stored x m v in
    elim (Option-cases (find (canonical_key x) m.sessions)) [
      | inr (r, e) ↦
          rw (get_or_create-found now stored x m v r e)
            (get_or_create-found later stored' y m v r (rw⁻¹ same e))
      | inl e ↦
          let made = get_or_create-made now stored x m v e in
          let t = (add_session now stored (canonical_key x) (trim_space x) m).0 in
          rw made (
            get_or_create-found later stored' y t (subst (λ g. AllCanonical g.0.sessions) made w)
              m.next (rw⁻¹ same (find-put (canonical_key x) m.next m.sessions)))
    ]
