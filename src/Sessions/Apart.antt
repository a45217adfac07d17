-- ===== src/Sessions/Apart.antt =====
-- The sessions of different conversations.
use frost_agent.Prelude.{
  ℕ, ◌≤◌, ◌<◌, ◌≡◌, ◌≢◌, refl, ◌∙◌, ap, Bool, false, Option, some, List, [], ◌∷◌, arith, keep,
  Bool-cases, Option-cases, inl, inr,
}
use frost_agent.Text.{Text, trim_space, is_empty, text_eq, text_eq_iff}
use frost_agent.Sessions.Keys.{canonical_key}
use frost_agent.Text.Maps.{find, remove, put, remove_all, find-put, find-put_other}
use frost_agent.Sessions.{
  Manager, empty_manager, add_session, get_or_create, set_group_name, cleanup, delete_session,
}
use frost_agent.Sessions.Lookup.{AllCanonical, get_or_create-found, get_or_create-made}
use frost_agent.Sessions.Sharing.{
  Call, open_session, name_group, clean, forget, step, run, step-AllCanonical, run-AllCanonical,
  get_or_create-AllCanonical, set_group_name-sessions,
}

-- The sessions fall along the map, from below `n`: each is another one.
abbrev Falling : ℕ → List (Text × ℕ) → Type 0
Falling n [] = Unit {0}
Falling n (e ∷ rest) = (e.1 < n) × Falling e.1 rest

Falling-mono : (a b : ℕ) (m : List (Text × ℕ)) → a ≤ b → Falling a m → Falling b m
Falling-mono a b [] h v = tt
Falling-mono a b (e ∷ rest) h v = (omega (arith, v.0), v.1)

Falling-keep :
    (p : Text × ℕ → Bool) (n : ℕ) (m : List (Text × ℕ)) → Falling n m → Falling n (keep p m)
Falling-keep p n [] v = tt
Falling-keep p n (e ∷ rest) v = elim (Bool-cases (p e)) [
  | inl kept ↦ rw kept (v.0, Falling-keep p e.1 rest v.1)
  | inr gone ↦
      rw gone (Falling-mono e.1 n (keep p rest) (omega (arith, v.0)) (Falling-keep p e.1 rest v.1))
]

find-below : (k : Text) (r n : ℕ) (m : List (Text × ℕ)) → Falling n m → find k m ≡ some r → r < n
unfolding find
find-below k r n [] v h = ground arith
find-below k r n ((j, a) ∷ rest) v h = ground (arith, v, find-below k r a rest v.1)

-- A session stands under one key.
find_unique :
    (j k : Text) (r n : ℕ) (m : List (Text × ℕ))
    → Falling n m
    → find j m ≡ some r
    → find k m ≡ some r
    → j ≡ k
unfolding find
find_unique j k r n [] v h g = ground arith
find_unique j k r n ((i, a) ∷ rest) v h g = ground (
  arith,
  v,
  text_eq_iff i j,
  text_eq_iff i k,
  find-below j r a rest v.1,
  find-below k r a rest v.1,
  find_unique j k r a rest v.1,
)

abbrev Apart : Manager → Type 0
Apart m = Falling m.next m.sessions

get_or_create-Apart :
    (now : ℕ) (stored : Text → Option Text) (session_id : Text) (m : Manager)
    → AllCanonical m.sessions
    → Apart m
    → Apart (get_or_create now stored session_id m).0
unfolding add_session put remove
get_or_create-Apart now stored session_id m c v =
    elim (Option-cases (find (canonical_key session_id) m.sessions)) [
      | inr (r, e) ↦ rw (get_or_create-found now stored session_id m c r e) v
      | inl e ↦
          rw (get_or_create-made now stored session_id m c e)
            (omega arith, Falling-keep _ m.next m.sessions v)
    ]

set_group_name-next :
    (session_id name : Text) (m : Manager) → (set_group_name session_id name m).next ≡ m.next
unfolding set_group_name
set_group_name-next session_id name m = ground arith

remove_all-Falling :
    (n : ℕ) (ks : List Text) (m : List (Text × ℕ)) → Falling n m → Falling n (remove_all ks m)
unfolding remove_all remove
remove_all-Falling n [] m v = v
remove_all-Falling n (k ∷ ks) m v = remove_all-Falling n ks (remove k m) (Falling-keep _ n m v)

delete_session-Apart :
    (session_id : Text) (m : Manager) → Apart m → Apart (delete_session session_id m)
delete_session-Apart session_id m v =
    elim (Bool-cases (is_empty (canonical_key (trim_space session_id)))) [
      | inl blank ↦ unfold delete_session in rw blank (remove_all-Falling m.next _ m.sessions v)
      | inr solid ↦
          unfold delete_session in
          rw solid
            (remove_all-Falling m.next _ _ (unfold remove in Falling-keep _ m.next m.sessions v))
    ]

step-Apart : (c : Call) (m : Manager) → AllCanonical m.sessions → Apart m → Apart (step c m)
unfolding step
step-Apart (open_session now stored session_id) m c v =
    get_or_create-Apart now stored session_id m c v
step-Apart (name_group session_id name) m c v =
    rw (set_group_name-sessions session_id name m, set_group_name-next session_id name m) v
step-Apart (clean now ttl) m c v = unfold cleanup in Falling-keep _ m.next m.sessions v
step-Apart (forget session_id) m c v = delete_session-Apart session_id m v

run-Apart : (cs : List Call) (m : Manager) → AllCanonical m.sessions → Apart m → Apart (run cs m)
unfolding run
run-Apart [] m c v = v
run-Apart (call ∷ cs) m c v =
    run-Apart cs (step call m) (step-AllCanonical call m c) (step-Apart call m c v)

-- What GetOrCreate answers stands under the canonical key.
get_or_create-find :
    (now : ℕ) (stored : Text → Option Text) (session_id : Text) (m : Manager)
    → AllCanonical m.sessions
    → let (t, r) = get_or_create now stored session_id m in
      find (canonical_key session_id) t.sessions ≡ some r
unfolding add_session
get_or_create-find now stored session_id m c =
    elim (Option-cases (find (canonical_key session_id) m.sessions)) [
      | inr (r, e) ↦ rw (get_or_create-found now stored session_id m c r e) e
      | inl e ↦
          rw (get_or_create-made now stored session_id m c e)
            (find-put (canonical_key session_id) m.next m.sessions)
    ]

-- The session that was there is found again after GetOrCreate of another conversation.
get_or_create-find_other :
    (now : ℕ) (stored : Text → Option Text) (session_id k : Text) (m : Manager)
    → AllCanonical m.sessions
    → text_eq (canonical_key session_id) k ≡ false
    → find k (get_or_create now stored session_id m).0.sessions ≡ find k m.sessions
unfolding add_session
get_or_create-find_other now stored session_id k m c h =
    elim (Option-cases (find (canonical_key session_id) m.sessions)) [
      | inr (r, e) ↦ rw (get_or_create-found now stored session_id m c r e) refl
      | inl e ↦
          rw (get_or_create-made now stored session_id m c e)
            (find-put_other (canonical_key session_id) k m.next m.sessions h)
    ]

-- Whatever calls of GetOrCreate, SetGroupName, Cleanup and Delete a manager has had, two session
-- ids with different canonical keys get different sessions from GetOrCreate, also where both are
-- known already.
pub conversations_apart :
    (cs : List Call) (now later : ℕ) (stored stored' : Text → Option Text) (x y : Text)
    → canonical_key x ≢ canonical_key y
    → let (t, r) = get_or_create now stored x (run cs empty_manager) in
      (get_or_create later stored' y t).1 ≢ r
conversations_apart cs now later stored stored' x y differ same =
    let m = run cs empty_manager in
    let c : AllCanonical m.sessions = run-AllCanonical cs empty_manager tt in
    let v : Apart m = run-Apart cs empty_manager tt tt in
    let (t, r) = get_or_create now stored x m in
    let ct = get_or_create-AllCanonical now stored x m c in
    let vt = get_or_create-Apart now stored x m c v in
    let vu = get_or_create-Apart later stored' y t ct vt in
    let (u, q) = get_or_create later stored' y t in
    let other : text_eq (canonical_key y) (canonical_key x) ≡ false =
      ground (arith, text_eq_iff (canonical_key y) (canonical_key x), differ) in
    let at_x : find (canonical_key x) u.sessions ≡ some r =
      get_or_create-find_other later stored' y (canonical_key x) t ct other
      ∙ get_or_create-find now stored x m c in
    let at_y : find (canonical_key y) u.sessions ≡ some r =
      get_or_create-find later stored' y t ct ∙ ap some same in
    differ (find_unique (canonical_key x) (canonical_key y) r u.next u.sessions vu at_x at_y)
