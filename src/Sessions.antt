-- ===== src/Sessions.antt =====
-- internal/llm/session.go: SessionManager. A session is named by a number, which stands for the
-- pointer to it; of the session itself only the fields that the manager sets or reads are here.
pub mod Keys
pub mod Lookup
pub mod Sharing
pub mod Apart
pub mod Deleted
use frost_agent.Prelude.{
  ℕ, suc, ◌-◌, Bool, true, false, not, ◌&&◌, ◌||◌, Option, none, some, List, [], ◌∷◌, ◌==◌, ltb,
  if◌then◌else◌, keep, map, lookup,
}
use frost_agent.Text.{
  Text, codes, is_empty, trim_space, text_eq, index, ascii_lower, has_lower_prefix,
}
use frost_agent.Text.Maps.{find, remove, put, remove_all}
use frost_agent.GroupCompact.Message.{or_else}
use frost_agent.Sessions.Keys.{canonical_key, key_aliases}

module _ {ℓ} {A : Type ℓ} where
  -- The first of the keys that the map has, with its value.
  unfoldable pub found_at : List Text → List (Text × A) → Option (Text × A)
  found_at [] m = none
  found_at (k ∷ ks) m =
      let rest = found_at ks m in elim (find k m) [ some a ↦ some (k, a) | none ↦ rest ]

pub record Info : Type 0 where
  pub conversation_id : Text
  pub summary : Text
  pub group_name : Text
  pub updated_at : ℕ

pub record Manager : Type 0 where
  pub sessions : List (Text × ℕ)
  pub infos : List (ℕ × Info)  -- what the pointers point to
  pub next : ℕ  -- a pointer that is not used yet
  pub names : List (Text × Text)  -- groupNames

-- NewSessionManager
abbrev pub empty_manager : Manager
empty_manager = record { sessions = []; infos = []; next = 0; names = [] }

-- canonicalID, for a trimmed session id
unfoldable pub key_of : Text → Text
key_of sid = or_else (canonical_key sid) sid

unfoldable pub is_group : Text → Bool
is_group key =
    has_lower_prefix key (codes "group:")
    || (elim (index (codes ":group:") (map ascii_lower key)) [ none ↦ false | some i ↦ true ])

-- The name under which a new session's group is known.
unfoldable pub known_name : Text → Text → List (Text × Text) → Text
known_name key sid names =
    let name_at : Text → Text = λ k. elim (find k names) [ none ↦ [] | some name ↦ name ] in
    or_else (name_at key) (name_at sid)

-- The summary that a new session starts with; `stored` is what the summary store has for a key, if
-- there is a store and it answers without an error.
unfoldable pub restored : (Text → Option Text) → Text → Text
restored stored key =
    if is_group key then (elim (stored key) [ none ↦ [] | some summary ↦ summary ]) else []

unfoldable pub add_session : ℕ → (Text → Option Text) → Text → Text → Manager → Manager × ℕ
add_session now stored key sid m =
    let info : Info = record {
      conversation_id = sid;
      summary = restored stored key;
      group_name = known_name key sid m.names;
      updated_at = now;
    } in
    (
      record m {
        sessions = put key m.next m.sessions;
        infos = (m.next, info) ∷ m.infos;
        next = suc m.next;
      },
      m.next,
    )

-- GetOrCreate under the read lock
unfoldable pub find_session : Text → Manager → Option ℕ
find_session sid m = elim (found_at (key_of sid ∷ sid ∷ key_aliases sid) m.sessions) [
  | none ↦ none
  | some (key, r) ↦ some r
]

-- GetOrCreate under the write lock: a session under another key moves to the canonical one.
unfoldable pub create_session : ℕ → (Text → Option Text) → Text → Manager → Manager × ℕ
create_session now stored sid m =
    let key = key_of sid in
    elim (find key m.sessions) [
      | some r ↦ (m, r)
      | none ↦ elim (found_at (sid ∷ key_aliases sid) m.sessions) [
        | some (k, r) ↦ (record m { sessions = put key r (remove k m.sessions) }, r)
        | none ↦ add_session now stored key sid m
      ]
    ]

-- GetOrCreate, with nothing between the two locks
unfoldable pub get_or_create : ℕ → (Text → Option Text) → Text → Manager → Manager × ℕ
get_or_create now stored session_id m =
    let sid = trim_space session_id in
    elim (find_session sid m) [ some r ↦ (m, r) | none ↦ create_session now stored sid m ]

rename : ℕ → Text → List (ℕ × Info) → List (ℕ × Info)
rename r name [] = []
rename r name ((k, info) ∷ rest) =
    (k, if k == r then record info { group_name = name } else info) ∷ rename r name rest

-- SetGroupName
unfoldable pub set_group_name : Text → Text → Manager → Manager
unfolding rename
set_group_name session_id name m =
    let name' = trim_space name in
    let sid = trim_space session_id in
    let names = put sid name' (put (key_of sid) name' m.names) in
    if is_empty name' then m else record m {
      names = names;
      infos = elim (found_at (key_of sid ∷ sid ∷ []) m.sessions) [
        | none ↦ m.infos
        | some (key, r) ↦ rename r name' m.infos
      ];
    }

-- now.Sub(s.UpdatedAt) > sm.TTL
unfoldable pub is_expired : ℕ → ℕ → List (ℕ × Info) → ℕ → Bool
is_expired now ttl infos r = elim (lookup r infos) [
  | none ↦ false
  | some info ↦ ltb ttl (now - info.updated_at)
]

-- Cleanup
unfoldable pub cleanup : ℕ → ℕ → Manager → Manager
unfolding is_expired
cleanup now ttl m = record m {
  sessions = keep (λ e. not (is_expired now ttl m.infos e.1)) m.sessions;
}

-- Get
unfoldable pub get_session : Text → Manager → Option ℕ
get_session session_id m = find_session (trim_space session_id) m

-- Delete
unfoldable pub delete_session : Text → Manager → Manager
delete_session session_id m =
    let sid = trim_space session_id in
    let canonical = canonical_key sid in
    let rest = remove_all (sid ∷ key_aliases sid) in
    record m {
      sessions = if is_empty canonical then rest m.sessions else rest (remove canonical m.sessions);
    }

-- GetGroupName, as far as groupNames answers it
unfoldable pub named_in : List Text → List (Text × Text) → Text
named_in [] names = []
named_in (k ∷ ks) names =
    let rest = named_in ks names in
    elim (find k names) [ none ↦ rest | some name ↦ or_else name rest ]

-- GetGroupName
unfoldable pub get_group_name : Text → Manager → Text
get_group_name session_id m =
    let sid = trim_space session_id in
    let own : Text = elim (found_at (key_of sid ∷ sid ∷ []) m.sessions) [
      | none ↦ []
      | some (key, r) ↦ elim (lookup r m.infos) [ none ↦ [] | some info ↦ info.group_name ]
    ] in
    or_else (named_in (key_of sid ∷ sid ∷ key_aliases sid) m.names) own
