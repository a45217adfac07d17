-- ===== src/Examples/Manager.antt =====
-- The theorems on session keys and the session manager at concrete inputs.
use frost_agent.Prelude.{◌≡◌, ◌≢◌, refl, Option, some, List, [], ◌∷◌, arith}
use frost_agent.Text.{Text, codes, trim_space, trim_left, is_space}
use frost_agent.Sessions.Keys.{canonical_key, canonical_trimmed, first_cut, cut_prefix}
use frost_agent.Sessions.{empty_manager, get_or_create}
use frost_agent.Sessions.Sharing.{Call, open_session, name_group, clean, run, one_session}
use frost_agent.Sessions.Apart.{conversations_apart}

abbrev stored : Text → Option Text
stored key = some (codes "so far")

-- A private chat is opened, and a group is named before it is opened.
abbrev calls : List Call
calls =
    open_session 1 stored (codes "private:7")
    ∷ name_group (codes "group:42") (codes "Team")
    ∷ clean 9 20
    ∷ []

abbrev short : Text
short = codes "group:42"

abbrev long : Text
long = codes " aiocqhttp:group:42"

one_session_example :
    let (t, r) = get_or_create 10 stored long (run calls empty_manager) in
    get_or_create 11 stored short t ≡ (t, r)
unfolding canonical_key canonical_trimmed first_cut cut_prefix trim_space trim_left is_space
one_session_example = one_session calls 10 11 stored stored long short refl

abbrev private_chat : Text
private_chat = codes "qq:private:42"

keys_differ : canonical_key long ≢ canonical_key private_chat
unfolding canonical_key canonical_trimmed first_cut cut_prefix trim_space trim_left is_space
keys_differ e = ground arith

conversations_apart_example :
    let (t, r) = get_or_create 10 stored long (run calls empty_manager) in
    (get_or_create 11 stored private_chat t).1 ≢ r
conversations_apart_example =
    conversations_apart calls 10 11 stored stored long private_chat keys_differ
