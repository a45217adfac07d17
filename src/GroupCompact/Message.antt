-- ===== src/GroupCompact/Message.antt =====
-- internal/llm/session.go: GroupCompactMessage, FormatDisplay and ParseGroupCompactMessage.
use frost_agent.Prelude.{
  ◌+◌, ◌-◌, ◌≡◌, refl, none, some, List, [], ◌∷◌, ◌++◌, if◌then◌else◌, take, drop,
}
use frost_agent.Text.{
  Text, codes, is_empty, text_eq, trim_space, index, has_lower_prefix, drop_bytes,
}

pub record GroupCompactMessage : Type 0 where
  pub role : Text
  pub sender : Text
  pub sender_id : Text
  pub content : Text
  pub image_description : Text
  pub message_id : Text
  pub time : Text
  pub raw : Text

-- The zero value.
abbrev pub no_message : GroupCompactMessage
no_message = record {
  role = [];
  sender = [];
  sender_id = [];
  content = [];
  image_description = [];
  message_id = [];
  time = [];
  raw = [];
}

-- `or_else s d` is `s`, or `d` for the empty string.
abbrev pub or_else : Text → Text → Text
or_else [] d = d
or_else (c ∷ cs) d = c ∷ cs

display_body : GroupCompactMessage → Text
display_body m =
    if is_empty m.image_description
    then m.content
    else m.content ++ codes " 【图片识别结果】：" ++ m.image_description

unfoldable pub format_display : GroupCompactMessage → Text
unfolding text_eq display_body
format_display m =
    if is_empty m.raw
    then (if text_eq m.role (codes "assistant")
        then codes "[assistant] " ++ or_else m.sender (codes "霜降") ++ codes ": " ++ display_body m
        else (if is_empty m.sender_id
            then codes "[user] " ++ or_else m.sender (codes "user") ++ codes ": " ++ display_body m
            else codes "[user] "
              ++ or_else m.sender (codes "user")
              ++ codes " ("
              ++ m.sender_id
              ++ codes "): "
              ++ display_body m))
    else m.raw

-- The first of the variadic `messageID` arguments, trimmed.
abbrev pub first_id : List Text → Text
first_id [] = []
first_id (id ∷ ids) = trim_space id

-- The first "[msg_…]" in the text, without its brackets.
embedded_id : Text → Text
unfolding index
embedded_id content = elim (index (codes "[msg_") content) [
  | none ↦ []
  | some start ↦ elim (index (codes "]") (drop start content)) [
    | none ↦ []
    | some end ↦ take (end - 1) (drop (start + 1) content)
  ]
]

-- The role that the text's head names, and the text behind it.
parse_role : Text → Text × Text
unfolding has_lower_prefix drop_bytes trim_space
parse_role text =
    if has_lower_prefix text (codes "[assistant]")
    then (codes "assistant", trim_space (drop_bytes 11 text))
    else (if has_lower_prefix text (codes "[user]")
        then (codes "user", trim_space (drop_bytes 6 text))
        else (codes "user", text))

-- "name (id)" as a name and an id.
parse_sender : Text → Text × Text
unfolding index trim_space
parse_sender part = elim (index (codes "(") part) [
  | none ↦ (part, [])
  | some open_paren ↦ elim (index (codes ")") (drop open_paren part)) [
    | none ↦ (part, [])
    | some close_paren ↦ (
      trim_space (take open_paren part),
      trim_space (take (close_paren - 1) (drop (open_paren + 1) part)),
    )
  ]
]

-- The message of a trimmed text.
parse_trimmed : Text → Text → GroupCompactMessage
unfolding parse_role parse_sender
parse_trimmed content id =
    let (role, text) = parse_role content in
    elim (index (codes ":") text) [
      | none ↦ record no_message { role = role; content = content; message_id = id; raw = content }
      | some colon ↦
          let (sender, sender_id) = parse_sender (trim_space (take colon text)) in
          record {
            role = role;
            sender = sender;
            sender_id = sender_id;
            content = trim_space (drop (colon + 1) text);
            image_description = [];
            message_id = id;
            time = [];
            raw = content;
          }
    ]

unfoldable pub parse_message : Text → List Text → GroupCompactMessage
unfolding parse_trimmed embedded_id
parse_message content ids =
    let content' = trim_space content in
    if is_empty content'
    then no_message
    else parse_trimmed content' (or_else (first_id ids) (embedded_id content'))

parsed : parse_message (codes " [User] Ann (42): hi: [msg_7] ") [] ≡ record {
  role = codes "user";
  sender = codes "Ann";
  sender_id = codes "42";
  content = codes "hi: [msg_7]";
  image_description = [];
  message_id = codes "msg_7";
  time = [];
  raw = codes "[User] Ann (42): hi: [msg_7]";
}
unfolding parse_message text_eq
parsed = refl
