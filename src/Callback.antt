-- ===== src/Callback.antt =====
-- python/copass-langchain/src/copass_langchain/callback.py: the callback that mirrors a chat model's
-- conversation into a window. LangChain gives it the whole conversation before every model call. The
-- push of a turn is a task of its own, which swallows its failures; `print` is `str` on dictionaries
-- and lists.
pub mod Mirror
mod Examples
use copass.Prelude.{
  ℕ, String, Bool, true, false, ◌&&◌, ◌||◌, not, Option, none, some, List, [], ◌∷◌, ◌++◌, eqb,
  if◌then◌else◌,
}
use copass.Json.{
  Value, null, bool, num, str, arr, obj, Items, no_items, item, Fields, end, field, field_at,
}
use copass.Text.{Text, codes, strip, is_empty, take, same_text, join_lines, lstrip, rstrip}
use copass.Recorder.{ChatRole, user, assistant, system, role_name}

pub data MessageKind : Type 0 where
  human ai system_message tool other_kind : MessageKind

pub record BaseMessage : Type 0 where
  pub kind : MessageKind
  pub content : Value

-- A `ChatMessage` without a name.
pub record Turn : Type 0 where
  pub role : ChatRole
  pub content : Text

pub record CopassWindowCallback : Type 0 where
  pub include_tool_messages : Bool
  pub seen : List Text
  pub scheduled : List Turn

-- `_role_from_message`
unfoldable pub role_from_message : MessageKind → Bool → Option ChatRole
role_from_message human include_tools = some user
role_from_message ai include_tools = some assistant
role_from_message system_message include_tools = some system
role_from_message tool include_tools = if include_tools then some system else none
role_from_message other_kind include_tools = none

-- `str(x)`
abbrev pub str_of : (Value → Text) → Value → Text
str_of print null = codes "None"
str_of print (bool true) = codes "True"
str_of print (bool false) = codes "False"
str_of print (num n) = codes n
str_of print (str s) = codes s
str_of print v = print v

-- A number whose digits up to its exponent are all zero.
unfoldable pub is_zero : Text → Bool
is_zero [] = true
is_zero (c ∷ s) =
    let rest = is_zero s in
    if eqb c 101 || eqb c 69
    then true
    else if eqb c 48 || (eqb c 45 || eqb c 46)
    then rest
    else false

unfoldable pub is_truthy : Value → Bool
unfolding is_zero
is_truthy null = false
is_truthy (bool b) = b
is_truthy (num n) = not (is_zero (codes n))
is_truthy (str s) = not (is_empty (codes s))
is_truthy (arr no_items) = false
is_truthy (arr (item v vs)) = true
is_truthy (obj end) = false
is_truthy (obj (field k v fs)) = true

-- The text of a part, empty if it has none.
unfoldable pub part_text : (Value → Text) → Value → Text
unfolding is_truthy
part_text print (str s) = codes s
part_text print (obj fs) = elim (field_at "text" fs) [
  | none ↦ []
  | some v ↦ if is_truthy v then str_of print v else []
]
part_text print _ = []

-- The texts that are not empty.
unfoldable pub part_texts : (Value → Text) → Items → List Text
unfolding part_text
part_texts print no_items = []
part_texts print (item v vs) =
    let rest = part_texts print vs in
    if is_empty (part_text print v) then rest else part_text print v ∷ rest

-- `_content_to_string`
unfoldable pub content_to_string : (Value → Text) → Value → Text
unfolding part_texts
content_to_string print (str s) = codes s
content_to_string print (arr parts) = join_lines (part_texts print parts)
content_to_string print null = []
content_to_string print v = str_of print v

-- `_to_turn`, with its role.
abbrev pub turn_with : Text → Option ChatRole → Option Turn
turn_with content none = none
turn_with content (some role) =
    if is_empty (strip content) then none else some (record { role = role; content = content })

unfoldable pub to_turn : (Value → Text) → Bool → BaseMessage → Option Turn
unfolding role_from_message content_to_string
to_turn print include_tools msg =
    turn_with (content_to_string print msg.content) (role_from_message msg.kind include_tools)

-- `_hash_turn`
unfoldable pub hash_turn : Turn → Text
hash_turn turn = codes (role_name turn.role) ++ (58 ∷ take 500 turn.content)

abbrev pub contains_text : List Text → Text → Bool
contains_text [] k = false
contains_text (x ∷ xs) k = same_text x k || contains_text xs k

abbrev pub seen_after : List Text → List Turn → List Text
seen_after seen [] = seen
seen_after seen (t ∷ ts) = seen_after (hash_turn t ∷ seen) ts

abbrev pub new_callback : Bool → List Turn → CopassWindowCallback
new_callback include_tools turns = record {
  include_tool_messages = include_tools;
  seen = seen_after [] turns;
  scheduled = [];
}

-- A message that is a turn, unless its key has been seen.
unfoldable pub mirror : CopassWindowCallback → Option Turn → CopassWindowCallback
mirror c none = c
mirror c (some turn) =
    if contains_text c.seen (hash_turn turn)
    then c
    else record c { seen = hash_turn turn ∷ c.seen; scheduled = c.scheduled ++ turn ∷ [] }

unfoldable pub mirror_all :
    (Value → Text) → CopassWindowCallback → List BaseMessage → CopassWindowCallback
unfolding mirror to_turn
mirror_all print c [] = c
mirror_all print c (m ∷ ms) =
    mirror_all print (mirror c (to_turn print c.include_tool_messages m)) ms

-- The conversations in one list.
abbrev pub flatten : List (List BaseMessage) → List BaseMessage
flatten [] = []
flatten (ms ∷ mss) = ms ++ flatten mss

-- `on_chat_model_start`
unfoldable pub on_chat_model_start :
    (Value → Text) → CopassWindowCallback → List (List BaseMessage) → CopassWindowCallback
unfolding mirror_all
on_chat_model_start print c messages = mirror_all print c (flatten messages)
