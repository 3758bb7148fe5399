-- ===== src/CopassAgent/Messages.antt =====
-- managed_agent.py: what the user says in the messages of a call. `print` is `str` on dictionaries and
-- lists.
use copass.Prelude.{String, Bool, false, Option, some, List, [], ◌∷◌, ◌==◌, if◌then◌else◌, or_else}
use copass.Json.{Value, null, str, arr, obj, Items, no_items, item, Fields, end, field, field_at}
use copass.Managed.Messages.{str_of, is_user}
use copass.Text.{Text, codes, strip, is_empty, join_lines}

-- A text, or messages that are dictionaries.
pub data Messages : Type 0 where
  text : String → Messages
  listed : List Fields → Messages

-- `_normalize_messages`
unfoldable pub normalize_messages : Messages → List Fields
normalize_messages (text s) = field "role" (str "user") (field "content" (str s) end) ∷ []
normalize_messages (listed ms) = ms

abbrev pub is_text_kind : Option Value → Bool
is_text_kind (some (str kind)) = kind == "text"
is_text_kind _ = false

-- `_extract_text`
unfoldable pub extract_text : (Value → String) → Value → Text
extract_text print (obj fs) =
    if is_text_kind (field_at "type" fs)
    then codes (str_of print (or_else (field_at "text" fs) (str "")))
    else []
extract_text print (str s) = codes s
extract_text print _ = []

-- The texts of the parts of a content; a part that is `None` is left out.
unfoldable pub extract_texts : (Value → String) → Items → List Text
unfolding extract_text
extract_texts print no_items = []
extract_texts print (item null rest) = extract_texts print rest
extract_texts print (item part rest) = extract_text print part ∷ extract_texts print rest

unfoldable pub content_text : (Value → String) → Value → Text
unfolding extract_texts
content_text print (arr parts) = strip (join_lines (extract_texts print parts))
content_text print v = codes (str_of print v)

abbrev pub text_of_message : (Value → String) → Fields → Text
text_of_message print m = content_text print (or_else (field_at "content" m) (str ""))

abbrev pub is_user_message : Fields → Bool
is_user_message m = is_user (or_else (field_at "role" m) (str "user"))

-- `_user_contents`
unfoldable pub user_contents : (Value → String) → List Fields → List Text
unfolding content_text
user_contents print [] = []
user_contents print (m ∷ ms) =
    let rest = user_contents print ms in
    let said = text_of_message print m in
    if is_user_message m then if is_empty (strip said) then rest else said ∷ rest else rest
