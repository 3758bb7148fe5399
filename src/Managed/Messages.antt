-- ===== src/Managed/Messages.antt =====
-- managed_agent_backend_v2.py: the events that a caller's messages become, and the tools that the
-- provider is told of. `print` is `str` on dictionaries and lists.
pub mod Shape
use copass.Prelude.{
  String, Bool, true, false, Option, none, some, List, [], ◌∷◌, ◌++◌, ◌==◌, if◌then◌else◌, or_else,
}
use copass.Json.{
  Value, null, bool, num, str, arr, obj, Items, no_items, item, Fields, end, field, field_at,
}
use copass.Json.Sanitize.{sanitize_input_schema}
use copass.Agents.Tools.{ToolSpec}

pub data Messages : Type 0 where
  text : String → Messages
  listed : List Value → Messages

abbrev pub text_block : String → Value
text_block s = obj (field "type" (str "text") (field "text" (str s) end))

abbrev pub user_event : Items → Value
user_event blocks = obj (field "type" (str "user.message") (field "content" (arr blocks) end))

-- `str(x)`
abbrev pub str_of : (Value → String) → Value → String
str_of print null = "None"
str_of print (bool true) = "True"
str_of print (bool false) = "False"
str_of print (num n) = n
str_of print (str s) = s
str_of print v = print v

abbrev pub is_user : Value → Bool
is_user (str s) = s == "user"
is_user _ = false

-- A block that is a dictionary stays, and any other becomes a text block.
abbrev pub to_block : (Value → String) → Value → Value
to_block print (obj fs) = obj fs
to_block print v = text_block (str_of print v)

unfoldable pub to_blocks : (Value → String) → Items → Items
to_blocks print no_items = no_items
to_blocks print (item v vs) = item (to_block print v) (to_blocks print vs)

unfoldable pub content_blocks : (Value → String) → Value → Items
unfolding to_blocks
content_blocks print (arr xs) = to_blocks print xs
content_blocks print v = item (text_block (str_of print v)) no_items

abbrev pub role_of : Value → Value
role_of (obj fs) = or_else (field_at "role" fs) (str "user")
role_of _ = str "user"

abbrev pub content_of : Value → Value
content_of (obj fs) = or_else (field_at "content" fs) (str "")
content_of _ = str ""

-- Messages of other roles are dropped.
unfoldable pub normalize_list : (Value → String) → List Value → List Value
unfolding content_blocks
normalize_list print [] = []
normalize_list print (m ∷ ms) =
    let rest = normalize_list print ms in
    if is_user (role_of m) then user_event (content_blocks print (content_of m)) ∷ rest else rest

-- `_normalize_messages`
unfoldable pub normalize_messages : (Value → String) → Messages → List Value
unfolding normalize_list
normalize_messages print (text s) = user_event (item (text_block s) no_items) ∷ []
normalize_messages print (listed ms) = normalize_list print ms

abbrev pub builtin_tool : Value
builtin_tool = obj (field "type" (str "agent_toolset_20260401") end)

abbrev pub gateway_tool : String → Value
gateway_tool name = obj (
    field "type" (str "mcp_toolset") (
      field "mcp_server_name" (str name) (
        field "default_config"
          (obj (field "permission_policy" (obj (field "type" (str "always_allow") end)) end)) end)))

unfoldable pub custom_tool : ToolSpec → Value
custom_tool spec = obj (
    field "type" (str "custom") (
      field "name" (str spec.name) (
        field "description" (str spec.description)
          (field "input_schema" (sanitize_input_schema spec.input_schema) end))))

unfoldable pub custom_tools : List ToolSpec → List Value
unfolding custom_tool
custom_tools [] = []
custom_tools (spec ∷ specs) = custom_tool spec ∷ custom_tools specs

-- `_specs_to_tools`
unfoldable pub specs_to_tools : Bool → Bool → String → List ToolSpec → List Value
unfolding custom_tools
specs_to_tools builtin gateway gateway_name specs =
    (if builtin then builtin_tool ∷ [] else [])
    ++ ((if gateway then gateway_tool gateway_name ∷ [] else []) ++ custom_tools specs)
