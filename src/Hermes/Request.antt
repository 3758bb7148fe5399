-- ===== src/Hermes/Request.antt =====
-- hermes_agent_backend.py: the request of `stream`, from the agent, the messages and the context.
use Prim.Native.String.{◌++◌ as text_append}
use copass.Prelude.{
  ℕ, String, Option, none, some, List, [], ◌∷◌, ◌++◌, ◌==◌, eqb, ltb, if◌then◌else◌, or_else,
}
use copass.Dict.{Dict, get}
use copass.Json.{Value, bool, num, str, arr, obj, Items, no_items, item, field_at}
use copass.Agents.Events.{AgentInvocationContext}
use copass.Agents.Build.{BaseAgent}
use copass.Managed.Messages.{Messages, text, listed, str_of}
use copass.Text.{Text, codes, strip, is_empty}
use copass.Json.Truth.{int_of}
use copass.Hermes.Stream.{drop_prefix}

pub record Backend : Type 0 where
  pub endpoint_url : Text
  pub api_server_key : String
  pub preview_token : Option String
  pub default_model : String

unfoldable pub rstrip_slash : Text → Text
rstrip_slash [] = []
rstrip_slash (c ∷ s) = elim (rstrip_slash s) [
  | [] ↦ if eqb c 47 then [] else c ∷ []
  | d ∷ t ↦ c ∷ d ∷ t
]

abbrev pub nonempty_token : Option String → Option String
nonempty_token none = none
nonempty_token (some t) = if t == "" then none else some t

-- `__init__`; `none` is its `ValueError`.
unfoldable pub new_backend : Text → String → Option String → String → Option Backend
unfolding rstrip_slash
new_backend endpoint key token default_model =
    if is_empty endpoint
    then none
    else if key == ""
    then none
    else some (record {
      endpoint_url = rstrip_slash endpoint;
      api_server_key = key;
      preview_token = nonempty_token token;
      default_model = default_model;
    })

-- `set_preview_token`
unfoldable pub set_preview_token : Backend → Option String → Backend
set_preview_token b token = record b { preview_token = nonempty_token token }

-- `_strip_model_prefix`; `none` is its `ValueError`.
unfoldable pub strip_model_prefix : String → Option Text
unfolding drop_prefix
strip_model_prefix model = drop_prefix (codes "hermes/") (codes model)

unfoldable pub resolve_model_id : Backend → BaseAgent → Option Text
unfolding strip_model_prefix
resolve_model_id b agent =
    strip_model_prefix (if agent.model == "" then b.default_model else agent.model)

pub record ChatMessage : Type 0 where
  pub role : Value
  pub content : String

-- The text of a block: that of a text block, or a block that is a text itself.
unfoldable pub block_text : (Value → String) → Value → String
block_text print (obj fs) = elim (field_at "type" fs) [
  | some (str kind) ↦
      if kind == "text" then str_of print (or_else (field_at "text" fs) (str "")) else ""
  | _ ↦ ""
]
block_text print (str s) = s
block_text print _ = ""

-- `"\n".join(p for p in text_parts if p)`; `more` is the text in front.
abbrev pub join_part : String → String → String
join_part part rest =
    if part == ""
    then rest
    else if rest == ""
    then part
    else text_append part (text_append "\n" rest)

unfoldable pub join_blocks : (Value → String) → Items → String
unfolding block_text
join_blocks print no_items = ""
join_blocks print (item v vs) = join_part (block_text print v) (join_blocks print vs)

unfoldable pub chat_content : (Value → String) → Value → String
unfolding join_blocks
chat_content print (arr blocks) = join_blocks print blocks
chat_content print v = str_of print v

unfoldable pub chat_messages : (Value → String) → List Value → List ChatMessage
unfolding chat_content
chat_messages print [] = []
chat_messages print (obj fs ∷ rest) =
    record {
      role = or_else (field_at "role" fs) (str "user");
      content = chat_content print (or_else (field_at "content" fs) (str ""));
    }
    ∷ chat_messages print rest
chat_messages print (v ∷ rest) = chat_messages print rest

unfoldable pub from_messages : (Value → String) → Messages → List ChatMessage
unfolding chat_messages
from_messages print (text s) = record { role = str "user"; content = s } ∷ []
from_messages print (listed ms) = chat_messages print ms

-- `_build_chat_messages`
unfoldable pub build_chat_messages : (Value → String) → BaseAgent → Messages → List ChatMessage
unfolding from_messages
build_chat_messages print agent messages =
    (if is_empty (strip (codes agent.system_prompt))
      then []
      else record { role = str "system"; content = agent.system_prompt } ∷ [])
    ++ from_messages print messages

pub record Request : Type 0 where
  pub url : Text
  pub headers : Dict String
  pub model : Text
  pub messages : List ChatMessage
  pub max_tokens : Option Value
  pub temperature : Option Value

abbrev pub positive : Value → Option ℕ → Option Value
positive v none = none
positive v (some n) = if ltb 0 n then some v else none

unfoldable pub max_tokens_of : Option Value → Option Value
max_tokens_of none = none
max_tokens_of (some v) = positive v (int_of v)

-- A number, whose float has the same value.
unfoldable pub temperature_of : Option Value → Option Value
temperature_of (some (num n)) = some (num n)
temperature_of (some (bool b)) = some (bool b)
temperature_of _ = none

abbrev pub preview_header : Option String → Dict String
preview_header none = []
preview_header (some token) = ("x-daytona-preview-token", token) ∷ []

-- The request of `stream`; `none` is the `ValueError` of a model without the prefix.
unfoldable pub request_of :
    (Value → String) → Backend → BaseAgent → Messages → AgentInvocationContext → Option Request
unfolding build_chat_messages resolve_model_id max_tokens_of temperature_of
request_of print b agent messages context = elim (resolve_model_id b agent) [
  | none ↦ none
  | some model ↦ some (record {
    url = b.endpoint_url ++ codes "/v1/chat/completions";
    headers =
        ("Authorization", text_append "Bearer " b.api_server_key)
        ∷ ("Content-Type", "application/json")
        ∷ ("Accept", "text/event-stream")
        ∷ preview_header b.preview_token;
    model = model;
    messages = build_chat_messages print agent messages;
    max_tokens = max_tokens_of (get context.handles "max_tokens");
    temperature = temperature_of (get context.handles "temperature");
  })
]
