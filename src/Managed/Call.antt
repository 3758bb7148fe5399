-- ===== src/Managed/Call.antt =====
-- pending_tool_call.py: the three tool-use envelopes and the replies to them.
-- The text of a `user.custom_tool_result` is the JSON of a payload, and is represented by that
-- payload: `json.loads` gives back what `json.dumps` wrote.
use Prim.Native.String.{◌++◌}
use copass.Prelude.{
  String, ◌≡◌, refl, Option, none, some, ◌==◌, if◌then◌else◌, inl, inr, Option-cases,
}
use copass.Json.{Value, obj, Fields, end, field}
use copass.Agents.Events.{AgentInvocationContext}
use copass.Agents.Tools.{Outcome, AgentToolRegistry, try_get}

pub data PendingToolCall : Type 0 where
  custom_tool_call : (event_id name : String) (arguments : Fields) → PendingToolCall
  server_tool_call : (event_id name : String) → PendingToolCall
  mcp_tool_call : (event_id name : String) → PendingToolCall

abbrev pub event_id : PendingToolCall → String
event_id (custom_tool_call i n a) = i
event_id (server_tool_call i n) = i
event_id (mcp_tool_call i n) = i

abbrev pub call_name : PendingToolCall → String
call_name (custom_tool_call i n a) = n
call_name (server_tool_call i n) = n
call_name (mcp_tool_call i n) = n

-- The arguments that a tool-call event shows: those of a custom call, and none of the others.
abbrev pub shown_arguments : PendingToolCall → Fields
shown_arguments (custom_tool_call i n a) = a
shown_arguments (server_tool_call i n) = end
shown_arguments (mcp_tool_call i n) = end

pub record Payload : Type 0 where
  pub result : Option Value
  pub error : Option String

-- An envelope that the session is sent for one call. `other_reply` has neither id field.
pub data Reply : Type 0 where
  custom_tool_result : (custom_tool_use_id : String) (text : Payload) → Reply
  tool_confirmation : (tool_use_id : String) → Reply
  other_reply : Reply

abbrev pub truthy : Option String → Option String
truthy none = none
truthy (some e) = if e == "" then none else some e

-- `_serialize_tool_result`; `none` stands for a result that `json.dumps` raises on.
unfoldable pub serialize_tool_result : Option Value → Option String → Payload
serialize_tool_result (some result) error = record { result = some result; error = truthy error }
serialize_tool_result none error = record {
  result = none;
  error = some "unserializable tool result";
}

unfoldable pub build_reply_from_result : String → Option Value → Option String → Reply
unfolding serialize_tool_result
build_reply_from_result id result error = custom_tool_result id (serialize_tool_result result error)

-- `repr` of a name that has no quote, backslash or unprintable character.
abbrev pub repr : String → String
repr name = "'" ++ (name ++ "'")

-- The reply to what an invocation gave. An exception becomes an error text, and a result that is
-- no dictionary is wrapped in one.
unfoldable pub reply_to_outcome : String → Outcome → Reply
unfolding build_reply_from_result
reply_to_outcome id (Outcome.raised message) =
    build_reply_from_result id (some (obj end)) (some ("tool raised: " ++ message))
reply_to_outcome id Outcome.unserializable = build_reply_from_result id none none
reply_to_outcome id (Outcome.returned (obj fs)) = build_reply_from_result id (some (obj fs)) none
reply_to_outcome id (Outcome.returned v) =
    build_reply_from_result id (some (obj (field "value" v end))) none

unfoldable pub execute_and_build_reply :
    String → String → Fields → AgentToolRegistry → AgentInvocationContext → Reply
unfolding reply_to_outcome
execute_and_build_reply id name arguments tools context = elim (try_get tools name) [
  | none ↦
      build_reply_from_result id (some (obj end))
        (some ("tool " ++ (repr name ++ " not registered")))
  | some tool ↦ reply_to_outcome id (tool.invoke arguments context)
]

-- `build_reply` of a server or MCP call: the tool runs elsewhere, and is always allowed.
abbrev pub build_reply : String → Reply
build_reply id = tool_confirmation id

unfoldable pub reply_to_call : AgentToolRegistry → AgentInvocationContext → PendingToolCall → Reply
unfolding execute_and_build_reply
reply_to_call tools context (custom_tool_call i n a) = execute_and_build_reply i n a tools context
reply_to_call tools context (server_tool_call i n) = build_reply i
reply_to_call tools context (mcp_tool_call i n) = build_reply i

-- `_reply_id`
unfoldable pub reply_id : Reply → Option String
reply_id (custom_tool_result i text) = some i
reply_id (tool_confirmation i) = some i
reply_id other_reply = none

reply_id-outcome : (id : String) (o : Outcome) → reply_id (reply_to_outcome id o) ≡ some id
unfolding reply_to_outcome reply_id
reply_id-outcome id (Outcome.raised message) = refl
reply_id-outcome id (Outcome.returned (obj fs)) = refl
reply_id-outcome id _ = refl

-- Whatever a tool does (it is missing, raises, or returns anything), the reply is under the call's
-- own id.
pub reply_id-reply_to_call :
    (tools : AgentToolRegistry) (context : AgentInvocationContext) (call : PendingToolCall)
    → reply_id (reply_to_call tools context call) ≡ some (event_id call)
unfolding reply_to_call reply_id
reply_id-reply_to_call tools context (server_tool_call i n) = refl
reply_id-reply_to_call tools context (mcp_tool_call i n) = refl
reply_id-reply_to_call tools context (custom_tool_call i n a) =
    elim (Option-cases (try_get tools n)) [
      | inl e ↦ rw (e, execute_and_build_reply)
      | inr (t, e) ↦ rw (e, execute_and_build_reply) (reply_id-outcome i (t.invoke a context))
    ]
