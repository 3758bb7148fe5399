-- ===== src/Managed/Sdk.antt =====
-- The events of the provider's stream as managed_agent_backend_v2.py reads them, attribute by
-- attribute with `getattr`, and _stream_event_types.py, the names that it tells apart.
use copass.Prelude.{ℕ, String, Option, none, some, List, [], ◌∷◌, ◌==◌, if◌then◌else◌, contains}
use copass.Dict.{Dict}
use copass.Json.{Value}

pub record Block : Type 0 where
  pub type : Option String
  pub text : Option String

pub record StopReason : Type 0 where
  pub type : Option String
  pub event_ids : List String

-- An attribute that is missing, or is `None`, is `none`; `model_usage` has those of its attributes
-- that are integers.
pub record SdkEvent : Type 0 where
  pub type : Option String
  pub id : Option String
  pub name : Option String
  pub input : Option Value
  pub content : List Block
  pub stop_reason : Option StopReason
  pub model_usage : Option (Dict ℕ)

abbrev pub idle_event_types : List String
idle_event_types = "session.status_idle" ∷ "session.thread_status_idle" ∷ []

abbrev pub terminated_event_types : List String
terminated_event_types = "session.status_terminated" ∷ "session.thread_status_terminated" ∷ []

abbrev pub known_noop_event_types : List String
known_noop_event_types =
    "session.status_running" ∷ "session.status_rescheduled" ∷ "session.deleted"
    ∷ "session.thread_status_running" ∷ "user.message" ∷ "user.custom_tool_result"
    ∷ "user.tool_confirmation" ∷ "user.tool_result" ∷ "user.interrupt" ∷ "agent.thinking"
    ∷ "agent.thread_context_compacted" ∷ "agent.tool_result" ∷ "agent.mcp_tool_result"
    ∷ "span.model_request_start" ∷ []

pub data Envelope : Type 0 where
  custom_tool_use server_tool_use mcp_tool_use : Envelope

-- The loop's tests on the event type, in its order.
pub data Kind : Type 0 where
  message : Kind
  tool_use : Envelope → Kind
  idle terminated session_error model_request_end noop : Kind
  unknown : Kind

unfoldable pub kind_of_name : String → Kind
kind_of_name t =
    if t == "agent.message"
    then message
    else if t == "agent.custom_tool_use"
    then tool_use custom_tool_use
    else if t == "agent.tool_use"
    then tool_use server_tool_use
    else if t == "agent.mcp_tool_use"
    then tool_use mcp_tool_use
    else if contains idle_event_types t
    then idle
    else if contains terminated_event_types t
    then terminated
    else if t == "session.error"
    then session_error
    else if t == "span.model_request_end"
    then model_request_end
    else if contains known_noop_event_types t
    then noop
    else unknown

unfoldable pub kind_of : Option String → Kind
unfolding kind_of_name
kind_of none = unknown
kind_of (some t) = kind_of_name t

-- `x or ""`
abbrev pub or_empty : Option String → String
or_empty none = ""
or_empty (some s) = s

-- `not x` on an id is true of `None` and of the empty text.
abbrev pub nonempty : Option String → Option String
nonempty none = none
nonempty (some s) = if s == "" then none else some s
