-- ===== src/ManagedV1/Examples.antt =====
-- Concrete turns of the first backend, and the theorems at them.
use copass.Prelude.{String, ◌≡◌, refl, true, false, none, some, List, [], ◌∷◌, map}
use copass.Dict.{get, has, put, remove}
use copass.Json.{Value, str, obj, Fields, end, field, bool}
use copass.Agents.Events.{tool_call, tool_result, finish, AgentInvocationContext}
use copass.Agents.Tools.{Outcome, AgentTool, try_get}
use copass.Agents.Build.{BaseAgent, static_wins, built, build_tools}
use copass.Managed.Call.{serialize_tool_result, custom_tool_result, tool_confirmation}
use copass.Managed.Messages.{text, normalize_messages}
use copass.Managed.Sdk.{StopReason, SdkEvent, kind_of}
use copass.Managed.Start.{answers}
use copass.Managed.Stream.{Feed, closed, broken, next}
use copass.ManagedV1.{event, replies, Session, Turn, Run, new_run}
use copass.ManagedV1.Answer.{build_user_event_for_tool_use, on_requires_action}
use copass.ManagedV1.Answer.Cases.{Cases}
use copass.ManagedV1.Answer.Cases.Outcome.{on_requires_action-Cases}
use copass.ManagedV1.Loop.{returned, drive}
use copass.ManagedV1.Loop.Finish.{EndsWell, drive_new-EndsWell}
use copass.ManagedV1.Setup.{Options, Cache, ensure_agent_id, ensure_environment_id}
use copass.ManagedV1.Start.{Provider, Call, fingerprint, stream, streams}
use copass.ManagedV1.Start.Warm.{Warm, stream-Warm}

abbrev nobody : AgentInvocationContext
nobody = record {
  scope = record { user_id = "u"; sandbox_id = none; project_id = none };
  trace_id = none;
  dek = none;
  handles = [];
}

-- A tool that gives its arguments back.
abbrev echo : AgentTool
echo = record {
  spec = record { name = "echo"; description = "echoes"; input_schema = obj end };
  invoke = λ arguments context. Outcome.returned (obj arguments);
}

abbrev blank : SdkEvent
blank = record {
  type = none;
  id = none;
  name = none;
  input = none;
  content = [];
  stop_reason = none;
  model_usage = none;
}

abbrev arguments : Fields
arguments = field "x" (str "1") end

abbrev asks : SdkEvent
asks = record blank {
  type = some "agent.custom_tool_use";
  id = some "b";
  name = some "echo";
  input = some (obj arguments);
}

abbrev confirms : SdkEvent
confirms = record blank { type = some "agent.tool_use"; id = some "a"; name = some "bash" }

-- The stream shows one of the two calls; the session's log has the other, behind a message.
abbrev session : Session
session = record {
  send = λ before batch. none;
  log = λ before.
      next (record blank { type = some "agent.message"; id = some "m" })
        (next confirms (broken "gone"));
}

abbrev turn : Turn
turn = record { session_id = "s"; tools = ("echo", echo) ∷ []; context = nobody; session = session }

abbrev stop : StopReason
stop = record { type = some "requires_action"; event_ids = "b" ∷ "a" ∷ [] }

abbrev waits : SdkEvent
waits = record blank { type = some "session.status_idle"; stop_reason = some stop }

abbrev ends : SdkEvent
ends = record blank { type = some "session.status_terminated" }

abbrev feed : Feed
feed = next asks (next waits (next ends closed))

abbrev outcome : Run
outcome = record {
  pending = [];
  envelope = [];
  usage_accumulator = [];
  seen_unknown_event_types = [];
  out =
      event (tool_call "b" "echo" arguments)
      ∷ event (tool_result "b" "echo" arguments none)
      ∷ event (tool_result "a" "bash" (field "confirmed" (bool true) end) none)
      ∷ event (finish "terminated" [] (some "s"))
      ∷ [];
  posts =
      replies (
        custom_tool_result "b" (record { result = some (obj arguments); error = none })
        ∷ tool_confirmation "a"
        ∷ [])
      ∷ [];
}

-- The call that only the log has is answered, and its result is yielded with no call before it.
whole_turn : drive turn feed new_run ≡ returned outcome
unfolding drive kind_of has put remove get build_user_event_for_tool_use try_get
    serialize_tool_result
whole_turn = refl

-- A stream that ends early gives no final event.
closed_turn : drive turn closed new_run ≡ returned new_run
unfolding drive
closed_turn = refl

on_requires_action-Cases_example :
    Cases turn ("b" ∷ "a" ∷ []) new_run (on_requires_action turn stop new_run)
on_requires_action-Cases_example = on_requires_action-Cases turn stop new_run

drive_new-EndsWell_example : EndsWell turn feed (drive turn feed new_run)
drive_new-EndsWell_example = drive_new-EndsWell turn feed

abbrev options : Options
options = record {
  environment_name = "env";
  environment_config = end;
  include_builtin_toolset = false;
  delete_session_on_finish = true;
  use_gateway_mcp = false;
  gateway_mcp_url = "https://mcp";
  gateway_mcp_name = "copass";
}

abbrev agent_named : String → BaseAgent
agent_named prompt = record {
  identity = "helper";
  model = "m";
  system_prompt = prompt;
  tools = [];
  tool_resolver = none;
  on_conflict = static_wins;
}

abbrev call_with : String → Call
call_with prompt = record { agent = agent_named prompt; messages = text "hi"; context = nobody }

-- The second part of a fingerprint is the prompt, which stands for the digest here.
abbrev second : List String → String
second (model ∷ prompt ∷ rest) = prompt
second _ = ""

abbrev provider : Provider
provider = record {
  resources = record {
    create_agent = λ before request. answers request.system;
    create_environment = λ name config. answers "env_1";
    create_session = λ request. answers "s";
  };
  open_stream = λ id. answers feed;
  session = λ id. session;
  digest = second;
  dumps = λ v. "{}";
}

abbrev print : Value → String
print v = "{}"

abbrev warm : Cache
warm = record {
  agent_ids = ("p", "agent_1") ∷ [];
  environment_id = some "env_1";
  created_agents = [];
  created_environments = [];
}

abbrev after_two : Cache
after_two = streams print options provider (call_with "q" ∷ call_with "r" ∷ []) warm

-- The first call with another prompt makes an agent.
creates_two : map (λ request. request.system) after_two.created_agents ≡ "q" ∷ "r" ∷ []
unfolding streams build_tools get put normalize_messages ensure_agent_id ensure_environment_id
creates_two = refl

abbrev call : Call
call = call_with "p"

is_built : build_tools call.agent call.context ≡ built []
unfolding build_tools
is_built = refl

is_warm : Warm (fingerprint options provider call []) "agent_1" "env_1" warm
unfolding get fingerprint
is_warm = record { agents = refl; environments = refl }

stream-Warm_example :
    Warm (fingerprint options provider call []) "agent_1" "env_1" after_two
    × ((stream print options provider call after_two).1 ≡ after_two)
stream-Warm_example =
    stream-Warm print options provider call (call_with "q" ∷ call_with "r" ∷ []) [] "agent_1"
      "env_1" warm is_built is_warm
