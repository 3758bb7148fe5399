-- ===== src/Managed/Examples/Start.antt =====
-- A turn from its messages to its cleanup, and the theorems at it.
use copass.Prelude.{false, String, ◌≡◌, refl, true, none, List, [], ◌∷◌}
use copass.Dict.{get}
use copass.Json.{Value, arr, no_items, item, field_at, str, obj, end, field}
use copass.Agents.Build.{BaseAgent, static_wins, build_tools}
use copass.Managed.Messages.{Messages, text, listed, text_block, user_event, normalize_messages}
use copass.Managed.Start.{
  Provider, answers, Started, session_created, stream_closed, session_deleted, stream_impl,
}
use copass.Managed.Setup.{Backend}
use copass.Managed.Start.Sessions.{Sessions}
use copass.Agents.Tools.{ToolSpec}
use copass.Managed.Cycle.{accepted}
use copass.Managed.Turn.{default_policy}
use copass.Managed.Examples.{nobody, tools, feed, echo, boom}

abbrev backend : Backend
backend = record {
  policy = default_policy;
  include_builtin_toolset = true;
  delete_session_on_finish = true;
  use_gateway_mcp = false;
  gateway_mcp_url = "https://mcp";
  gateway_mcp_name = "copass";
}

abbrev provider : Provider
provider = record {
  bind = λ user agent request. answers (record {
    agent_id = "agent_1";
    environment_id = "env_1";
    for_version = 1;
    provisioned_at = "2026-01-01T00:00:00Z";
  });
  create_session = λ request. answers "s";
  open_stream = λ id. answers feed;
  server = λ before batch. accepted;
}

abbrev helper : BaseAgent
helper = record {
  identity = "helper";
  model = "m";
  system_prompt = "p";
  tools = tools;
  tool_resolver = none;
  on_conflict = static_wins;
}

abbrev print : Value → String
print v = "{}"

abbrev started : Started
started = stream_impl print backend provider helper (text "hi") nobody

-- A turn without a session of its own makes one, and deletes it behind.
started_effects :
    started.effects
    ≡ session_created
        (record { agent = "agent_1"; environment_id = "env_1"; title = "helper"; vault_ids = [] })
        "s"
      ∷ stream_closed "s"
      ∷ session_deleted "s"
      ∷ []
unfolding stream_impl normalize_messages build_tools get
started_effects = refl

abbrev messages : Messages
messages = listed (
    obj (field "role" (str "user") (field "content" (str "hi") end))
    ∷ obj (field "role" (str "assistant") (field "content" (str "ho") end))
    ∷ obj (field "content" (arr (item (str "a") no_items)) end)
    ∷ [])

normalize_messages_out :
    normalize_messages print messages
    ≡ user_event (item (text_block "hi") no_items)
      ∷ user_event (item (text_block "a") no_items)
      ∷ []
unfolding normalize_messages field_at
normalize_messages_out = refl

abbrev specs : List ToolSpec
specs = echo.spec ∷ boom.spec ∷ []
