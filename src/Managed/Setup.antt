-- ===== src/Managed/Setup.antt =====
-- managed_agent_backend_v2.py: what a turn asks the provider for, an agent and a session, from the
-- backend's options and the handles of the context. A session id is a text, and the handle of vault
-- ids holds texts, as their documentation says.
use Prim.Native.String.{◌++◌ as text_append}
use copass.Prelude.{String, Bool, Option, none, some, List, [], ◌∷◌, ◌==◌, if◌then◌else◌}
use copass.Dict.{get}
use copass.Json.{Value, bool, str, arr, Items, no_items, item}
use copass.Agents.Events.{AgentInvocationContext}
use copass.Agents.Tools.{AgentToolRegistry, list_specs}
use copass.Agents.Build.{BaseAgent}
use copass.Bindings.{ProviderBinding}
use copass.Managed.Messages.{specs_to_tools}
use copass.Managed.Turn.{BackendRunPolicy}

pub record Backend : Type 0 where
  pub policy : BackendRunPolicy
  pub include_builtin_toolset : Bool
  pub delete_session_on_finish : Bool
  pub use_gateway_mcp : Bool
  pub gateway_mcp_url : String
  pub gateway_mcp_name : String

-- The `agents.create` of `_provision_anthropic_agent`: its arguments.
pub record AgentRequest : Type 0 where
  pub name : String
  pub model : String
  pub system : String
  pub tools : List Value
  pub mcp_server : Option (String × String)

pub record SessionRequest : Type 0 where
  pub agent : String
  pub environment_id : String
  pub title : String
  pub vault_ids : List String

-- The per-invocation override of the gateway flag.
unfoldable pub gateway_of : Backend → AgentInvocationContext → Bool
gateway_of b context = elim (get context.handles "managed_agent_use_gateway_mcp") [
  | some (bool override) ↦ override
  | _ ↦ b.use_gateway_mcp
]

unfoldable pub texts_of : Items → List String
texts_of no_items = []
texts_of (item (str s) vs) = let rest = texts_of vs in if s == "" then rest else s ∷ rest
texts_of (item _ vs) = texts_of vs

-- The vault ids; none of them is the same as no handle.
unfoldable pub vault_ids_of : AgentInvocationContext → List String
unfolding texts_of
vault_ids_of context = elim (get context.handles "managed_agent_vault_ids") [
  | some (arr vs) ↦ texts_of vs
  | _ ↦ []
]

unfoldable pub supplied_session_id : AgentInvocationContext → Option String
supplied_session_id context = elim (get context.handles "managed_agent_session_id") [
  | some (str s) ↦ if s == "" then none else some s
  | _ ↦ none
]

-- `_session_title`
unfoldable pub session_title : BaseAgent → AgentInvocationContext → String
session_title agent context = elim context.trace_id [
  | none ↦ agent.identity
  | some t ↦ if t == "" then agent.identity else text_append (text_append agent.identity ":") t
]

abbrev pub or_default_title : String → String
or_default_title title = if title == "" then "copass agent session" else title

-- The arguments that `_provision_anthropic_agent` gives to `agents.create`.
unfoldable pub agent_request : Backend → BaseAgent → AgentToolRegistry → Bool → AgentRequest
agent_request b agent tools gateway = record {
  name = text_append "agent-" agent.identity;
  model = agent.model;
  system = agent.system_prompt;
  tools = specs_to_tools b.include_builtin_toolset gateway b.gateway_mcp_name (list_specs tools);
  mcp_server = if gateway then some (b.gateway_mcp_name, b.gateway_mcp_url) else none;
}

-- `_create_session`
unfoldable pub session_request :
    BaseAgent → AgentInvocationContext → ProviderBinding → SessionRequest
unfolding session_title vault_ids_of
session_request agent context binding = record {
  agent = binding.agent_id;
  environment_id = binding.environment_id;
  title = or_default_title (session_title agent context);
  vault_ids = vault_ids_of context;
}
