-- ===== src/ManagedV1/Setup.antt =====
-- managed_agent_backend.py: the provider-side resources that the backend caches, and the session of a
-- turn. `digest` is the SHA-256 of the parts of a fingerprint joined by a zero byte, `dumps` is
-- `json.dumps` with sorted keys. The handle of a session id is a text, as its documentation says.
use Prim.Native.String.{◌++◌ as text_append}
use copass.Prelude.{String, Bool, Option, none, some, List, [], ◌∷◌, ◌++◌, if◌then◌else◌}
use copass.Dict.{Dict, get, put}
use copass.Json.{Value, bool, Fields}
use copass.Agents.Events.{AgentInvocationContext}
use copass.Agents.Tools.{ToolSpec, AgentToolRegistry, list_specs}
use copass.Agents.Build.{BaseAgent}
use copass.Managed.Messages.{specs_to_tools}
use copass.Managed.Setup.{AgentRequest, SessionRequest}
use copass.Managed.Start.{Answer, answers, fails}

-- The options of the constructor.
pub record Options : Type 0 where
  pub environment_name : String
  pub environment_config : Fields
  pub include_builtin_toolset : Bool
  pub delete_session_on_finish : Bool
  pub use_gateway_mcp : Bool
  pub gateway_mcp_url : String
  pub gateway_mcp_name : String

-- What the backend keeps between turns, and what it has asked the provider to create.
pub record Cache : Type 0 where
  pub agent_ids : Dict String
  pub environment_id : Option String
  pub created_agents : List AgentRequest
  pub created_environments : List String

abbrev pub new_cache : Cache
new_cache = record {
  agent_ids = [];
  environment_id = none;
  created_agents = [];
  created_environments = [];
}

-- `agents.create` after some others, `environments.create` and `sessions.create`.
pub record Resources : Type 0 where
  pub create_agent : List AgentRequest → AgentRequest → Answer String
  pub create_environment : String → Fields → Answer String
  pub create_session : SessionRequest → Answer String

abbrev pub flag : String → Bool → String
flag name b = text_append name (if b then "True" else "False")

abbrev pub spec_parts : (Value → String) → List ToolSpec → List String
spec_parts dumps [] = []
spec_parts dumps (spec ∷ specs) =
    spec.name ∷ spec.description ∷ dumps spec.input_schema ∷ spec_parts dumps specs

-- The parts of `_fingerprint_agent`.
unfoldable pub fingerprint_parts :
    (Value → String) → Options → BaseAgent → AgentToolRegistry → Bool → List String
fingerprint_parts dumps b agent tools gateway =
    agent.model
    ∷ agent.system_prompt
    ∷ flag "builtin=" b.include_builtin_toolset
    ∷ flag "gateway_mcp=" gateway
    ∷ text_append "gateway_url=" b.gateway_mcp_url
    ∷ text_append "gateway_name=" b.gateway_mcp_name
    ∷ spec_parts dumps (list_specs tools)

-- The arguments of `agents.create`.
unfoldable pub create_kwargs : Options → BaseAgent → AgentToolRegistry → Bool → AgentRequest
create_kwargs b agent tools gateway = record {
  name = text_append "agent-" agent.identity;
  model = agent.model;
  system = agent.system_prompt;
  tools = specs_to_tools b.include_builtin_toolset gateway b.gateway_mcp_name (list_specs tools);
  mcp_server = if gateway then some (b.gateway_mcp_name, b.gateway_mcp_url) else none;
}

unfoldable pub store_agent : Cache → String → AgentRequest → Answer String → Answer String × Cache
store_agent c key request (fails e) =
    (fails e, record c { created_agents = c.created_agents ++ request ∷ [] })
store_agent c key request (answers id) = (
  answers id,
  record c {
    agent_ids = put c.agent_ids key id;
    created_agents = c.created_agents ++ request ∷ [];
  },
)

-- `_ensure_agent_id`, for a fingerprint and what would be created.
unfoldable pub ensure_agent_id :
    (List AgentRequest → AgentRequest → Answer String)
    → Cache
    → String
    → AgentRequest
    → Answer String × Cache
unfolding store_agent
ensure_agent_id create c key request = elim (get c.agent_ids key) [
  | some cached ↦ (answers cached, c)
  | none ↦ store_agent c key request (create c.created_agents request)
]

unfoldable pub store_environment : Cache → String → Answer String → Answer String × Cache
store_environment c name (fails e) =
    (fails e, record c { created_environments = c.created_environments ++ name ∷ [] })
store_environment c name (answers id) = (
  answers id,
  record c { environment_id = some id; created_environments = c.created_environments ++ name ∷ [] },
)

-- `_ensure_environment_id`
unfoldable pub ensure_environment_id :
    (String → Fields → Answer String) → Options → Cache → Answer String × Cache
unfolding store_environment
ensure_environment_id create b c = elim c.environment_id [
  | some id ↦ (answers id, c)
  | none ↦ store_environment c b.environment_name (create b.environment_name b.environment_config)
]

-- The per-invocation override of the gateway flag.
unfoldable pub use_gateway : Options → AgentInvocationContext → Bool
use_gateway b context = elim (get context.handles "managed_agent_use_gateway_mcp") [
  | some (bool override) ↦ override
  | _ ↦ b.use_gateway_mcp
]
