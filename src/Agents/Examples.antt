-- ===== src/Agents/Examples.antt =====
-- Concrete registries, resolvers and merges, and the theorems at them.
use copass.Prelude.{String, ◌≡◌, refl, true, none, some, List, [], ◌∷◌, arith, eq_iff, contains}
use copass.Dict.{get, put, keys}
use copass.Sorted.{sorted}
use copass.Json.{str, obj, end}
use copass.Agents.Events.{AgentInvocationContext}
use copass.Agents.Tools.{
  Outcome, AgentTool, AgentToolRegistry, tools_at, add_tool, extend, IsKeyed, last_named, iterate,
}
use copass.Agents.Build.{
  ToolConflictPolicy, error, static_wins, BaseAgent, merge, base_agent, built, conflict,
  build_tools,
}
use copass.Agents.Build.Choice.{chosen, dynamic_of, get-build_tools}
use copass.Agents.Build.Conflict.{is_shared, build_tools-conflict}

abbrev nobody : AgentInvocationContext
nobody = record {
  scope = record { user_id = "u"; sandbox_id = none; project_id = none };
  trace_id = none;
  dek = none;
  handles = [];
}

abbrev tool : String → String → AgentTool
tool name description = record {
  spec = record { name = name; description = description; input_schema = obj end };
  invoke = λ arguments context. Outcome.returned (str description);
}

abbrev statics : AgentToolRegistry
statics = ("send", tool "send" "static") ∷ ("ask", tool "ask" "static") ∷ []

statics-IsKeyed : IsKeyed statics
unfolding get
statics-IsKeyed = record { at_name = λ k t e. ground (arith, eq_iff "send" k, eq_iff "ask" k) }

abbrev dynamics : AgentInvocationContext → List AgentTool
dynamics context = tool "send" "dynamic" ∷ tool "find" "dynamic" ∷ []

abbrev agent : ToolConflictPolicy → BaseAgent
agent policy = record {
  identity = "a";
  model = "m";
  system_prompt = "p";
  tools = statics;
  tool_resolver = some dynamics;
  on_conflict = policy;
}

base_agent_out :
    base_agent "a" "m" "p" (some statics) (some dynamics) "static_wins" ≡ some (agent static_wins)
unfolding base_agent
base_agent_out = refl

-- An agent needs tools or a resolver, and a known policy.
base_agent_refused : base_agent "a" "m" "p" none none "error" ≡ none
unfolding base_agent
base_agent_refused = refl

base_agent_unknown : base_agent "a" "m" "p" (some statics) none "newest_wins" ≡ none
unfolding base_agent
base_agent_unknown = refl

abbrev merged : AgentToolRegistry
merged =
    ("find", tool "find" "dynamic")
    ∷ ("ask", tool "ask" "static")
    ∷ ("send", tool "send" "static")
    ∷ []

agent-built : build_tools (agent static_wins) nobody ≡ built merged
unfolding build_tools merge extend iterate tools_at sorted keys get add_tool put
agent-built = refl

agent-conflict : build_tools (agent error) nobody ≡ conflict ("send" ∷ [])
unfolding build_tools iterate tools_at sorted keys get
agent-conflict = refl

get-build_tools_example :
    IsKeyed merged
    × ((k : String)
        → get merged k
          ≡ chosen static_wins (get statics k) (last_named (dynamic_of (some dynamics) nobody) k))
get-build_tools_example =
    get-build_tools (agent static_wins) nobody merged statics-IsKeyed agent-built

build_tools-conflict_example :
    (error ≡ error)
    × ((k : String)
        → contains ("send" ∷ []) k ≡ is_shared statics (dynamic_of (some dynamics) nobody) k)
    × ((k : String) × (is_shared statics (dynamic_of (some dynamics) nobody) k ≡ true))
build_tools-conflict_example =
    build_tools-conflict (agent error) nobody ("send" ∷ []) statics-IsKeyed agent-conflict
