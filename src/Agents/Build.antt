-- ===== src/Agents/Build.antt =====
-- base_agent.py and tool_resolver.py: an agent's construction, and the tools of one invocation,
-- merged from its static registry and the tools that its resolver produces.
pub mod Choice
pub mod Conflict
use mathlib.Core.Path.{subst}
use copass.Prelude.{
  String, ◌≡◌, refl, Bool, true, false, not, ◌&&◌, Option, none, some, List, [], ◌∷◌, sym, ◌∙◌,
  arith, ◌==◌, eq_iff, if◌then◌else◌, contains, Bool-cases, inl, inr, is_some, or_else, ap,
}
use copass.Dict.{get}
use copass.Sorted.{sorted, contains-sorted}
use copass.Agents.Events.{AgentInvocationContext}
use copass.Agents.Tools.{
  AgentTool, name_of, AgentToolRegistry, extend, iterate, IsKeyed, empty-IsKeyed, extend-IsKeyed,
  last_named, or_first, get-extend, last_named-iterate,
}

pub data ToolConflictPolicy : Type 0 where
  error dynamic_wins static_wins : ToolConflictPolicy

abbrev pub policy_of : String → Option ToolConflictPolicy
policy_of s =
    if s == "error"
    then some error
    else if s == "dynamic_wins"
    then some dynamic_wins
    else if s == "static_wins"
    then some static_wins
    else none

pub record BaseAgent : Type 0 where
  pub identity : String
  pub model : String
  pub system_prompt : String
  pub tools : AgentToolRegistry
  pub tool_resolver : Option (AgentInvocationContext → List AgentTool)
  pub on_conflict : ToolConflictPolicy

-- `__init__`; `none` is its `ValueError`.
unfoldable pub base_agent :
    String
    → String
    → String
    → Option AgentToolRegistry
    → Option (AgentInvocationContext → List AgentTool)
    → String
    → Option BaseAgent
base_agent identity model system_prompt tools tool_resolver on_conflict =
    if not (is_some tools) && not (is_some tool_resolver)
    then none
    else elim (policy_of on_conflict) [
      | none ↦ none
      | some policy ↦ some (record {
        identity = identity;
        model = model;
        system_prompt = system_prompt;
        tools = or_else tools [];
        tool_resolver = tool_resolver;
        on_conflict = policy;
      })
    ]

unfoldable pub names : List AgentTool → List String
names [] = []
names (t ∷ ts) = name_of t ∷ names ts

-- The tools whose names are not among some names.
unfoldable pub excluding : List String → List AgentTool → List AgentTool
excluding ns [] = []
excluding ns (t ∷ ts) =
    let rest = excluding ns ts in if contains ns (name_of t) then rest else t ∷ rest

-- `static_names & dynamic_names`
unfoldable pub intersection : List String → List String → List String
intersection [] ns = []
intersection (k ∷ ks) ns = let rest = intersection ks ns in if contains ns k then k ∷ rest else rest

pub data Built : Type 0 where
  built : AgentToolRegistry → Built
  conflict : List String → Built

-- The two loops of the merge, in the order of the policy.
unfoldable pub merge : ToolConflictPolicy → List AgentTool → List AgentTool → AgentToolRegistry
unfolding names excluding
merge static_wins statics dynamics = extend (extend [] (excluding (names statics) dynamics)) statics
merge error statics dynamics = extend (extend [] (excluding (names dynamics) statics)) dynamics
merge dynamic_wins statics dynamics =
    extend (extend [] (excluding (names dynamics) statics)) dynamics

unfoldable pub refuse : ToolConflictPolicy → List String → Bool
refuse error [] = false
refuse error (k ∷ ks) = true
refuse dynamic_wins ks = false
refuse static_wins ks = false

-- The part of `build_tools` behind the early return for an agent with no resolver.
unfoldable pub merge_tools : ToolConflictPolicy → AgentToolRegistry → List AgentTool → Built
unfolding names intersection refuse
merge_tools p tools dynamics =
    let statics : List AgentTool = iterate tools in
    let collisions : List String = intersection (names statics) (names dynamics) in
    if refuse p collisions then conflict (sorted collisions) else built (merge p statics dynamics)

unfoldable pub resolve_tools :
    Option (AgentInvocationContext → List AgentTool)
    → ToolConflictPolicy
    → AgentToolRegistry
    → AgentInvocationContext
    → Built
unfolding merge_tools
resolve_tools none p tools context = built tools
resolve_tools (some resolve) p tools context = merge_tools p tools (resolve context)

unfoldable pub build_tools : BaseAgent → AgentInvocationContext → Built
unfolding resolve_tools
build_tools a context = resolve_tools a.tool_resolver a.on_conflict a.tools context
