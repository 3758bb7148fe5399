-- ===== src/CopassAgent.antt =====
-- python/copass-anthropic-agents/src/copass_anthropic_agents/managed_agent.py: an agent that puts
-- context from the sandbox in front of a new conversation, and records the conversation into a
-- window. google_agent.py, of the package for Google, repeats its text with another backend, another
-- session handle and another hint: a `Flavor`.
pub mod Messages
pub mod Context
pub mod Stream
pub mod Recorded
pub mod Conversation
pub mod Projects
pub mod Forwarded
mod Examples
use copass.Prelude.{
  String, Bool, true, false, ◌&&◌, ◌||◌, not, Option, none, some, List, ◌==◌, if◌then◌else◌,
  is_some,
}
use copass.Agents.Events.{AgentInvocationContext}
use copass.Agents.Tools.{AgentTool, AgentToolRegistry}
use copass.Agents.Build.{BaseAgent, base_agent}
use copass.Recorder.{ContextWindow}
use copass.Text.{Text, codes}

pub record Flavor : Type 0 where
  pub session_handle : Option String
  pub hint : Text

abbrev pub managed : Flavor
managed = record {
  session_handle = some "managed_agent_session_id";
  hint =
      codes
        "Call `interpret` with any canonical_ids tuple above for a deeper brief, or `discover` again for more items.";
}

abbrev pub google : Flavor
google = record {
  session_handle = some "agent_engine_session_id";
  hint =
      codes
        "Call `interpret` via `copass_dispatch` with any canonical_ids tuple above for a deeper brief, or `discover` again for more items.";
}

-- A window and the project that its pushes go to.
pub record AgentWindow : Type 0 where
  pub project_id : Option String
  pub window : ContextWindow

-- The arguments of the constructor; of the clients it matters whether they are there.
pub record Arguments : Type 0 where
  pub identity : String
  pub system_prompt : String
  pub model : String
  pub has_backend : Bool
  pub anthropic_api_key : Option String
  pub has_anthropic_client : Bool
  pub tools : Option AgentToolRegistry
  pub tool_resolver : Option (AgentInvocationContext → List AgentTool)
  pub on_conflict : String
  pub has_copass_client : Bool
  pub sandbox_id : Option String
  pub window : Option AgentWindow
  pub prefetch_discover : Bool
  pub auto_record : Bool
  pub author : Option String
  pub project_id : Option String

pub record Agent : Type 0 where
  pub base : BaseAgent
  pub sandbox_id : Option String
  pub window : Option AgentWindow
  pub author : Option String
  pub project_id : Option String
  pub prefetch_discover : Bool
  pub auto_record : Bool

abbrev pub is_set : Option String → Bool
is_set none = false
is_set (some s) = not (s == "")

abbrev pub differ : Option String → Option String → Bool
differ (some a) (some b) = not (a == b)
differ none none = false
differ _ _ = true

-- The project of the agent and its window, once their projects agree; `none` is a `ValueError`.
unfoldable pub unify_projects :
    Option AgentWindow → Option String → Option (Option String × Option AgentWindow)
unify_projects none project = some (project, none)
unify_projects (some w) project =
    if is_set w.project_id && (is_set project && differ w.project_id project)
    then none
    else if is_set w.project_id && not (is_set project)
    then some (w.project_id, some w)
    else if is_set project && not (is_set w.project_id)
    then some (project, some (record w { project_id = project }))
    else some (project, some w)

unfoldable pub wire : Arguments → BaseAgent → Option String × Option AgentWindow → Agent
wire a base (project, window) = record {
  base = base;
  sandbox_id = a.sandbox_id;
  window = window;
  author = a.author;
  project_id = project;
  prefetch_discover = a.prefetch_discover && (a.has_copass_client && is_set a.sandbox_id);
  auto_record = a.auto_record && is_some window;
}

-- `__init__`; `none` is a `ValueError`: two ways to a client, no tools, or two projects.
unfoldable pub new_agent : Arguments → Option Agent
unfolding unify_projects wire
new_agent a =
    if a.has_backend && (is_set a.anthropic_api_key || a.has_anthropic_client)
    then none
    else elim (base_agent a.identity a.model a.system_prompt a.tools a.tool_resolver
        a.on_conflict) [
          | none ↦ none
          | some base ↦ elim (unify_projects a.window a.project_id) [
            | none ↦ none
            | some scope ↦ some (wire a base scope)
          ]
        ]
