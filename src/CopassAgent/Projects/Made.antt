-- ===== src/CopassAgent/Projects/Made.antt =====
-- managed_agent.py: when an agent is made, and what it is made of.
use copass.Prelude.{◌&&◌, ◌||◌, is_some, true, ◌≡◌, ◌⊎◌, Option, none, some}
use copass.Agents.Build.{BaseAgent, base_agent}
use copass.CopassAgent.{AgentWindow, Arguments, Agent, is_set, unify_projects, wire}
use copass.CopassAgent.Projects.{AreUnified, AreTwo}

-- Why an agent is not made: a backend and another way to a client, arguments that `BaseAgent` refuses,
-- or two projects.
abbrev pub IsRefused : Arguments → Type 0
IsRefused a =
    (a.has_backend && (is_set a.anthropic_api_key || a.has_anthropic_client) ≡ true)
    ⊎ (base_agent a.identity a.model a.system_prompt a.tools a.tool_resolver a.on_conflict ≡ none)
    ⊎ ((w : AgentWindow) × (a.window ≡ some w) × AreTwo w a.project_id)

-- The window that an agent is given, if any, against the one that it has.
abbrev pub KeepsWindow : Arguments → Agent → Type 0
KeepsWindow a agent =
    ((a.window ≡ none) × (agent.window ≡ none) × (agent.project_id ≡ a.project_id))
    ⊎ ((w : AgentWindow) × (v : AgentWindow) × (a.window ≡ some w)
        × (agent.window ≡ some v)
        × AreUnified w a.project_id agent.project_id v)

-- An agent asks for context only with a client and a sandbox, and records only with a window.
pub record IsWired (a : Arguments) (agent : Agent) : Type 0 where
  pub windows : KeepsWindow a agent
  pub asks :
      agent.prefetch_discover
      ≡ (a.prefetch_discover && (a.has_copass_client && is_set a.sandbox_id))
  pub records : agent.auto_record ≡ (a.auto_record && is_some agent.window)

abbrev AgentCases : Arguments → Option Agent → Type 0
AgentCases a made =
    ((made ≡ none) × IsRefused a) ⊎ ((agent : Agent) × (made ≡ some agent) × IsWired a agent)

made_from : Arguments → Option BaseAgent → Option Agent
unfolding unify_projects wire
made_from a o = elim o [
  | none ↦ none
  | some base ↦ elim (unify_projects a.window a.project_id) [
    | none ↦ none
    | some scope ↦ some (wire a base scope)
  ]
]
