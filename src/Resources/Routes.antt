-- ===== src/Resources/Routes.antt =====
-- agents.py: the endpoint that a path leads to. The endpoints are those that the comments of the
-- classes name, with the segments of a path in braces.
pub mod Reaches
use copass.Prelude.{
  String, Bool, false, ◌≡◌, refl, ap, ◌∙◌, Option, some, none, List, [], ◌∷◌, All, ◌==◌, ◌&&◌,
  if◌then◌else◌,
}
use copass.Resources.{Call, path_of}
use copass.Resources.Agents
use copass.Resources.Triggers
use copass.Resources.Paths.{IsSegment, behind, behind-path_of}
use copass.Text.{Text, codes, same_text}

pub data Endpoint : Type 0 where
  trigger_create : (slug : Text) → Endpoint
  trigger_list : (slug : Text) → Endpoint
  trigger_retrieve : (slug trigger_id : Text) → Endpoint
  trigger_update : (slug trigger_id : Text) → Endpoint
  trigger_destroy : (slug trigger_id : Text) → Endpoint
  trigger_update_by_id : (trigger_id : Text) → Endpoint
  agent_create : Endpoint
  agent_list : Endpoint
  agent_retrieve : (slug : Text) → Endpoint
  agent_update : (slug : Text) → Endpoint
  agent_archive : (slug : Text) → Endpoint
  agent_update_model_settings : (slug : Text) → Endpoint
  agent_update_tool_sources : (slug : Text) → Endpoint
  agent_wire_integration : (slug : Text) → Endpoint
  agent_test_fire : (slug : Text) → Endpoint
  agent_start_chat_run : (slug : Text) → Endpoint
  agent_list_runs : (slug : Text) → Endpoint
  agent_get_run : (run_id : Text) → Endpoint
  agent_list_tools : Endpoint
  agent_list_trigger_components : Endpoint

abbrev is : String → Text → Bool
is name t = same_text t (codes name)

abbrev get_route : List Text → Option Endpoint
get_route [] = some agent_list
get_route (a ∷ []) = if is "tools" a then some agent_list_tools else some (agent_retrieve a)
get_route (a ∷ b ∷ []) =
    if is "runs" a
    then some (agent_get_run b)
    else if is "triggers" a
    then if is "components" b then some agent_list_trigger_components else none
    else if is "runs" b
    then some (agent_list_runs a)
    else if is "triggers" b
    then some (trigger_list a)
    else none
get_route (a ∷ b ∷ c ∷ []) = if is "triggers" b then some (trigger_retrieve a c) else none
get_route _ = none

abbrev post_route : List Text → Option Endpoint
post_route [] = some agent_create
post_route (a ∷ b ∷ []) =
    if is "triggers" b
    then some (trigger_create a)
    else if is "wire-integration" b
    then some (agent_wire_integration a)
    else if is "test" b
    then some (agent_test_fire a)
    else if is "invoke-async" b
    then some (agent_start_chat_run a)
    else none
post_route _ = none

abbrev patch_route : List Text → Option Endpoint
patch_route (a ∷ []) = some (agent_update a)
patch_route (a ∷ b ∷ []) =
    if is "model-settings" b
    then some (agent_update_model_settings a)
    else if is "tool-sources" b
    then some (agent_update_tool_sources a)
    else none
patch_route (a ∷ b ∷ c ∷ []) = if is "triggers" b then some (trigger_update a c) else none
patch_route _ = none

abbrev delete_route : List Text → Option Endpoint
delete_route (a ∷ []) = some (agent_archive a)
delete_route (a ∷ b ∷ c ∷ []) = if is "triggers" b then some (trigger_destroy a c) else none
delete_route _ = none

-- What a path behind `agents` leads to.
abbrev agents_route : String → List Text → Option Endpoint
agents_route method ts =
    if method == "GET"
    then get_route ts
    else if method == "POST"
    then post_route ts
    else if method == "PATCH"
    then patch_route ts
    else if method == "DELETE"
    then delete_route ts
    else none

-- What a path behind the sandbox leads to.
unfoldable pub route : String → List Text → Option Endpoint
route method [] = none
route method (a ∷ ts) = if is "agents" a then agents_route method ts else elim ts [
  | [] ↦ none
  | t ∷ [] ↦ if is "triggers" a && method == "PATCH" then some (trigger_update_by_id t) else none
  | _ ↦ none
]

-- A name that is one segment, and none of the segments that endpoints have in front.
pub record IsName (s : String) : Type 0 where
  pub segment : IsSegment s
  pub not_tools : is "tools" (codes s) ≡ false
  pub not_runs : is "runs" (codes s) ≡ false
  pub not_triggers : is "triggers" (codes s) ≡ false

abbrev pub agents_endpoint : Agents.Operation → Endpoint
agents_endpoint (Agents.on_create _ _ _ _ _ _) = agent_create
agents_endpoint (Agents.on_list _) = agent_list
agents_endpoint (Agents.on_retrieve slug) = agent_retrieve (codes slug)
agents_endpoint (Agents.on_update slug _ _ _ _ _ _) = agent_update (codes slug)
agents_endpoint (Agents.on_archive slug) = agent_archive (codes slug)
agents_endpoint (Agents.on_update_model_settings slug _ _ _ _ _ _) =
    agent_update_model_settings (codes slug)
agents_endpoint (Agents.on_update_tool_sources slug _) = agent_update_tool_sources (codes slug)
agents_endpoint (Agents.on_wire_integration slug _) = agent_wire_integration (codes slug)
agents_endpoint (Agents.on_test_fire slug _) = agent_test_fire (codes slug)
agents_endpoint (Agents.on_start_chat_run slug _ _) = agent_start_chat_run (codes slug)
agents_endpoint (Agents.on_list_runs slug _ _) = agent_list_runs (codes slug)
agents_endpoint (Agents.on_get_run run_id) = agent_get_run (codes run_id)
agents_endpoint Agents.on_list_tools = agent_list_tools
agents_endpoint (Agents.on_list_trigger_components _ _ _) = agent_list_trigger_components

-- The names in the path of a method.
abbrev pub agents_names : Agents.Operation → List String
agents_names (Agents.on_create _ _ _ _ _ _) = []
agents_names (Agents.on_list _) = []
agents_names (Agents.on_retrieve slug) = slug ∷ []
agents_names (Agents.on_update slug _ _ _ _ _ _) = slug ∷ []
agents_names (Agents.on_archive slug) = slug ∷ []
agents_names (Agents.on_update_model_settings slug _ _ _ _ _ _) = slug ∷ []
agents_names (Agents.on_update_tool_sources slug _) = slug ∷ []
agents_names (Agents.on_wire_integration slug _) = slug ∷ []
agents_names (Agents.on_test_fire slug _) = slug ∷ []
agents_names (Agents.on_start_chat_run slug _ _) = slug ∷ []
agents_names (Agents.on_list_runs slug _ _) = slug ∷ []
agents_names (Agents.on_get_run run_id) = run_id ∷ []
agents_names Agents.on_list_tools = []
agents_names (Agents.on_list_trigger_components _ _ _) = []

abbrev pub triggers_endpoint : Triggers.Operation → Endpoint
triggers_endpoint (Triggers.on_create slug _ _ _ _) = trigger_create (codes slug)
triggers_endpoint (Triggers.on_list slug _) = trigger_list (codes slug)
triggers_endpoint (Triggers.on_retrieve slug trigger_id) =
    trigger_retrieve (codes slug) (codes trigger_id)
triggers_endpoint (Triggers.on_update slug trigger_id _ _ _ _ _ _) =
    trigger_update (codes slug) (codes trigger_id)
triggers_endpoint (Triggers.on_destroy slug trigger_id) =
    trigger_destroy (codes slug) (codes trigger_id)
triggers_endpoint (Triggers.on_update_by_id trigger_id _ _ _ _ _ _) =
    trigger_update_by_id (codes trigger_id)

-- The names in the path of a method.
abbrev pub triggers_names : Triggers.Operation → List String
triggers_names (Triggers.on_create slug _ _ _ _) = slug ∷ []
triggers_names (Triggers.on_list slug _) = slug ∷ []
triggers_names (Triggers.on_retrieve slug trigger_id) = slug ∷ trigger_id ∷ []
triggers_names (Triggers.on_update slug trigger_id _ _ _ _ _ _) = slug ∷ trigger_id ∷ []
triggers_names (Triggers.on_destroy slug trigger_id) = slug ∷ trigger_id ∷ []
triggers_names (Triggers.on_update_by_id trigger_id _ _ _ _ _ _) = trigger_id ∷ []

-- A method on an agent or on a trigger.
pub data Method : Type 0 where
  on_agents : Agents.Operation → Method
  on_triggers : Triggers.Operation → Method

unfoldable pub call_of : String → Method → Call
call_of sandbox_id (on_agents op) = Agents.call_of sandbox_id op
call_of sandbox_id (on_triggers op) = Triggers.call_of sandbox_id op

abbrev pub endpoint_of : Method → Endpoint
endpoint_of (on_agents op) = agents_endpoint op
endpoint_of (on_triggers op) = triggers_endpoint op

abbrev pub names_of : Method → List String
names_of (on_agents op) = agents_names op
names_of (on_triggers op) = triggers_names op
