-- ===== src/Resources/Agents.antt =====
-- agents.py: agents, their runs and their tools.
use copass.Prelude.{String, Option, none, some, List, [], ◌∷◌}
use copass.Json.{Value, null, num, str, obj, Fields, end, field}
use copass.Resources.{
  Call, get_call, post_call, patch_call, delete_call, path_of, storage_base, optional, given,
  strings,
}

unfoldable pub agents_base : String → String
unfolding path_of
agents_base sandbox_id = path_of storage_base (sandbox_id ∷ "agents" ∷ [])

-- `None if x is None else json(x)`
abbrev pub or_null {ℓ} : {A : Type ℓ} → (A → Value) → Option A → Value
or_null json none = null
or_null json (some x) = json x

unfoldable pub create :
    (sandbox_id slug name system_prompt : String) (tool_allowlist : List String)
    (model_settings : Fields) (description : Option String)
    → Call
unfolding optional agents_base
create sandbox_id slug name system_prompt tool_allowlist model_settings description =
    post_call (agents_base sandbox_id)
      (some (
        obj (
          field "slug" (str slug) (
            field "name" (str name) (
              field "system_prompt" (str system_prompt) (
                field "tool_allowlist" (strings tool_allowlist) (
                  field "model_settings" (obj model_settings)
                    (optional "description" str description end))))))))
      []

unfoldable pub list : (sandbox_id : String) (status : Option String) → Call
unfolding agents_base
list sandbox_id status = get_call (agents_base sandbox_id) (("status", status) ∷ [])

unfoldable pub retrieve : (sandbox_id slug : String) → Call
unfolding path_of agents_base
retrieve sandbox_id slug = get_call (path_of (agents_base sandbox_id) (slug ∷ [])) []

unfoldable pub update :
    (sandbox_id slug : String) (name description system_prompt : Option String)
    (tool_allowlist : Option (List String)) (model_settings : Option Fields)
    (status : Option String)
    → Call
unfolding optional path_of agents_base
update sandbox_id slug name description system_prompt tool_allowlist model_settings status =
    patch_call (path_of (agents_base sandbox_id) (slug ∷ []))
      (some (
        obj (
          optional "name" str name (
            optional "description" str description (
              optional "system_prompt" str system_prompt (
                optional "tool_allowlist" strings tool_allowlist (
                  optional "model_settings" obj model_settings
                    (optional "status" str status end))))))))
      []

unfoldable pub archive : (sandbox_id slug : String) → Call
unfolding path_of agents_base
archive sandbox_id slug = delete_call (path_of (agents_base sandbox_id) (slug ∷ []))

unfoldable pub update_model_settings :
    (sandbox_id slug : String)
    (backend model temperature max_tokens max_turns timeout_s : Option String)
    → Call
unfolding optional path_of agents_base
update_model_settings sandbox_id slug backend model temperature max_tokens max_turns timeout_s =
    patch_call (path_of (agents_base sandbox_id) (slug ∷ "model-settings" ∷ []))
      (some (
        obj (
          optional "backend" str backend (
            optional "model" str model (
              optional "temperature" num temperature (
                optional "max_tokens" num max_tokens (
                  optional "max_turns" num max_turns (optional "timeout_s" num timeout_s end))))))))
      []

unfoldable pub update_tool_sources :
    (sandbox_id slug : String) (tool_sources : Option (List String)) → Call
unfolding path_of agents_base
update_tool_sources sandbox_id slug tool_sources =
    patch_call (path_of (agents_base sandbox_id) (slug ∷ "tool-sources" ∷ []))
      (some (obj (field "tool_sources" (or_null strings tool_sources) end))) []

unfoldable pub wire_integration : (sandbox_id slug app_slug : String) → Call
unfolding path_of agents_base
wire_integration sandbox_id slug app_slug =
    post_call (path_of (agents_base sandbox_id) (slug ∷ "wire-integration" ∷ []))
      (some (obj (field "app_slug" (str app_slug) end))) []

unfoldable pub test_fire : (sandbox_id slug : String) (event_payload : Option Fields) → Call
unfolding optional path_of agents_base
test_fire sandbox_id slug event_payload =
    post_call (path_of (agents_base sandbox_id) (slug ∷ "test" ∷ []))
      (some (obj (optional "event_payload" obj event_payload end))) []

unfoldable pub start_chat_run :
    (sandbox_id slug message : String) (session_id : Option String) → Call
unfolding optional path_of agents_base
start_chat_run sandbox_id slug message session_id =
    post_call (path_of (agents_base sandbox_id) (slug ∷ "invoke-async" ∷ []))
      (some (obj (field "message" (str message) (optional "session_id" str session_id end)))) []

unfoldable pub list_runs : (sandbox_id slug : String) (limit before : Option String) → Call
unfolding path_of agents_base
list_runs sandbox_id slug limit before =
    get_call (path_of (agents_base sandbox_id) (slug ∷ "runs" ∷ []))
      (given "limit" limit (given "before" before []))

unfoldable pub get_run : (sandbox_id run_id : String) → Call
unfolding path_of agents_base
get_run sandbox_id run_id = get_call (path_of (agents_base sandbox_id) ("runs" ∷ run_id ∷ [])) []

unfoldable pub list_tools : (sandbox_id : String) → Call
unfolding path_of agents_base
list_tools sandbox_id = get_call (path_of (agents_base sandbox_id) ("tools" ∷ [])) []

unfoldable pub list_trigger_components : (sandbox_id : String) (app q limit : Option String) → Call
unfolding path_of agents_base
list_trigger_components sandbox_id app q limit =
    get_call (path_of (agents_base sandbox_id) ("triggers" ∷ "components" ∷ []))
      (given "app" app (given "q" q (given "limit" limit [])))

-- A method on a sandbox, with its other arguments.
pub data Operation : Type 0 where
  on_create :
      (slug name system_prompt : String) (tool_allowlist : List String) (model_settings : Fields)
      (description : Option String)
      → Operation
  on_list : (status : Option String) → Operation
  on_retrieve : (slug : String) → Operation
  on_update :
      (slug : String) (name description system_prompt : Option String)
      (tool_allowlist : Option (List String)) (model_settings : Option Fields)
      (status : Option String)
      → Operation
  on_archive : (slug : String) → Operation
  on_update_model_settings :
      (slug : String) (backend model temperature max_tokens max_turns timeout_s : Option String)
      → Operation
  on_update_tool_sources : (slug : String) (tool_sources : Option (List String)) → Operation
  on_wire_integration : (slug app_slug : String) → Operation
  on_test_fire : (slug : String) (event_payload : Option Fields) → Operation
  on_start_chat_run : (slug message : String) (session_id : Option String) → Operation
  on_list_runs : (slug : String) (limit before : Option String) → Operation
  on_get_run : (run_id : String) → Operation
  on_list_tools : Operation
  on_list_trigger_components : (app q limit : Option String) → Operation

unfoldable pub call_of : String → Operation → Call
unfolding create list retrieve update archive update_model_settings update_tool_sources
    wire_integration test_fire start_chat_run list_runs get_run list_tools list_trigger_components
call_of sandbox_id (on_create slug name system_prompt tool_allowlist model_settings description) =
    create sandbox_id slug name system_prompt tool_allowlist model_settings description
call_of sandbox_id (on_list status) = list sandbox_id status
call_of sandbox_id (on_retrieve slug) = retrieve sandbox_id slug
call_of sandbox_id
      (on_update slug name description system_prompt tool_allowlist model_settings status) =
    update sandbox_id slug name description system_prompt tool_allowlist model_settings status
call_of sandbox_id (on_archive slug) = archive sandbox_id slug
call_of sandbox_id
      (on_update_model_settings slug backend model temperature max_tokens max_turns timeout_s) =
    update_model_settings sandbox_id slug backend model temperature max_tokens max_turns timeout_s
call_of sandbox_id (on_update_tool_sources slug tool_sources) =
    update_tool_sources sandbox_id slug tool_sources
call_of sandbox_id (on_wire_integration slug app_slug) = wire_integration sandbox_id slug app_slug
call_of sandbox_id (on_test_fire slug event_payload) = test_fire sandbox_id slug event_payload
call_of sandbox_id (on_start_chat_run slug message session_id) =
    start_chat_run sandbox_id slug message session_id
call_of sandbox_id (on_list_runs slug limit before) = list_runs sandbox_id slug limit before
call_of sandbox_id (on_get_run run_id) = get_run sandbox_id run_id
call_of sandbox_id on_list_tools = list_tools sandbox_id
call_of sandbox_id (on_list_trigger_components app q limit) =
    list_trigger_components sandbox_id app q limit
