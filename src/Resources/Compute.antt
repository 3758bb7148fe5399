-- ===== src/Resources/Compute.antt =====
-- compute.py: compute sessions.
pub mod Gateway
pub mod Filled
use copass.Prelude.{String, Bool, Option, none, some, List, [], ◌∷◌}
use copass.Json.{Value, null, bool, num, str, obj, Fields, end, field}
use copass.Resources.{
  Call, Query, get_call, post_call, patch_call, delete_call, path_of, storage_base, optional, flag,
  given, when, strings, objects,
}

unfoldable pub compute_base : String → String
unfolding path_of
compute_base sandbox_id = path_of storage_base (sandbox_id ∷ "compute" ∷ [])

unfoldable pub list_templates : (sandbox_id : String) (provider : Option String) → Call
unfolding path_of compute_base
list_templates sandbox_id provider =
    get_call (path_of (compute_base sandbox_id) ("templates" ∷ [])) (("provider", provider) ∷ [])

unfoldable pub create_session :
    (sandbox_id template : String) (env_vars : Option Fields) (timeout_seconds : Option String)
    (metadata : Option Fields)
    → Call
unfolding optional path_of compute_base
create_session sandbox_id template env_vars timeout_seconds metadata =
    post_call (path_of (compute_base sandbox_id) ("sessions" ∷ []))
      (some (
        obj (
          field "template" (str template) (
            optional "env_vars" obj env_vars (
              optional "timeout_seconds" num timeout_seconds
                (optional "metadata" obj metadata end))))))
      []

unfoldable pub list_sessions :
    (sandbox_id : String) (include_stopped : Bool) (limit : Option String) → Call
unfolding path_of compute_base
list_sessions sandbox_id include_stopped limit =
    get_call (path_of (compute_base sandbox_id) ("sessions" ∷ []))
      (when include_stopped "include_stopped" (given "limit" limit []))

unfoldable pub get_session : (sandbox_id session_id : String) → Call
unfolding path_of compute_base
get_session sandbox_id session_id =
    get_call (path_of (compute_base sandbox_id) ("sessions" ∷ session_id ∷ [])) []

unfoldable pub stop_session : (sandbox_id session_id : String) → Call
unfolding path_of compute_base
stop_session sandbox_id session_id =
    delete_call (path_of (compute_base sandbox_id) ("sessions" ∷ session_id ∷ []))

unfoldable pub exec :
    (sandbox_id session_id : String) (cmd : List String) (stdin timeout_seconds : Option String)
    → Call
unfolding optional path_of compute_base
exec sandbox_id session_id cmd stdin timeout_seconds =
    post_call (path_of (compute_base sandbox_id) ("sessions" ∷ session_id ∷ "exec" ∷ []))
      (some (
        obj (
          field "cmd" (strings cmd)
            (optional "stdin" str stdin (optional "timeout_seconds" num timeout_seconds end)))))
      []

unfoldable pub session_health : (sandbox_id session_id : String) → Call
unfolding path_of compute_base
session_health sandbox_id session_id =
    get_call (path_of (compute_base sandbox_id) ("sessions" ∷ session_id ∷ "health" ∷ [])) []

-- A method on a sandbox, with its other arguments.
pub data Operation : Type 0 where
  on_list_templates : (provider : Option String) → Operation
  on_create_session :
      (template : String) (env_vars : Option Fields) (timeout_seconds : Option String)
      (metadata : Option Fields)
      → Operation
  on_list_sessions : (include_stopped : Bool) (limit : Option String) → Operation
  on_get_session : (session_id : String) → Operation
  on_stop_session : (session_id : String) → Operation
  on_exec :
      (session_id : String) (cmd : List String) (stdin timeout_seconds : Option String) → Operation
  on_session_health : (session_id : String) → Operation

unfoldable pub call_of : String → Operation → Call
unfolding list_templates create_session list_sessions get_session stop_session exec session_health
call_of sandbox_id (on_list_templates provider) = list_templates sandbox_id provider
call_of sandbox_id (on_create_session template env_vars timeout_seconds metadata) =
    create_session sandbox_id template env_vars timeout_seconds metadata
call_of sandbox_id (on_list_sessions include_stopped limit) =
    list_sessions sandbox_id include_stopped limit
call_of sandbox_id (on_get_session session_id) = get_session sandbox_id session_id
call_of sandbox_id (on_stop_session session_id) = stop_session sandbox_id session_id
call_of sandbox_id (on_exec session_id cmd stdin timeout_seconds) =
    exec sandbox_id session_id cmd stdin timeout_seconds
call_of sandbox_id (on_session_health session_id) = session_health sandbox_id session_id
