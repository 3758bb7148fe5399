-- ===== src/Resources/Sandboxes.antt =====
-- sandboxes.py and sandbox_connections.py: sandboxes and the grants on them.
use copass.Prelude.{String, Bool, Option, none, some, [], ◌∷◌}
use copass.Json.{str, obj, Fields, end, field}
use copass.Resources.{
  Call, get_call, post_call, patch_call, delete_call, path_of, storage_base, optional, when,
}

unfoldable pub create :
    (name owner_id : String) (tier : Option String) (metadata : Option Fields) → Call
unfolding optional
create name owner_id tier metadata =
    post_call (storage_base)
      (some (
        obj (
          field "name" (str name) (
            field "owner_id" (str owner_id)
              (optional "tier" str tier (optional "metadata" obj metadata end))))))
      []

unfoldable pub list : (status owner_id : Option String) → Call
list status owner_id = get_call (storage_base) (("status", status) ∷ (("owner_id", owner_id) ∷ []))

unfoldable pub retrieve : (sandbox_id : String) → Call
unfolding path_of
retrieve sandbox_id = get_call (path_of (storage_base) (sandbox_id ∷ [])) []

unfoldable pub update :
    (sandbox_id : String) (name : Option String) (metadata : Option Fields) → Call
unfolding optional path_of
update sandbox_id name metadata =
    patch_call (path_of (storage_base) (sandbox_id ∷ []))
      (some (obj (optional "name" str name (optional "metadata" obj metadata end)))) []

unfoldable pub suspend : (sandbox_id : String) → Call
unfolding path_of
suspend sandbox_id = post_call (path_of (storage_base) (sandbox_id ∷ "suspend" ∷ [])) none []

unfoldable pub reactivate : (sandbox_id : String) → Call
unfolding path_of
reactivate sandbox_id = post_call (path_of (storage_base) (sandbox_id ∷ "reactivate" ∷ [])) none []

unfoldable pub archive : (sandbox_id : String) → Call
unfolding path_of
archive sandbox_id = post_call (path_of (storage_base) (sandbox_id ∷ "archive" ∷ [])) none []

unfoldable pub destroy : (sandbox_id : String) → Call
unfolding path_of
destroy sandbox_id = delete_call (path_of (storage_base) (sandbox_id ∷ []))

unfoldable pub create_connection :
    (sandbox_id role : String) (copass_id user_id email project_id label expires_at : Option String)
    → Call
unfolding optional path_of
create_connection sandbox_id role copass_id user_id email project_id label expires_at =
    post_call (path_of (storage_base) (sandbox_id ∷ "connections" ∷ []))
      (some (
        obj (
          field "role" (str role) (
            optional "copass_id" str copass_id (
              optional "user_id" str user_id (
                optional "email" str email (
                  optional "project_id" str project_id
                    (optional "label" str label (optional "expires_at" str expires_at end)))))))))
      []

unfoldable pub list_connections : (sandbox_id : String) (include_revoked : Bool) → Call
unfolding path_of
list_connections sandbox_id include_revoked =
    get_call (path_of (storage_base) (sandbox_id ∷ "connections" ∷ []))
      (when include_revoked "include_revoked" [])

unfoldable pub revoke_connection : (sandbox_id connection_id : String) → Call
unfolding path_of
revoke_connection sandbox_id connection_id =
    delete_call (path_of (storage_base) (sandbox_id ∷ "connections" ∷ connection_id ∷ []))

unfoldable pub spawn_api_key : (sandbox_id connection_id : String) → Call
unfolding path_of
spawn_api_key sandbox_id connection_id =
    post_call
      (path_of (storage_base) (sandbox_id ∷ "connections" ∷ connection_id ∷ "api-keys" ∷ [])) none
      []

-- A method on a sandbox, with its other arguments.
pub data Operation : Type 0 where
  on_retrieve : Operation
  on_update : (name : Option String) (metadata : Option Fields) → Operation
  on_suspend : Operation
  on_reactivate : Operation
  on_archive : Operation
  on_destroy : Operation
  on_create_connection :
      (role : String) (copass_id user_id email project_id label expires_at : Option String)
      → Operation
  on_list_connections : (include_revoked : Bool) → Operation
  on_revoke_connection : (connection_id : String) → Operation
  on_spawn_api_key : (connection_id : String) → Operation

unfoldable pub call_of : String → Operation → Call
unfolding retrieve update suspend reactivate archive destroy create_connection list_connections
    revoke_connection spawn_api_key
call_of sandbox_id on_retrieve = retrieve sandbox_id
call_of sandbox_id (on_update name metadata) = update sandbox_id name metadata
call_of sandbox_id on_suspend = suspend sandbox_id
call_of sandbox_id on_reactivate = reactivate sandbox_id
call_of sandbox_id on_archive = archive sandbox_id
call_of sandbox_id on_destroy = destroy sandbox_id
call_of sandbox_id (on_create_connection role copass_id user_id email project_id label expires_at) =
    create_connection sandbox_id role copass_id user_id email project_id label expires_at
call_of sandbox_id (on_list_connections include_revoked) =
    list_connections sandbox_id include_revoked
call_of sandbox_id (on_revoke_connection connection_id) = revoke_connection sandbox_id connection_id
call_of sandbox_id (on_spawn_api_key connection_id) = spawn_api_key sandbox_id connection_id
