-- ===== src/Resources/Sources.antt =====
-- sources.py: data sources.
use copass.Prelude.{String, Bool, Option, none, some, List, [], ◌∷◌}
use copass.Json.{bool, num, str, obj, Fields, end, field}
use copass.Resources.{
  Call, get_call, post_call, patch_call, delete_call, path_of, storage_base, optional, flag, when,
  strings, objects,
}

unfoldable pub sources_base : String → String
unfolding path_of
sources_base sandbox_id = path_of storage_base (sandbox_id ∷ "sources" ∷ [])

unfoldable pub ingest_base : String → String
unfolding path_of
ingest_base sandbox_id = path_of storage_base (sandbox_id ∷ "ingest" ∷ [])

unfoldable pub register :
    (sandbox_id provider name : String) (ingestion_mode kind external_account_id : Option String)
    (adapter_config : Option Fields) (poll_interval_seconds : Option String)
    → Call
unfolding optional sources_base
register sandbox_id provider name ingestion_mode kind external_account_id adapter_config
      poll_interval_seconds =
    post_call (sources_base sandbox_id)
      (some (
        obj (
          field "provider" (str provider) (
            field "name" (str name) (
              optional "ingestion_mode" str ingestion_mode (
                optional "kind" str kind (
                  optional "external_account_id" str external_account_id (
                    optional "adapter_config" obj adapter_config
                      (optional "poll_interval_seconds" num poll_interval_seconds end)))))))))
      []

unfoldable pub list : (sandbox_id : String) (provider status : Option String) → Call
unfolding sources_base
list sandbox_id provider status =
    get_call (sources_base sandbox_id) (("provider", provider) ∷ (("status", status) ∷ []))

unfoldable pub retrieve : (sandbox_id source_id : String) → Call
unfolding path_of sources_base
retrieve sandbox_id source_id = get_call (path_of (sources_base sandbox_id) (source_id ∷ [])) []

unfoldable pub update :
    (sandbox_id source_id : String) (name ingestion_mode external_account_id : Option String)
    (adapter_config : Option Fields) (poll_interval_seconds : Option String)
    (merge_adapter_config : Bool)
    → Call
unfolding optional path_of sources_base
update sandbox_id source_id name ingestion_mode external_account_id adapter_config
      poll_interval_seconds merge_adapter_config =
    patch_call (path_of (sources_base sandbox_id) (source_id ∷ []))
      (some (
        obj (
          optional "name" str name (
            optional "ingestion_mode" str ingestion_mode (
              optional "external_account_id" str external_account_id (
                optional "adapter_config" obj adapter_config
                  (optional "poll_interval_seconds" num poll_interval_seconds end)))))))
      (when merge_adapter_config "merge_adapter_config" [])

unfoldable pub connect_linear :
    (sandbox_id api_key : String) (name : Option String) (include : Option (List String))
    (rate_cap_per_minute poll_interval_seconds : Option String)
    → Call
unfolding optional path_of sources_base
connect_linear sandbox_id api_key name include rate_cap_per_minute poll_interval_seconds =
    post_call (path_of (sources_base sandbox_id) ("linear" ∷ []))
      (some (
        obj (
          field "api_key" (str api_key) (
            optional "name" str name (
              optional "include" strings include (
                optional "rate_cap_per_minute" num rate_cap_per_minute
                  (optional "poll_interval_seconds" num poll_interval_seconds end)))))))
      []

unfoldable pub pull :
    (sandbox_id source_id : String) (since : Option String) (vault_only : Bool) → Call
unfolding optional path_of sources_base
pull sandbox_id source_id since vault_only =
    post_call (path_of (sources_base sandbox_id) (source_id ∷ "pull" ∷ []))
      (some (obj (optional "since" str since (flag "vault_only" vault_only end)))) []

unfoldable pub pause : (sandbox_id source_id : String) → Call
unfolding path_of sources_base
pause sandbox_id source_id =
    post_call (path_of (sources_base sandbox_id) (source_id ∷ "pause" ∷ [])) none []

unfoldable pub resume : (sandbox_id source_id : String) → Call
unfolding path_of sources_base
resume sandbox_id source_id =
    post_call (path_of (sources_base sandbox_id) (source_id ∷ "resume" ∷ [])) none []

unfoldable pub disconnect : (sandbox_id source_id : String) → Call
unfolding path_of sources_base
disconnect sandbox_id source_id =
    post_call (path_of (sources_base sandbox_id) (source_id ∷ "disconnect" ∷ [])) none []

unfoldable pub delete : (sandbox_id source_id : String) → Call
unfolding path_of sources_base
delete sandbox_id source_id = delete_call (path_of (sources_base sandbox_id) (source_id ∷ []))

unfoldable pub purge : (sandbox_id source_id : String) (delete_source : Option Bool) → Call
unfolding optional path_of sources_base
purge sandbox_id source_id delete_source =
    post_call (path_of (sources_base sandbox_id) (source_id ∷ "purge" ∷ []))
      (some (obj (optional "delete_source" bool delete_source end))) []

unfoldable pub register_user_mcp :
    (sandbox_id name base_url auth_kind : String) (token auth_header app_namespace : Option String)
    (allowed_tools : Option (List String)) (ingest_tool_calls : Option (List Fields))
    (rate_cap_per_minute webhook_rate_cap_per_minute : Option String)
    → Call
unfolding optional path_of sources_base
register_user_mcp sandbox_id name base_url auth_kind token auth_header app_namespace allowed_tools
      ingest_tool_calls rate_cap_per_minute webhook_rate_cap_per_minute =
    post_call (path_of (sources_base sandbox_id) ("user-mcp" ∷ []))
      (some (
        obj (
          field "name" (str name) (
            field "base_url" (str base_url) (
              field "auth_kind" (str auth_kind) (
                optional "token" str token (
                  optional "auth_header" str auth_header (
                    optional "app_namespace" str app_namespace (
                      optional "allowed_tools" strings allowed_tools (
                        optional "ingest_tool_calls" objects ingest_tool_calls (
                          optional "rate_cap_per_minute" num rate_cap_per_minute (
                            optional "webhook_rate_cap_per_minute" num webhook_rate_cap_per_minute
                              end))))))))))))
      []

unfoldable pub test_user_mcp : (sandbox_id source_id : String) → Call
unfolding path_of sources_base
test_user_mcp sandbox_id source_id =
    post_call (path_of (sources_base sandbox_id) (source_id ∷ "user-mcp" ∷ "test" ∷ [])) none []

unfoldable pub revoke_user_mcp : (sandbox_id source_id : String) → Call
unfolding path_of sources_base
revoke_user_mcp sandbox_id source_id =
    post_call (path_of (sources_base sandbox_id) (source_id ∷ "user-mcp" ∷ "revoke" ∷ [])) none []

unfoldable pub ingest :
    (sandbox_id source_id text : String) (source_type : Option String) (storage_only : Option Bool)
    (project_id occurred_at speaker : Option String) (participants : Option (List String))
    → Call
unfolding optional ingest_base
ingest sandbox_id source_id text source_type storage_only project_id occurred_at speaker
      participants =
    post_call (ingest_base sandbox_id)
      (some (
        obj (
          field "text" (str text) (
            field "data_source_id" (str source_id) (
              optional "source_type" str source_type (
                optional "storage_only" bool storage_only (
                  optional "project_id" str project_id (
                    optional "occurred_at" str occurred_at (
                      optional "speaker" str speaker
                        (optional "participants" strings participants end))))))))))
      []

-- A method on a sandbox, with its other arguments.
pub data Operation : Type 0 where
  on_register :
      (provider name : String) (ingestion_mode kind external_account_id : Option String)
      (adapter_config : Option Fields) (poll_interval_seconds : Option String)
      → Operation
  on_list : (provider status : Option String) → Operation
  on_retrieve : (source_id : String) → Operation
  on_update :
      (source_id : String) (name ingestion_mode external_account_id : Option String)
      (adapter_config : Option Fields) (poll_interval_seconds : Option String)
      (merge_adapter_config : Bool)
      → Operation
  on_connect_linear :
      (api_key : String) (name : Option String) (include : Option (List String))
      (rate_cap_per_minute poll_interval_seconds : Option String)
      → Operation
  on_pull : (source_id : String) (since : Option String) (vault_only : Bool) → Operation
  on_pause : (source_id : String) → Operation
  on_resume : (source_id : String) → Operation
  on_disconnect : (source_id : String) → Operation
  on_delete : (source_id : String) → Operation
  on_purge : (source_id : String) (delete_source : Option Bool) → Operation
  on_register_user_mcp :
      (name base_url auth_kind : String) (token auth_header app_namespace : Option String)
      (allowed_tools : Option (List String)) (ingest_tool_calls : Option (List Fields))
      (rate_cap_per_minute webhook_rate_cap_per_minute : Option String)
      → Operation
  on_test_user_mcp : (source_id : String) → Operation
  on_revoke_user_mcp : (source_id : String) → Operation
  on_ingest :
      (source_id text : String) (source_type : Option String) (storage_only : Option Bool)
      (project_id occurred_at speaker : Option String) (participants : Option (List String))
      → Operation

unfoldable pub call_of : String → Operation → Call
unfolding register list retrieve update connect_linear pull pause resume disconnect delete purge
    register_user_mcp test_user_mcp revoke_user_mcp ingest
call_of sandbox_id
      (on_register provider name ingestion_mode kind external_account_id adapter_config
        poll_interval_seconds) =
    register sandbox_id provider name ingestion_mode kind external_account_id adapter_config
      poll_interval_seconds
call_of sandbox_id (on_list provider status) = list sandbox_id provider status
call_of sandbox_id (on_retrieve source_id) = retrieve sandbox_id source_id
call_of sandbox_id
      (on_update source_id name ingestion_mode external_account_id adapter_config
        poll_interval_seconds merge_adapter_config) =
    update sandbox_id source_id name ingestion_mode external_account_id adapter_config
      poll_interval_seconds merge_adapter_config
call_of sandbox_id
      (on_connect_linear api_key name include rate_cap_per_minute poll_interval_seconds) =
    connect_linear sandbox_id api_key name include rate_cap_per_minute poll_interval_seconds
call_of sandbox_id (on_pull source_id since vault_only) = pull sandbox_id source_id since vault_only
call_of sandbox_id (on_pause source_id) = pause sandbox_id source_id
call_of sandbox_id (on_resume source_id) = resume sandbox_id source_id
call_of sandbox_id (on_disconnect source_id) = disconnect sandbox_id source_id
call_of sandbox_id (on_delete source_id) = delete sandbox_id source_id
call_of sandbox_id (on_purge source_id delete_source) = purge sandbox_id source_id delete_source
call_of sandbox_id
      (on_register_user_mcp name base_url auth_kind token auth_header app_namespace allowed_tools
        ingest_tool_calls rate_cap_per_minute webhook_rate_cap_per_minute) =
    register_user_mcp sandbox_id name base_url auth_kind token auth_header app_namespace
      allowed_tools ingest_tool_calls rate_cap_per_minute webhook_rate_cap_per_minute
call_of sandbox_id (on_test_user_mcp source_id) = test_user_mcp sandbox_id source_id
call_of sandbox_id (on_revoke_user_mcp source_id) = revoke_user_mcp sandbox_id source_id
call_of sandbox_id
      (on_ingest source_id text source_type storage_only project_id occurred_at speaker
        participants) =
    ingest sandbox_id source_id text source_type storage_only project_id occurred_at speaker
      participants
