-- ===== src/Resources/Integrations.antt =====
-- integrations.py: integrations of other services.
use copass.Prelude.{String, Option, some, [], ◌∷◌}
use copass.Json.{str, obj, end, field}
use copass.Resources.{
  Call, get_call, post_call, delete_call, path_of, storage_base, optional, given,
}

unfoldable pub integrations_base : String → String
unfolding path_of
integrations_base sandbox_id = path_of storage_base (sandbox_id ∷ "sources" ∷ "integrations" ∷ [])

unfoldable pub catalog : (sandbox_id : String) (q limit cursor : Option String) → Call
unfolding path_of integrations_base
catalog sandbox_id q limit cursor =
    get_call (path_of (integrations_base sandbox_id) ("catalog" ∷ []))
      (given "q" q (given "limit" limit (given "cursor" cursor [])))

unfoldable pub list_accounts : (sandbox_id : String) (app_slug : Option String) → Call
unfolding path_of integrations_base
list_accounts sandbox_id app_slug =
    get_call (path_of (integrations_base sandbox_id) ("accounts" ∷ []))
      (given "app_slug" app_slug [])

unfoldable pub connect :
    (sandbox_id app success_redirect_uri error_redirect_uri : String)
    (scope project_id webhook_uri : Option String)
    → Call
unfolding optional path_of integrations_base
connect sandbox_id app success_redirect_uri error_redirect_uri scope project_id webhook_uri =
    post_call (path_of (integrations_base sandbox_id) (app ∷ "connect" ∷ []))
      (some (
        obj (
          field "success_redirect_uri" (str success_redirect_uri) (
            field "error_redirect_uri" (str error_redirect_uri) (
              optional "scope" str scope (
                optional "project_id" str project_id
                  (optional "webhook_uri" str webhook_uri end)))))))
      []

unfoldable pub list : (sandbox_id : String) (app : Option String) → Call
unfolding path_of integrations_base
list sandbox_id app =
    get_call (path_of (integrations_base sandbox_id) ("connections" ∷ [])) (given "app" app [])

unfoldable pub disconnect : (sandbox_id source_id : String) → Call
unfolding path_of integrations_base
disconnect sandbox_id source_id =
    delete_call (path_of (integrations_base sandbox_id) ("connections" ∷ source_id ∷ []))

unfoldable pub reconcile : (sandbox_id : String) (scope project_id app : Option String) → Call
unfolding optional path_of integrations_base
reconcile sandbox_id scope project_id app =
    post_call (path_of (integrations_base sandbox_id) ("reconcile" ∷ []))
      (some (
        obj (
          optional "scope" str scope
            (optional "project_id" str project_id (optional "app" str app end)))))
      []

-- A method on a sandbox, with its other arguments.
pub data Operation : Type 0 where
  on_catalog : (q limit cursor : Option String) → Operation
  on_list_accounts : (app_slug : Option String) → Operation
  on_connect :
      (app success_redirect_uri error_redirect_uri : String)
      (scope project_id webhook_uri : Option String)
      → Operation
  on_list : (app : Option String) → Operation
  on_disconnect : (source_id : String) → Operation
  on_reconcile : (scope project_id app : Option String) → Operation

unfoldable pub call_of : String → Operation → Call
unfolding catalog list_accounts connect list disconnect reconcile
call_of sandbox_id (on_catalog q limit cursor) = catalog sandbox_id q limit cursor
call_of sandbox_id (on_list_accounts app_slug) = list_accounts sandbox_id app_slug
call_of sandbox_id
      (on_connect app success_redirect_uri error_redirect_uri scope project_id webhook_uri) =
    connect sandbox_id app success_redirect_uri error_redirect_uri scope project_id webhook_uri
call_of sandbox_id (on_list app) = list sandbox_id app
call_of sandbox_id (on_disconnect source_id) = disconnect sandbox_id source_id
call_of sandbox_id (on_reconcile scope project_id app) = reconcile sandbox_id scope project_id app
