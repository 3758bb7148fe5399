-- ===== src/Resources/Account.antt =====
-- users.py, api_keys.py, usage.py and entities.py: the account of the user, and the search for entities.
use copass.Prelude.{String, Option, some, [], ◌∷◌}
use copass.Json.{num, str, obj, end, field}
use copass.Resources.{Call, get_call, post_call, delete_call, path_of, storage_base, optional}

unfoldable pub create_profile : (display_name canonical_id : Option String) → Call
unfolding optional
create_profile display_name canonical_id =
    post_call ("/api/v1/users/me/profile")
      (some (
        obj (
          optional "display_name" str display_name (optional "canonical_id" str canonical_id end))))
      []

unfoldable pub get_profile : Call
get_profile = get_call ("/api/v1/users/me/profile") []

unfoldable pub create_api_key : (name : String) (expires_in_days : Option String) → Call
unfolding optional
create_api_key name expires_in_days =
    post_call ("/api/v1/api-keys")
      (some (obj (field "name" (str name) (optional "expires_in_days" num expires_in_days end)))) []

unfoldable pub list_api_keys : Call
list_api_keys = get_call ("/api/v1/api-keys") []

unfoldable pub revoke_api_key : (key_id : String) → Call
unfolding path_of
revoke_api_key key_id = delete_call (path_of ("/api/v1/api-keys") (key_id ∷ []))

unfoldable pub get_summary : Call
get_summary = get_call ("/api/v1/usage") []

unfoldable pub get_balance : Call
get_balance = get_call ("/api/v1/usage/balance") []

unfoldable pub search_entities :
    (sandbox_id q : String) (limit min_similarity canonical_id project_id : Option String) → Call
unfolding path_of
search_entities sandbox_id q limit min_similarity canonical_id project_id =
    get_call (path_of (storage_base) (sandbox_id ∷ "entities" ∷ "search" ∷ [])) (
      ("q", some q)
      ∷ (("limit", limit)
          ∷ (("min_similarity", min_similarity)
              ∷ (("canonical_id", canonical_id) ∷ (("project_id", project_id) ∷ [])))))
