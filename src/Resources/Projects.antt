-- ===== src/Resources/Projects.antt =====
-- projects.py: projects.
use copass.Prelude.{String, Option, none, some, List, [], ◌∷◌}
use copass.Json.{str, obj, Fields, end, field}
use copass.Resources.{
  Call, get_call, post_call, patch_call, delete_call, path_of, storage_base, optional, strings,
}

unfoldable pub projects_base : String → String
unfolding path_of
projects_base sandbox_id = path_of storage_base (sandbox_id ∷ "projects" ∷ [])

unfoldable pub create :
    (sandbox_id name : String) (description : Option String)
    (data_source_ids : Option (List String)) (metadata : Option Fields)
    → Call
unfolding optional projects_base
create sandbox_id name description data_source_ids metadata =
    post_call (projects_base sandbox_id)
      (some (
        obj (
          field "name" (str name) (
            optional "description" str description (
              optional "data_source_ids" strings data_source_ids
                (optional "metadata" obj metadata end))))))
      []

unfoldable pub list : (sandbox_id : String) (status : Option String) → Call
unfolding projects_base
list sandbox_id status = get_call (projects_base sandbox_id) (("status", status) ∷ [])

unfoldable pub retrieve : (sandbox_id project_id : String) → Call
unfolding path_of projects_base
retrieve sandbox_id project_id = get_call (path_of (projects_base sandbox_id) (project_id ∷ [])) []

unfoldable pub update :
    (sandbox_id project_id : String) (name description : Option String) (metadata : Option Fields)
    → Call
unfolding optional path_of projects_base
update sandbox_id project_id name description metadata =
    patch_call (path_of (projects_base sandbox_id) (project_id ∷ []))
      (some (
        obj (
          optional "name" str name
            (optional "description" str description (optional "metadata" obj metadata end)))))
      []

unfoldable pub archive : (sandbox_id project_id : String) → Call
unfolding path_of projects_base
archive sandbox_id project_id =
    post_call (path_of (projects_base sandbox_id) (project_id ∷ "archive" ∷ [])) none []

unfoldable pub delete : (sandbox_id project_id : String) → Call
unfolding path_of projects_base
delete sandbox_id project_id = delete_call (path_of (projects_base sandbox_id) (project_id ∷ []))

unfoldable pub link_source : (sandbox_id project_id source_id : String) → Call
unfolding path_of projects_base
link_source sandbox_id project_id source_id =
    post_call (path_of (projects_base sandbox_id) (project_id ∷ "sources" ∷ source_id ∷ [])) none []

unfoldable pub unlink_source : (sandbox_id project_id source_id : String) → Call
unfolding path_of projects_base
unlink_source sandbox_id project_id source_id =
    delete_call (path_of (projects_base sandbox_id) (project_id ∷ "sources" ∷ source_id ∷ []))

-- A method on a sandbox, with its other arguments.
pub data Operation : Type 0 where
  on_create :
      (name : String) (description : Option String) (data_source_ids : Option (List String))
      (metadata : Option Fields)
      → Operation
  on_list : (status : Option String) → Operation
  on_retrieve : (project_id : String) → Operation
  on_update :
      (project_id : String) (name description : Option String) (metadata : Option Fields)
      → Operation
  on_archive : (project_id : String) → Operation
  on_delete : (project_id : String) → Operation
  on_link_source : (project_id source_id : String) → Operation
  on_unlink_source : (project_id source_id : String) → Operation

unfoldable pub call_of : String → Operation → Call
unfolding create list retrieve update archive delete link_source unlink_source
call_of sandbox_id (on_create name description data_source_ids metadata) =
    create sandbox_id name description data_source_ids metadata
call_of sandbox_id (on_list status) = list sandbox_id status
call_of sandbox_id (on_retrieve project_id) = retrieve sandbox_id project_id
call_of sandbox_id (on_update project_id name description metadata) =
    update sandbox_id project_id name description metadata
call_of sandbox_id (on_archive project_id) = archive sandbox_id project_id
call_of sandbox_id (on_delete project_id) = delete sandbox_id project_id
call_of sandbox_id (on_link_source project_id source_id) =
    link_source sandbox_id project_id source_id
call_of sandbox_id (on_unlink_source project_id source_id) =
    unlink_source sandbox_id project_id source_id
