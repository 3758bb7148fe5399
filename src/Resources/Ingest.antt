-- ===== src/Resources/Ingest.antt =====
-- ingest.py: texts that are ingested, and their jobs.
use copass.Prelude.{String, Bool, Option, some, List, [], ◌∷◌}
use copass.Json.{bool, str, obj, Fields, end, field}
use copass.Resources.{Call, get_call, post_call, path_of, storage_base, optional, strings}

unfoldable pub explicit_base : String → String
unfolding path_of
explicit_base sandbox_id = path_of storage_base (sandbox_id ∷ "ingest" ∷ [])

abbrev pub shorthand : String
shorthand = "/api/v1/storage/ingest"

unfoldable pub build_ingest_body :
    (text : String) (source_type : Option String) (storage_only : Option Bool)
    (project_id data_source_id occurred_at speaker : Option String)
    (participants : Option (List String))
    → Fields
unfolding optional
build_ingest_body text source_type storage_only project_id data_source_id occurred_at speaker
      participants =
    (field "text" (str text) (
      optional "source_type" str source_type (
        optional "storage_only" bool storage_only (
          optional "project_id" str project_id (
            optional "data_source_id" str data_source_id (
              optional "occurred_at" str occurred_at (
                optional "speaker" str speaker
                  (optional "participants" strings participants end))))))))

unfoldable pub text :
    (payload : String) (source_type : Option String) (storage_only : Option Bool)
    (project_id data_source_id occurred_at speaker : Option String)
    (participants : Option (List String))
    → Call
unfolding build_ingest_body
text payload source_type storage_only project_id data_source_id occurred_at speaker participants =
    post_call (shorthand)
      (some (
        obj (
          build_ingest_body payload source_type storage_only project_id data_source_id occurred_at
            speaker participants)))
      []

unfoldable pub get_job : (job_id : String) → Call
unfolding path_of
get_job job_id = get_call (path_of (shorthand) (job_id ∷ [])) []

unfoldable pub text_in_sandbox :
    (sandbox_id text : String) (source_type : Option String) (storage_only : Option Bool)
    (project_id data_source_id occurred_at speaker : Option String)
    (participants : Option (List String))
    → Call
unfolding build_ingest_body explicit_base
text_in_sandbox sandbox_id text source_type storage_only project_id data_source_id occurred_at
      speaker participants =
    post_call (explicit_base sandbox_id)
      (some (
        obj (
          build_ingest_body text source_type storage_only project_id data_source_id occurred_at
            speaker participants)))
      []

unfoldable pub get_sandbox_job : (sandbox_id job_id : String) → Call
unfolding path_of explicit_base
get_sandbox_job sandbox_id job_id = get_call (path_of (explicit_base sandbox_id) (job_id ∷ [])) []

-- A method on a sandbox, with its other arguments.
pub data Operation : Type 0 where
  on_text_in_sandbox :
      (text : String) (source_type : Option String) (storage_only : Option Bool)
      (project_id data_source_id occurred_at speaker : Option String)
      (participants : Option (List String))
      → Operation
  on_get_sandbox_job : (job_id : String) → Operation

unfoldable pub call_of : String → Operation → Call
unfolding text_in_sandbox get_sandbox_job
call_of sandbox_id
      (on_text_in_sandbox text source_type storage_only project_id data_source_id occurred_at
        speaker participants) =
    text_in_sandbox sandbox_id text source_type storage_only project_id data_source_id occurred_at
      speaker participants
call_of sandbox_id (on_get_sandbox_job job_id) = get_sandbox_job sandbox_id job_id
