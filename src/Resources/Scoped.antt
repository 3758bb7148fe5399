-- ===== src/Resources/Scoped.antt =====
-- The methods of the resources that are about a sandbox, and the sandbox in their paths.
use copass.Prelude.{String, Option, some, none, ◌≡◌, [], ◌∷◌, ◌>>=◌}
use copass.Json.{Value, Items}
use copass.Resources.{Call, path_of}
use copass.Resources.Triggers
use copass.Resources.Agents
use copass.Resources.Compute
use copass.Resources.Sources
use copass.Resources.Sandboxes
use copass.Resources.Projects
use copass.Resources.Ingest
use copass.Resources.Integrations
use copass.Resources.Account
use copass.Resources.Retrieval
use copass.Resources.Paths.{IsSegment, sandbox_in, sandbox_in-storage, sandbox_in-query}
use copass.Text.{codes}

-- That the path of a call has the id of a sandbox, and of no other, as its segment behind
-- `sandboxes`.
abbrev pub IsOn : String → Call → Type 0
IsOn sandbox_id c = sandbox_in c.path ≡ some (codes sandbox_id)

module _ (sandbox_id : String) (h : IsSegment sandbox_id) where
  triggers-IsOn : (op : Triggers.Operation) → IsOn sandbox_id (Triggers.call_of sandbox_id op)
  unfolding Triggers.call_of Triggers.create Triggers.list Triggers.retrieve Triggers.update
      Triggers.destroy Triggers.update_by_id path_of Agents.agents_base
  triggers-IsOn (Triggers.on_create slug _ _ _ _) =
      sandbox_in-storage sandbox_id ("agents" ∷ slug ∷ "triggers" ∷ []) h
  triggers-IsOn (Triggers.on_list slug _) =
      sandbox_in-storage sandbox_id ("agents" ∷ slug ∷ "triggers" ∷ []) h
  triggers-IsOn (Triggers.on_retrieve slug trigger_id) =
      sandbox_in-storage sandbox_id ("agents" ∷ slug ∷ "triggers" ∷ trigger_id ∷ []) h
  triggers-IsOn (Triggers.on_update slug trigger_id _ _ _ _ _ _) =
      sandbox_in-storage sandbox_id ("agents" ∷ slug ∷ "triggers" ∷ trigger_id ∷ []) h
  triggers-IsOn (Triggers.on_destroy slug trigger_id) =
      sandbox_in-storage sandbox_id ("agents" ∷ slug ∷ "triggers" ∷ trigger_id ∷ []) h
  triggers-IsOn (Triggers.on_update_by_id trigger_id _ _ _ _ _ _) =
      sandbox_in-storage sandbox_id ("triggers" ∷ trigger_id ∷ []) h

  agents-IsOn : (op : Agents.Operation) → IsOn sandbox_id (Agents.call_of sandbox_id op)
  unfolding Agents.call_of Agents.create Agents.list Agents.retrieve Agents.update Agents.archive
      Agents.update_model_settings Agents.update_tool_sources Agents.wire_integration
      Agents.test_fire Agents.start_chat_run Agents.list_runs Agents.get_run Agents.list_tools
      Agents.list_trigger_components path_of Agents.agents_base
  agents-IsOn (Agents.on_create _ _ _ _ _ _) = sandbox_in-storage sandbox_id ("agents" ∷ []) h
  agents-IsOn (Agents.on_list _) = sandbox_in-storage sandbox_id ("agents" ∷ []) h
  agents-IsOn (Agents.on_retrieve slug) = sandbox_in-storage sandbox_id ("agents" ∷ slug ∷ []) h
  agents-IsOn (Agents.on_update slug _ _ _ _ _ _) =
      sandbox_in-storage sandbox_id ("agents" ∷ slug ∷ []) h
  agents-IsOn (Agents.on_archive slug) = sandbox_in-storage sandbox_id ("agents" ∷ slug ∷ []) h
  agents-IsOn (Agents.on_update_model_settings slug _ _ _ _ _ _) =
      sandbox_in-storage sandbox_id ("agents" ∷ slug ∷ "model-settings" ∷ []) h
  agents-IsOn (Agents.on_update_tool_sources slug _) =
      sandbox_in-storage sandbox_id ("agents" ∷ slug ∷ "tool-sources" ∷ []) h
  agents-IsOn (Agents.on_wire_integration slug _) =
      sandbox_in-storage sandbox_id ("agents" ∷ slug ∷ "wire-integration" ∷ []) h
  agents-IsOn (Agents.on_test_fire slug _) =
      sandbox_in-storage sandbox_id ("agents" ∷ slug ∷ "test" ∷ []) h
  agents-IsOn (Agents.on_start_chat_run slug _ _) =
      sandbox_in-storage sandbox_id ("agents" ∷ slug ∷ "invoke-async" ∷ []) h
  agents-IsOn (Agents.on_list_runs slug _ _) =
      sandbox_in-storage sandbox_id ("agents" ∷ slug ∷ "runs" ∷ []) h
  agents-IsOn (Agents.on_get_run run_id) =
      sandbox_in-storage sandbox_id ("agents" ∷ "runs" ∷ run_id ∷ []) h
  agents-IsOn Agents.on_list_tools = sandbox_in-storage sandbox_id ("agents" ∷ "tools" ∷ []) h
  agents-IsOn (Agents.on_list_trigger_components _ _ _) =
      sandbox_in-storage sandbox_id ("agents" ∷ "triggers" ∷ "components" ∷ []) h

  compute-IsOn : (op : Compute.Operation) → IsOn sandbox_id (Compute.call_of sandbox_id op)
  unfolding Compute.call_of Compute.list_templates Compute.create_session Compute.list_sessions
      Compute.get_session Compute.stop_session Compute.exec Compute.session_health path_of
      Compute.compute_base
  compute-IsOn (Compute.on_list_templates _) =
      sandbox_in-storage sandbox_id ("compute" ∷ "templates" ∷ []) h
  compute-IsOn (Compute.on_create_session _ _ _ _) =
      sandbox_in-storage sandbox_id ("compute" ∷ "sessions" ∷ []) h
  compute-IsOn (Compute.on_list_sessions _ _) =
      sandbox_in-storage sandbox_id ("compute" ∷ "sessions" ∷ []) h
  compute-IsOn (Compute.on_get_session session_id) =
      sandbox_in-storage sandbox_id ("compute" ∷ "sessions" ∷ session_id ∷ []) h
  compute-IsOn (Compute.on_stop_session session_id) =
      sandbox_in-storage sandbox_id ("compute" ∷ "sessions" ∷ session_id ∷ []) h
  compute-IsOn (Compute.on_exec session_id _ _ _) =
      sandbox_in-storage sandbox_id ("compute" ∷ "sessions" ∷ session_id ∷ "exec" ∷ []) h
  compute-IsOn (Compute.on_session_health session_id) =
      sandbox_in-storage sandbox_id ("compute" ∷ "sessions" ∷ session_id ∷ "health" ∷ []) h

  sources-IsOn : (op : Sources.Operation) → IsOn sandbox_id (Sources.call_of sandbox_id op)
  unfolding Sources.call_of Sources.register Sources.list Sources.retrieve Sources.update
      Sources.connect_linear Sources.pull Sources.pause Sources.resume Sources.disconnect
      Sources.delete Sources.purge Sources.register_user_mcp Sources.test_user_mcp
      Sources.revoke_user_mcp Sources.ingest path_of Sources.ingest_base Sources.sources_base
  sources-IsOn (Sources.on_register _ _ _ _ _ _ _) =
      sandbox_in-storage sandbox_id ("sources" ∷ []) h
  sources-IsOn (Sources.on_list _ _) = sandbox_in-storage sandbox_id ("sources" ∷ []) h
  sources-IsOn (Sources.on_retrieve source_id) =
      sandbox_in-storage sandbox_id ("sources" ∷ source_id ∷ []) h
  sources-IsOn (Sources.on_update source_id _ _ _ _ _ _) =
      sandbox_in-storage sandbox_id ("sources" ∷ source_id ∷ []) h
  sources-IsOn (Sources.on_connect_linear _ _ _ _ _) =
      sandbox_in-storage sandbox_id ("sources" ∷ "linear" ∷ []) h
  sources-IsOn (Sources.on_pull source_id _ _) =
      sandbox_in-storage sandbox_id ("sources" ∷ source_id ∷ "pull" ∷ []) h
  sources-IsOn (Sources.on_pause source_id) =
      sandbox_in-storage sandbox_id ("sources" ∷ source_id ∷ "pause" ∷ []) h
  sources-IsOn (Sources.on_resume source_id) =
      sandbox_in-storage sandbox_id ("sources" ∷ source_id ∷ "resume" ∷ []) h
  sources-IsOn (Sources.on_disconnect source_id) =
      sandbox_in-storage sandbox_id ("sources" ∷ source_id ∷ "disconnect" ∷ []) h
  sources-IsOn (Sources.on_delete source_id) =
      sandbox_in-storage sandbox_id ("sources" ∷ source_id ∷ []) h
  sources-IsOn (Sources.on_purge source_id _) =
      sandbox_in-storage sandbox_id ("sources" ∷ source_id ∷ "purge" ∷ []) h
  sources-IsOn (Sources.on_register_user_mcp _ _ _ _ _ _ _ _ _ _) =
      sandbox_in-storage sandbox_id ("sources" ∷ "user-mcp" ∷ []) h
  sources-IsOn (Sources.on_test_user_mcp source_id) =
      sandbox_in-storage sandbox_id ("sources" ∷ source_id ∷ "user-mcp" ∷ "test" ∷ []) h
  sources-IsOn (Sources.on_revoke_user_mcp source_id) =
      sandbox_in-storage sandbox_id ("sources" ∷ source_id ∷ "user-mcp" ∷ "revoke" ∷ []) h
  sources-IsOn (Sources.on_ingest _ _ _ _ _ _ _ _) = sandbox_in-storage sandbox_id ("ingest" ∷ []) h

  sandboxes-IsOn : (op : Sandboxes.Operation) → IsOn sandbox_id (Sandboxes.call_of sandbox_id op)
  unfolding Sandboxes.call_of Sandboxes.retrieve Sandboxes.update Sandboxes.suspend
      Sandboxes.reactivate Sandboxes.archive Sandboxes.destroy Sandboxes.create_connection
      Sandboxes.list_connections Sandboxes.revoke_connection Sandboxes.spawn_api_key path_of
  sandboxes-IsOn Sandboxes.on_retrieve = sandbox_in-storage sandbox_id ([]) h
  sandboxes-IsOn (Sandboxes.on_update _ _) = sandbox_in-storage sandbox_id ([]) h
  sandboxes-IsOn Sandboxes.on_suspend = sandbox_in-storage sandbox_id ("suspend" ∷ []) h
  sandboxes-IsOn Sandboxes.on_reactivate = sandbox_in-storage sandbox_id ("reactivate" ∷ []) h
  sandboxes-IsOn Sandboxes.on_archive = sandbox_in-storage sandbox_id ("archive" ∷ []) h
  sandboxes-IsOn Sandboxes.on_destroy = sandbox_in-storage sandbox_id ([]) h
  sandboxes-IsOn (Sandboxes.on_create_connection _ _ _ _ _ _ _) =
      sandbox_in-storage sandbox_id ("connections" ∷ []) h
  sandboxes-IsOn (Sandboxes.on_list_connections _) =
      sandbox_in-storage sandbox_id ("connections" ∷ []) h
  sandboxes-IsOn (Sandboxes.on_revoke_connection connection_id) =
      sandbox_in-storage sandbox_id ("connections" ∷ connection_id ∷ []) h
  sandboxes-IsOn (Sandboxes.on_spawn_api_key connection_id) =
      sandbox_in-storage sandbox_id ("connections" ∷ connection_id ∷ "api-keys" ∷ []) h

  projects-IsOn : (op : Projects.Operation) → IsOn sandbox_id (Projects.call_of sandbox_id op)
  unfolding Projects.call_of Projects.create Projects.list Projects.retrieve Projects.update
      Projects.archive Projects.delete Projects.link_source Projects.unlink_source path_of
      Projects.projects_base
  projects-IsOn (Projects.on_create _ _ _ _) = sandbox_in-storage sandbox_id ("projects" ∷ []) h
  projects-IsOn (Projects.on_list _) = sandbox_in-storage sandbox_id ("projects" ∷ []) h
  projects-IsOn (Projects.on_retrieve project_id) =
      sandbox_in-storage sandbox_id ("projects" ∷ project_id ∷ []) h
  projects-IsOn (Projects.on_update project_id _ _ _) =
      sandbox_in-storage sandbox_id ("projects" ∷ project_id ∷ []) h
  projects-IsOn (Projects.on_archive project_id) =
      sandbox_in-storage sandbox_id ("projects" ∷ project_id ∷ "archive" ∷ []) h
  projects-IsOn (Projects.on_delete project_id) =
      sandbox_in-storage sandbox_id ("projects" ∷ project_id ∷ []) h
  projects-IsOn (Projects.on_link_source project_id source_id) =
      sandbox_in-storage sandbox_id ("projects" ∷ project_id ∷ "sources" ∷ source_id ∷ []) h
  projects-IsOn (Projects.on_unlink_source project_id source_id) =
      sandbox_in-storage sandbox_id ("projects" ∷ project_id ∷ "sources" ∷ source_id ∷ []) h

  ingest-IsOn : (op : Ingest.Operation) → IsOn sandbox_id (Ingest.call_of sandbox_id op)
  unfolding Ingest.call_of Ingest.text_in_sandbox Ingest.get_sandbox_job path_of
      Ingest.explicit_base
  ingest-IsOn (Ingest.on_text_in_sandbox _ _ _ _ _ _ _ _) =
      sandbox_in-storage sandbox_id ("ingest" ∷ []) h
  ingest-IsOn (Ingest.on_get_sandbox_job job_id) =
      sandbox_in-storage sandbox_id ("ingest" ∷ job_id ∷ []) h

  integrations-IsOn :
      (op : Integrations.Operation) → IsOn sandbox_id (Integrations.call_of sandbox_id op)
  unfolding Integrations.call_of Integrations.catalog Integrations.list_accounts
      Integrations.connect Integrations.list Integrations.disconnect Integrations.reconcile path_of
      Integrations.integrations_base
  integrations-IsOn (Integrations.on_catalog _ _ _) =
      sandbox_in-storage sandbox_id ("sources" ∷ "integrations" ∷ "catalog" ∷ []) h
  integrations-IsOn (Integrations.on_list_accounts _) =
      sandbox_in-storage sandbox_id ("sources" ∷ "integrations" ∷ "accounts" ∷ []) h
  integrations-IsOn (Integrations.on_connect app _ _ _ _ _) =
      sandbox_in-storage sandbox_id ("sources" ∷ "integrations" ∷ app ∷ "connect" ∷ []) h
  integrations-IsOn (Integrations.on_list _) =
      sandbox_in-storage sandbox_id ("sources" ∷ "integrations" ∷ "connections" ∷ []) h
  integrations-IsOn (Integrations.on_disconnect source_id) =
      sandbox_in-storage sandbox_id ("sources" ∷ "integrations" ∷ "connections" ∷ source_id ∷ []) h
  integrations-IsOn (Integrations.on_reconcile _ _ _) =
      sandbox_in-storage sandbox_id ("sources" ∷ "integrations" ∷ "reconcile" ∷ []) h

  entities-IsOn :
      (q : String) (limit min_similarity canonical_id project_id : Option String)
      → IsOn sandbox_id
          (Account.search_entities sandbox_id q limit min_similarity canonical_id project_id)
  unfolding Account.search_entities path_of
  entities-IsOn q limit min_similarity canonical_id project_id =
      sandbox_in-storage sandbox_id ("entities" ∷ "search" ∷ []) h

  -- That a call is on the sandbox, if there is one.
  abbrev pub IsOnIfAny : Option Call → Type 0
  IsOnIfAny none = Unit
  IsOnIfAny (some c) = IsOn sandbox_id c

  after_history :
      (turns : Option Items) (f : Items → Call)
      → ((ts : Items) → IsOn sandbox_id (f ts))
      → IsOnIfAny (turns >>= λ ts. some (f ts))
  after_history none f k = tt
  after_history (some ts) f k = k ts

  retrieval-IsOn :
      (print : Value → String) (op : Retrieval.Operation)
      → IsOnIfAny (Retrieval.call_of print sandbox_id op)
  unfolding Retrieval.call_of Retrieval.discover Retrieval.interpret Retrieval.search
      Retrieval.get_origin path_of
  retrieval-IsOn print (Retrieval.on_discover query window history _ _ _) =
      after_history (Retrieval.history_of print window history) _
        λ ts. sandbox_in-query sandbox_id ("discover" ∷ []) h
  retrieval-IsOn print (Retrieval.on_interpret query items window history _ _ _ _) =
      after_history (Retrieval.history_of print window history) _
        λ ts. sandbox_in-query sandbox_id ("interpret" ∷ []) h
  retrieval-IsOn print (Retrieval.on_search query window history _ _ _ _ _) =
      after_history (Retrieval.history_of print window history) _
        λ ts. sandbox_in-query sandbox_id ("search" ∷ []) h
  retrieval-IsOn print (Retrieval.on_get_origin ids limit) =
      sandbox_in-query sandbox_id ("origins" ∷ []) h

-- Any method on a sandbox, of any resource.
pub data Operation : Type 0 where
  triggers : Triggers.Operation → Operation
  agents : Agents.Operation → Operation
  compute : Compute.Operation → Operation
  sources : Sources.Operation → Operation
  sandboxes : Sandboxes.Operation → Operation
  projects : Projects.Operation → Operation
  ingest : Ingest.Operation → Operation
  integrations : Integrations.Operation → Operation
  retrieval : Retrieval.Operation → Operation
  entities : (q : String) (limit min_similarity canonical_id project_id : Option String) → Operation

unfoldable pub call_of : (Value → String) → String → Operation → Option Call
call_of print sandbox_id (triggers op) = some (Triggers.call_of sandbox_id op)
call_of print sandbox_id (agents op) = some (Agents.call_of sandbox_id op)
call_of print sandbox_id (compute op) = some (Compute.call_of sandbox_id op)
call_of print sandbox_id (sources op) = some (Sources.call_of sandbox_id op)
call_of print sandbox_id (sandboxes op) = some (Sandboxes.call_of sandbox_id op)
call_of print sandbox_id (projects op) = some (Projects.call_of sandbox_id op)
call_of print sandbox_id (ingest op) = some (Ingest.call_of sandbox_id op)
call_of print sandbox_id (integrations op) = some (Integrations.call_of sandbox_id op)
call_of print sandbox_id (retrieval op) = Retrieval.call_of print sandbox_id op
call_of print sandbox_id (entities q limit min_similarity canonical_id project_id) =
    some (Account.search_entities sandbox_id q limit min_similarity canonical_id project_id)

-- Whatever the other arguments of a method are, also where they have slashes in them, the path of its
-- call, if it makes one, has the id of the sandbox that it is called on, and of no other, as its
-- segment behind `sandboxes`, if that id has no slash in it.
pub call_of-IsOnIfAny :
    (print : Value → String) (sandbox_id : String) (op : Operation) (h : IsSegment sandbox_id)
    → IsOnIfAny sandbox_id h (call_of print sandbox_id op)
unfolding call_of
call_of-IsOnIfAny print sandbox_id (triggers op) h = triggers-IsOn sandbox_id h op
call_of-IsOnIfAny print sandbox_id (agents op) h = agents-IsOn sandbox_id h op
call_of-IsOnIfAny print sandbox_id (compute op) h = compute-IsOn sandbox_id h op
call_of-IsOnIfAny print sandbox_id (sources op) h = sources-IsOn sandbox_id h op
call_of-IsOnIfAny print sandbox_id (sandboxes op) h = sandboxes-IsOn sandbox_id h op
call_of-IsOnIfAny print sandbox_id (projects op) h = projects-IsOn sandbox_id h op
call_of-IsOnIfAny print sandbox_id (ingest op) h = ingest-IsOn sandbox_id h op
call_of-IsOnIfAny print sandbox_id (integrations op) h = integrations-IsOn sandbox_id h op
call_of-IsOnIfAny print sandbox_id (retrieval op) h = retrieval-IsOn sandbox_id h print op
call_of-IsOnIfAny print sandbox_id (entities q limit min_similarity canonical_id project_id) h =
    entities-IsOn sandbox_id h q limit min_similarity canonical_id project_id
