-- ===== src/Resources/Routes/Reaches.antt =====
-- agents.py: that the path of a method leads to its endpoint.
use copass.Prelude.{String, ◌≡◌, refl, ap, ◌∙◌, some, [], ◌∷◌, All}
use copass.Resources.{Call, path_of}
use copass.Resources.Agents
use copass.Resources.Triggers
use copass.Resources.Paths.{IsSegment, behind, behind-path_of}
use copass.Resources.Routes.{
  Endpoint, route, IsName, agents_endpoint, agents_names, triggers_endpoint, triggers_names, Method,
  on_agents, on_triggers, call_of, endpoint_of, names_of,
}

module _ (sandbox_id : String) (h : IsSegment sandbox_id) where
  abbrev Reaches : Call → Endpoint → Type 0
  Reaches c e = route c.method (behind c.path) ≡ some e

  pub agents-Reaches :
      (op : Agents.Operation)
      → All IsName (agents_names op)
      → Reaches (Agents.call_of sandbox_id op) (agents_endpoint op)
  unfolding route Agents.call_of Agents.create Agents.list Agents.retrieve Agents.update
      Agents.archive Agents.update_model_settings Agents.update_tool_sources Agents.wire_integration
      Agents.test_fire Agents.start_chat_run Agents.list_runs Agents.get_run Agents.list_tools
      Agents.list_trigger_components path_of Agents.agents_base
  agents-Reaches (Agents.on_create _ _ _ _ _ _) e =
      ap (route "POST") (behind-path_of sandbox_id ("agents" ∷ []) h (refl, tt)) ∙ refl
  agents-Reaches (Agents.on_list _) e =
      ap (route "GET") (behind-path_of sandbox_id ("agents" ∷ []) h (refl, tt)) ∙ refl
  agents-Reaches (Agents.on_retrieve slug) (n0, e) =
      ap (route "GET") (behind-path_of sandbox_id ("agents" ∷ slug ∷ []) h (refl, (n0.segment, tt)))
      ∙ rw n0.not_tools refl
  agents-Reaches (Agents.on_update slug _ _ _ _ _ _) (n0, e) =
      ap (route "PATCH")
        (behind-path_of sandbox_id ("agents" ∷ slug ∷ []) h (refl, (n0.segment, tt)))
      ∙ refl
  agents-Reaches (Agents.on_archive slug) (n0, e) =
      ap (route "DELETE")
        (behind-path_of sandbox_id ("agents" ∷ slug ∷ []) h (refl, (n0.segment, tt)))
      ∙ refl
  agents-Reaches (Agents.on_update_model_settings slug _ _ _ _ _ _) (n0, e) =
      ap (route "PATCH") (
        behind-path_of sandbox_id ("agents" ∷ slug ∷ "model-settings" ∷ []) h
          (refl, (n0.segment, (refl, tt))))
      ∙ refl
  agents-Reaches (Agents.on_update_tool_sources slug _) (n0, e) =
      ap (route "PATCH") (
        behind-path_of sandbox_id ("agents" ∷ slug ∷ "tool-sources" ∷ []) h
          (refl, (n0.segment, (refl, tt))))
      ∙ refl
  agents-Reaches (Agents.on_wire_integration slug _) (n0, e) =
      ap (route "POST") (
        behind-path_of sandbox_id ("agents" ∷ slug ∷ "wire-integration" ∷ []) h
          (refl, (n0.segment, (refl, tt))))
      ∙ refl
  agents-Reaches (Agents.on_test_fire slug _) (n0, e) =
      ap (route "POST") (
        behind-path_of sandbox_id ("agents" ∷ slug ∷ "test" ∷ []) h
          (refl, (n0.segment, (refl, tt))))
      ∙ refl
  agents-Reaches (Agents.on_start_chat_run slug _ _) (n0, e) =
      ap (route "POST") (
        behind-path_of sandbox_id ("agents" ∷ slug ∷ "invoke-async" ∷ []) h
          (refl, (n0.segment, (refl, tt))))
      ∙ refl
  agents-Reaches (Agents.on_list_runs slug _ _) (n0, e) =
      ap (route "GET") (
        behind-path_of sandbox_id ("agents" ∷ slug ∷ "runs" ∷ []) h
          (refl, (n0.segment, (refl, tt))))
      ∙ rw n0.not_runs (rw n0.not_triggers refl)
  agents-Reaches (Agents.on_get_run run_id) (n0, e) =
      ap (route "GET") (
        behind-path_of sandbox_id ("agents" ∷ "runs" ∷ run_id ∷ []) h
          (refl, (refl, (n0.segment, tt))))
      ∙ refl
  agents-Reaches Agents.on_list_tools e =
      ap (route "GET") (behind-path_of sandbox_id ("agents" ∷ "tools" ∷ []) h (refl, (refl, tt)))
      ∙ refl
  agents-Reaches (Agents.on_list_trigger_components _ _ _) e =
      ap (route "GET") (
        behind-path_of sandbox_id ("agents" ∷ "triggers" ∷ "components" ∷ []) h
          (refl, (refl, (refl, tt))))
      ∙ refl

  pub triggers-Reaches :
      (op : Triggers.Operation)
      → All IsName (triggers_names op)
      → Reaches (Triggers.call_of sandbox_id op) (triggers_endpoint op)
  unfolding route Triggers.call_of Triggers.create Triggers.list Triggers.retrieve Triggers.update
      Triggers.destroy Triggers.update_by_id path_of Agents.agents_base
  triggers-Reaches (Triggers.on_create slug _ _ _ _) (n0, e) =
      ap (route "POST") (
        behind-path_of sandbox_id ("agents" ∷ slug ∷ "triggers" ∷ []) h
          (refl, (n0.segment, (refl, tt))))
      ∙ refl
  triggers-Reaches (Triggers.on_list slug _) (n0, e) =
      ap (route "GET") (
        behind-path_of sandbox_id ("agents" ∷ slug ∷ "triggers" ∷ []) h
          (refl, (n0.segment, (refl, tt))))
      ∙ rw n0.not_runs (rw n0.not_triggers refl)
  triggers-Reaches (Triggers.on_retrieve slug trigger_id) (n0, (n1, e)) =
      ap (route "GET") (
        behind-path_of sandbox_id ("agents" ∷ slug ∷ "triggers" ∷ trigger_id ∷ []) h
          (refl, (n0.segment, (refl, (n1.segment, tt)))))
      ∙ refl
  triggers-Reaches (Triggers.on_update slug trigger_id _ _ _ _ _ _) (n0, (n1, e)) =
      ap (route "PATCH") (
        behind-path_of sandbox_id ("agents" ∷ slug ∷ "triggers" ∷ trigger_id ∷ []) h
          (refl, (n0.segment, (refl, (n1.segment, tt)))))
      ∙ refl
  triggers-Reaches (Triggers.on_destroy slug trigger_id) (n0, (n1, e)) =
      ap (route "DELETE") (
        behind-path_of sandbox_id ("agents" ∷ slug ∷ "triggers" ∷ trigger_id ∷ []) h
          (refl, (n0.segment, (refl, (n1.segment, tt)))))
      ∙ refl
  triggers-Reaches (Triggers.on_update_by_id trigger_id _ _ _ _ _ _) (n0, e) =
      ap (route "PATCH")
        (behind-path_of sandbox_id ("triggers" ∷ trigger_id ∷ []) h (refl, (n0.segment, tt)))
      ∙ refl

-- Read segment by segment, the path of the call of a method on agents or triggers leads to the
-- endpoint of that method, with the names that the caller gave. So no two methods make calls that the
-- API cannot tell apart. The names have no slash in them and are none of `tools`, `runs` and `triggers`,
-- nor has the id of the sandbox a slash.
pub route-call_of :
    (sandbox_id : String) (m : Method)
    → IsSegment sandbox_id
    → All IsName (names_of m)
    → route (call_of sandbox_id m).method (behind (call_of sandbox_id m).path)
      ≡ some (endpoint_of m)
unfolding call_of
route-call_of sandbox_id (on_agents op) h k = agents-Reaches sandbox_id h op k
route-call_of sandbox_id (on_triggers op) h k = triggers-Reaches sandbox_id h op k
