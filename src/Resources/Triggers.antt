-- ===== src/Resources/Triggers.antt =====
-- agents.py: the triggers of an agent.
use copass.Prelude.{String, Bool, Option, some, [], ◌∷◌}
use copass.Json.{bool, num, str, obj, Fields, end, field}
use copass.Resources.{
  Call, get_call, post_call, patch_call, delete_call, path_of, storage_base, optional,
}
use copass.Resources.Agents.{agents_base}

unfoldable pub create :
    (sandbox_id slug data_source_id event_type_filter : String) (filter_config : Option Fields)
    (rate_limit_per_hour : Option String)
    → Call
unfolding optional path_of agents_base
create sandbox_id slug data_source_id event_type_filter filter_config rate_limit_per_hour =
    post_call (path_of (agents_base sandbox_id) (slug ∷ "triggers" ∷ []))
      (some (
        obj (
          field "data_source_id" (str data_source_id) (
            field "event_type_filter" (str event_type_filter) (
              optional "filter_config" obj filter_config
                (optional "rate_limit_per_hour" num rate_limit_per_hour end))))))
      []

unfoldable pub list : (sandbox_id slug : String) (status : Option String) → Call
unfolding path_of agents_base
list sandbox_id slug status =
    get_call (path_of (agents_base sandbox_id) (slug ∷ "triggers" ∷ [])) (("status", status) ∷ [])

unfoldable pub retrieve : (sandbox_id slug trigger_id : String) → Call
unfolding path_of agents_base
retrieve sandbox_id slug trigger_id =
    get_call (path_of (agents_base sandbox_id) (slug ∷ "triggers" ∷ trigger_id ∷ [])) []

unfoldable pub update :
    (sandbox_id slug trigger_id : String) (event_type_filter : Option String)
    (filter_config : Option Fields) (clear_filter_config : Bool)
    (rate_limit_per_hour : Option String) (clear_rate_limit : Bool) (status : Option String)
    → Call
unfolding optional path_of agents_base
update sandbox_id slug trigger_id event_type_filter filter_config clear_filter_config
      rate_limit_per_hour clear_rate_limit status =
    patch_call (path_of (agents_base sandbox_id) (slug ∷ "triggers" ∷ trigger_id ∷ []))
      (some (
        obj (
          field "clear_filter_config" (bool clear_filter_config) (
            field "clear_rate_limit" (bool clear_rate_limit) (
              optional "event_type_filter" str event_type_filter (
                optional "filter_config" obj filter_config (
                  optional "rate_limit_per_hour" num rate_limit_per_hour
                    (optional "status" str status end))))))))
      []

unfoldable pub destroy : (sandbox_id slug trigger_id : String) → Call
unfolding path_of agents_base
destroy sandbox_id slug trigger_id =
    delete_call (path_of (agents_base sandbox_id) (slug ∷ "triggers" ∷ trigger_id ∷ []))

unfoldable pub update_by_id :
    (sandbox_id trigger_id : String) (event_type_filter : Option String)
    (filter_config : Option Fields) (clear_filter_config : Bool)
    (rate_limit_per_hour : Option String) (clear_rate_limit : Bool) (status : Option String)
    → Call
unfolding optional path_of
update_by_id sandbox_id trigger_id event_type_filter filter_config clear_filter_config
      rate_limit_per_hour clear_rate_limit status =
    patch_call (path_of (storage_base) (sandbox_id ∷ "triggers" ∷ trigger_id ∷ []))
      (some (
        obj (
          field "clear_filter_config" (bool clear_filter_config) (
            field "clear_rate_limit" (bool clear_rate_limit) (
              optional "event_type_filter" str event_type_filter (
                optional "filter_config" obj filter_config (
                  optional "rate_limit_per_hour" num rate_limit_per_hour
                    (optional "status" str status end))))))))
      []

-- A method on a sandbox, with its other arguments.
pub data Operation : Type 0 where
  on_create :
      (slug data_source_id event_type_filter : String) (filter_config : Option Fields)
      (rate_limit_per_hour : Option String)
      → Operation
  on_list : (slug : String) (status : Option String) → Operation
  on_retrieve : (slug trigger_id : String) → Operation
  on_update :
      (slug trigger_id : String) (event_type_filter : Option String) (filter_config : Option Fields)
      (clear_filter_config : Bool) (rate_limit_per_hour : Option String) (clear_rate_limit : Bool)
      (status : Option String)
      → Operation
  on_destroy : (slug trigger_id : String) → Operation
  on_update_by_id :
      (trigger_id : String) (event_type_filter : Option String) (filter_config : Option Fields)
      (clear_filter_config : Bool) (rate_limit_per_hour : Option String) (clear_rate_limit : Bool)
      (status : Option String)
      → Operation

unfoldable pub call_of : String → Operation → Call
unfolding create list retrieve update destroy update_by_id
call_of sandbox_id
      (on_create slug data_source_id event_type_filter filter_config rate_limit_per_hour) =
    create sandbox_id slug data_source_id event_type_filter filter_config rate_limit_per_hour
call_of sandbox_id (on_list slug status) = list sandbox_id slug status
call_of sandbox_id (on_retrieve slug trigger_id) = retrieve sandbox_id slug trigger_id
call_of sandbox_id
      (on_update slug trigger_id event_type_filter filter_config clear_filter_config
        rate_limit_per_hour clear_rate_limit status) =
    update sandbox_id slug trigger_id event_type_filter filter_config clear_filter_config
      rate_limit_per_hour clear_rate_limit status
call_of sandbox_id (on_destroy slug trigger_id) = destroy sandbox_id slug trigger_id
call_of sandbox_id
      (on_update_by_id trigger_id event_type_filter filter_config clear_filter_config
        rate_limit_per_hour clear_rate_limit status) =
    update_by_id sandbox_id trigger_id event_type_filter filter_config clear_filter_config
      rate_limit_per_hour clear_rate_limit status
