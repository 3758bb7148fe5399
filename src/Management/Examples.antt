-- ===== src/Management/Examples.antt =====
-- Management tools at concrete specification files.
use copass.Prelude.{String, ◌≡◌, refl, Bool, false, none, some, List, [], ◌∷◌, All, ◌==◌}
use copass.Dict.{Dict, get, put, keys}
use copass.Json.{Value, str, obj, Fields, end, field, field_at}
use copass.Json.Strip.{strip_keys}
use copass.Sorted.{sorted}
use copass.Management.{
  ManagementSpec, strip_json_schema_meta, from_json, load_specs, register_management_tools,
}
use copass.Management.Registered.{IsRegistered, HasCleanSchemas, register_management_tools_lem}

abbrev schema : Fields
schema = field "$schema" (str "draft") (field "type" (str "object") end)

abbrev file_of : String → Value
file_of name = obj (
    field "name" (str name) (
      field "description" (str "a tool") (
        field "inputSchema" (obj schema)
          (field "outputSchema" (obj schema) (field "since" (str "v1") end)))))

abbrev spec_named : String → ManagementSpec
spec_named name = record {
  name = name;
  description = "a tool";
  input_schema = obj (field "type" (str "object") end);
  output_schema = obj (field "type" (str "object") end);
  since = "v1";
}

abbrev two_files : List Value
two_files = file_of "list" ∷ file_of "create" ∷ []

abbrev two_specs : Dict ManagementSpec
two_specs = ("list", spec_named "list") ∷ ("create", spec_named "create") ∷ []

loads_two : load_specs [] two_files ≡ some two_specs
unfolding load_specs from_json field_at put strip_json_schema_meta strip_keys
loads_two = refl

-- A file without a version does not load.
misses_since : from_json (obj (field "name" (str "list") end)) ≡ none
unfolding from_json field_at
misses_since = refl

abbrev only_create : String → Bool
only_create name = name == "create"

stops_at_list :
    register_management_tools two_specs only_create false
    ≡ record { registered = spec_named "create" ∷ []; missing = some "list" }
unfolding register_management_tools sorted keys get
stops_at_list = refl

register_management_tools_example :
    let r = register_management_tools two_specs only_create false in
    IsRegistered only_create false (sorted (keys two_specs)) r × All HasCleanSchemas r.registered
register_management_tools_example =
    register_management_tools_lem two_files two_specs only_create false loads_two
