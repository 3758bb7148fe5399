-- ===== src/Management.antt =====
-- python/copass-management/src/copass_management: specs.py, the specifications of the management
-- tools, read from parsed JSON files in the order of their names, and registrar.py, which registers
-- a tool for each. Only whether a tool has a handler matters to the registration.
mod Examples
pub mod Registered
use copass.Prelude.{
  String, Bool, true, false, ◌&&◌, not, Option, none, some, List, [], ◌∷◌, if◌then◌else◌, or_else,
}
use copass.Dict.{Dict, get, put, keys}
use copass.Json.{Value, str, obj, Fields, end, field_at}
use copass.Json.Strip.{strip_keys}
use copass.Sorted.{sorted}

pub record ManagementSpec : Type 0 where
  pub name : String
  pub description : String
  pub input_schema : Value
  pub output_schema : Value
  pub since : String

abbrev pub json_schema_meta_keys : List String
json_schema_meta_keys = "$schema" ∷ "$id" ∷ "$defs" ∷ "$ref" ∷ "$comment" ∷ []

unfoldable pub strip_json_schema_meta : Value → Value
strip_json_schema_meta value = strip_keys json_schema_meta_keys value

-- The call of `cls` in `from_json`.
abbrev pub new_spec : String → String → Fields → Fields → String → ManagementSpec
new_spec name description input output since = record {
  name = name;
  description = description;
  input_schema = strip_json_schema_meta (obj input);
  output_schema = strip_json_schema_meta (obj output);
  since = since;
}

-- A specification from its five fields, each of which has to be there and of its type.
unfoldable pub spec_of :
    Option Value → Option Value → Option Value → Option Value → Option Value → Option ManagementSpec
spec_of (some (str name)) (some (str description)) (some (obj input)) (some (obj output))
      (some (str since)) =
    some (new_spec name description input output since)
spec_of _ _ _ _ _ = none

-- `from_json`; `none` is an exception.
unfoldable pub from_json : Value → Option ManagementSpec
unfolding spec_of
from_json (obj pairs) =
    spec_of (field_at "name" pairs) (field_at "description" pairs) (field_at "inputSchema" pairs)
      (field_at "outputSchema" pairs) (field_at "since" pairs)
from_json _ = none

-- The loop of `load_management_specs` over the files: a name that comes again is overwritten.
unfoldable pub load_specs : Dict ManagementSpec → List Value → Option (Dict ManagementSpec)
load_specs specs [] = some specs
load_specs specs (raw ∷ rest) = elim (from_json raw) [
  | none ↦ none
  | some spec ↦ load_specs (put specs spec.name spec) rest
]

-- What has been registered, and the tool without a handler that ended the registration.
pub record Registrations : Type 0 where
  pub registered : List ManagementSpec
  pub missing : Option String

abbrev pub registration : Option ManagementSpec → Registrations → Registrations
registration none r = r
registration (some spec) r = record r { registered = spec ∷ r.registered }

unfoldable pub register_names :
    Dict ManagementSpec → (String → Bool) → Bool → List String → Registrations
register_names specs has_handler allow_missing [] = record { registered = []; missing = none }
register_names specs has_handler allow_missing (k ∷ ks) =
    let rest = register_names specs has_handler allow_missing ks in
    if has_handler k
    then registration (get specs k) rest
    else if allow_missing
    then rest
    else record { registered = []; missing = some k }

-- `register_management_tools`
unfoldable pub register_management_tools :
    Dict ManagementSpec → (String → Bool) → Bool → Registrations
unfolding register_names
register_management_tools specs has_handler allow_missing =
    register_names specs has_handler allow_missing (sorted (keys specs))
