-- ===== src/Json/Examples.antt =====
-- A schema with forbidden keys at two depths, and the theorems at it.
use copass.Prelude.{contains, ◌≡◌, refl, false}
use copass.Json.{Value, str, obj, Fields, end, field}
use copass.Json.Strip.{IsClean}
use copass.Json.Sanitize.{
  forbidden_input_schema_keys, sanitize_input_schema, sanitize_input_schema_lem,
}

abbrev property : Value
property = obj (field "type" (str "string") (field "$comment" (str "why") end))

abbrev schema : Fields
schema =
    field "$schema" (str "2020-12")
      (field "type" (str "object") (field "properties" (obj (field "q" property end)) end))

sanitize_schema :
    sanitize_input_schema (obj schema)
    ≡ obj (
        field "type"
          (str "object")
          (field "properties" (obj (field "q" (obj (field "type" (str "string") end)) end)) end))
unfolding sanitize_input_schema
sanitize_schema = refl

sanitize_input_schema_example :
    IsClean forbidden_input_schema_keys (sanitize_input_schema (obj schema))
    × (IsClean forbidden_input_schema_keys (obj schema)
        → sanitize_input_schema (obj schema) ≡ obj schema)
    × (sanitize_input_schema (sanitize_input_schema (obj schema))
        ≡ sanitize_input_schema (obj schema))
sanitize_input_schema_example = sanitize_input_schema_lem (obj schema)

type_is_allowed : contains forbidden_input_schema_keys "type" ≡ false
type_is_allowed = refl
