-- ===== src/Json/Sanitize.antt =====
-- python/copass-anthropic-agents/src/copass_anthropic_agents/backends/_input_schema.py: the keys
-- that the tool-registration API refuses are stripped from a schema at every depth.

use copass.Prelude.{String, ◌≡◌, List, [], ◌∷◌}
use copass.Json.{Value}
use copass.Json.Strip.{strip_keys, IsClean, strip_keys-IsStripping}

abbrev pub forbidden_input_schema_keys : List String
forbidden_input_schema_keys =
    "$schema" ∷ "$id" ∷ "$defs" ∷ "$ref" ∷ "$comment" ∷ "additionalProperties" ∷ []

unfoldable pub sanitize_input_schema : Value → Value
unfolding strip_keys
sanitize_input_schema schema = strip_keys forbidden_input_schema_keys schema

-- Whatever the schema, no object of the sanitized schema has a forbidden key at any depth, and a
-- schema without such a key comes back as it was, so that sanitizing twice is sanitizing once.
pub sanitize_input_schema_lem :
    (v : Value)
    → IsClean forbidden_input_schema_keys (sanitize_input_schema v)
      × (IsClean forbidden_input_schema_keys v → sanitize_input_schema v ≡ v)
      × (sanitize_input_schema (sanitize_input_schema v) ≡ sanitize_input_schema v)
unfolding sanitize_input_schema
sanitize_input_schema_lem v = strip_keys-IsStripping forbidden_input_schema_keys v
