-- ===== src/Sources.antt =====
-- python/copass-core/src/copass_core/data_sources.py: `ensure_data_source`, which looks for a source
-- of a name before it registers one. The API is a parameter, with a state that a registration
-- changes; a call of it answers or raises.
pub mod Ensure
mod Examples
use copass.Prelude.{
  ℕ, String, ◌≡◌, refl, Bool, true, false, Option, none, some, ◌==◌, if◌then◌else◌, arith,
  Bool-cases, inl, inr,
}
use copass.Json.{Value, str, arr, obj, Items, no_items, item, Fields, end, field, field_at}

pub record SourceRequest : Type 0 where
  pub provider : String
  pub name : String
  pub ingestion_mode : Option String
  pub kind : Option String
  pub external_account_id : Option String
  pub adapter_config : Option Fields
  pub poll_interval_seconds : Option ℕ

-- `client.sources`: `none` is an exception.
pub record SourcesApi (S : Type 0) : Type 0 where
  pub list : S → String → Option Value
  pub register : S → SourceRequest → Option (S × Value)

-- `source.get("name") == name`
abbrev pub is_str : String → Option Value → Bool
is_str name (some (str n)) = n == name
is_str name _ = false

abbrev pub is_named : String → Fields → Bool
is_named name source = is_str name (field_at "name" source)

-- What is iterated over: a missing list is empty, and what is no list is refused by Python unless it
-- is empty.
abbrev pub iterated : Option Value → Option Items
iterated none = some no_items
iterated (some (arr sources)) = some sources
iterated (some (obj end)) = some no_items
iterated (some (str s)) = if s == "" then some no_items else none
iterated (some _) = none

unfoldable pub sources_of : Value → Option Items
sources_of (obj existing) = iterated (field_at "sources" existing)
sources_of _ = some no_items

pub data Lookup : Type 0 where
  found : Fields → Lookup
  absent lookup_raises : Lookup

unfoldable pub find_source : String → Items → Lookup
find_source name no_items = absent
find_source name (item (obj source) rest) =
    let later = find_source name rest in if is_named name source then found source else later
find_source name (item _ rest) = lookup_raises

abbrev pub reuse_or_register :
    {S : Type 0} → SourcesApi S → SourceRequest → S → Lookup → Option (S × Value)
reuse_or_register api request s (found source) = some (s, obj source)
reuse_or_register api request s absent = api.register s request
reuse_or_register api request s lookup_raises = none

abbrev pub look : String → Option Value → Lookup
look name none = lookup_raises
look name (some existing) = elim (sources_of existing) [
  | none ↦ lookup_raises
  | some sources ↦ find_source name sources
]

-- `ensure_data_source`
unfoldable pub ensure_data_source :
    {S : Type 0} → SourcesApi S → SourceRequest → Bool → S → Option (S × Value)
unfolding find_source sources_of
ensure_data_source api request reuse_existing s =
    if reuse_existing
    then reuse_or_register api request s (look request.name (api.list s request.provider))
    else api.register s request
