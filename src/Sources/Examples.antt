-- ===== src/Sources/Examples.antt =====
-- Registering a source with an API that keeps a list of sources and ignores the provider.
use copass.Prelude.{String, ◌≡◌, refl, true, none, some, eq_iff, arith, ap, ◌∙◌}
use copass.Json.{str, arr, obj, Items, no_items, item, Fields, end, field, field_at}
use copass.Sources.{
  SourceRequest, SourcesApi, is_named, sources_of, ensure_data_source, find_source,
}
use copass.Sources.Ensure.{append, IsSourcesApi, ensure_data_source-again}

abbrev source_named : String → Fields
source_named name = field "name" (str name) end

abbrev api : SourcesApi Items
api = record {
  list = λ s provider. some (obj (field "sources" (arr s) end));
  register =
      λ s request. some (item (obj (source_named request.name)) s, obj (source_named request.name));
}

api-IsSourcesApi : IsSourcesApi api
unfolding append sources_of field_at
api-IsSourcesApi = record {
  named = λ s t request v e.
      (source_named request.name, cc e, ground (arith, eq_iff request.name request.name));
  listed = λ s t request v existing sources e answered read.
      let listed : obj (field "sources" (arr s) end) ≡ existing = cc answered in
      let same : some s ≡ some sources = ap sources_of listed ∙ read in
      (obj (field "sources" (arr t) end), no_items, s, refl, cc e, cc same);
}

abbrev slack : SourceRequest
slack = record {
  provider = "slack";
  name = "team";
  ingestion_mode = none;
  kind = none;
  external_account_id = none;
  adapter_config = none;
  poll_interval_seconds = none;
}

registers_team :
    ensure_data_source api slack true (item (obj (source_named "other")) no_items)
    ≡ some (
      item (obj (source_named "team")) (item (obj (source_named "other")) no_items),
      obj (source_named "team"),
    )
unfolding ensure_data_source sources_of field_at find_source
registers_team = refl

ensure_data_source-again_example :
    (ensure_data_source api slack true
        (item (obj (source_named "team")) (item (obj (source_named "other")) no_items))
      ≡ some (
        item (obj (source_named "team")) (item (obj (source_named "other")) no_items),
        obj (source_named "team"),
      ))
    × ((source : Fields) × (obj (source_named "team") ≡ obj source)
        × (is_named "team" source ≡ true))
ensure_data_source-again_example =
    ensure_data_source-again api api-IsSourcesApi slack (item (obj (source_named "other")) no_items)
      (item (obj (source_named "team")) (item (obj (source_named "other")) no_items))
      (obj (source_named "team")) registers_team
