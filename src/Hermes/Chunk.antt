-- ===== src/Hermes/Chunk.antt =====
-- hermes_agent_backend.py: what `_stream_once` does with one chunk of a response. `print` is `str` on
-- dictionaries and lists.
use copass.Prelude.{ℕ, String, true, Option, none, some, List, [], ◌∷◌, ◌==◌, if◌then◌else◌}
use copass.Dict.{Dict, put}
use copass.Json.{Value, str, arr, obj, Items, no_items, item, Fields, end, field_at}
use copass.Agents.Events.{text_delta}
use copass.Managed.Messages.{str_of}
use copass.Hermes.{Attempt, emit, emit_finish}
use copass.Json.Truth.{truthy, int_of}

abbrev pub usage_keys : List String
usage_keys =
    "prompt_tokens" ∷ "completion_tokens" ∷ "total_tokens" ∷ "input_tokens" ∷ "output_tokens" ∷ []

abbrev pub int_at : String → Fields → Option ℕ
int_at key fs = elim (field_at key fs) [ none ↦ none | some v ↦ int_of v ]

abbrev pub put_some : Dict ℕ → String → Option ℕ → Dict ℕ
put_some usage key none = usage
put_some usage key (some v) = put usage key v

-- A later count replaces an earlier one.
unfoldable pub take_usage : Dict ℕ → Fields → List String → Dict ℕ
take_usage usage counted [] = usage
take_usage usage counted (key ∷ keys) =
    take_usage (put_some usage key (int_at key counted)) counted keys

unfoldable pub on_usage : Attempt → Option Value → Attempt
unfolding take_usage
on_usage a (some (obj counted)) = record a {
  usage_accumulator = take_usage a.usage_accumulator counted usage_keys;
}
on_usage a _ = a

-- `choice.get("delta") or {}`, if that is a dictionary.
unfoldable pub delta_of : Option Value → Option Fields
delta_of none = some end
delta_of (some (obj fs)) = some fs
delta_of (some v) = if truthy v then none else some end

unfoldable pub on_content : Attempt → Option Value → Attempt
unfolding emit
on_content a (some (str text)) = if text == "" then a else emit a (text_delta text)
on_content a _ = a

unfoldable pub on_finish_reason : (Value → String) → Attempt → Option Value → Attempt
unfolding emit_finish
on_finish_reason print a none = a
on_finish_reason print a (some reason) =
    if truthy reason then emit_finish (record a { finished = true }) (str_of print reason) else a

-- A choice whose delta is something else than a dictionary is skipped, with its finish reason.
unfoldable pub on_delta : (Value → String) → Attempt → Fields → Option Fields → Attempt
unfolding on_content on_finish_reason
on_delta print a choice none = a
on_delta print a choice (some delta) =
    on_finish_reason print (on_content a (field_at "content" delta))
      (field_at "finish_reason" choice)

unfoldable pub on_choices : (Value → String) → Attempt → Items → Attempt
unfolding on_delta delta_of
on_choices print a no_items = a
on_choices print a (item (obj choice) rest) =
    on_choices print (on_delta print a choice (delta_of (field_at "delta" choice))) rest
on_choices print a (item _ rest) = on_choices print a rest

unfoldable pub on_listed : (Value → String) → Attempt → Option Value → Attempt
unfolding on_choices
on_listed print a (some (arr choices)) = on_choices print a choices
on_listed print a _ = a

unfoldable pub on_chunk : (Value → String) → Attempt → Value → Attempt
unfolding on_usage on_listed
on_chunk print a (obj chunk) =
    on_listed print (on_usage a (field_at "usage" chunk)) (field_at "choices" chunk)
on_chunk print a _ = a
