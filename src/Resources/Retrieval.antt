-- ===== src/Resources/Retrieval.antt =====
-- retrieval.py: the questions that are asked of a sandbox, with the history of a conversation.
use copass.Prelude.{◌>>=◌, String, Option, none, some, List, [], ◌∷◌}
use copass.Json.{Value, str, num, arr, obj, Items, no_items, item, Fields, end, field, field_at}
use copass.Managed.Messages.{str_of}
use copass.Resources.{Call, post_call, path_of, query_base, optional, strings, lists}

-- A turn of a history: a `ChatMessage`, a dictionary, or something else.
pub data Turn : Type 0 where
  chat_message : (role content : String) → Turn
  dict : Fields → Turn
  other : Turn

abbrev pub turn_fields : String → String → Fields
turn_fields role content = field "role" (str role) (field "content" (str content) end)

-- `_turn_to_dict`; `none` is a `ValueError`.
unfoldable pub turn_to_dict : (Value → String) → Turn → Option Fields
turn_to_dict print (chat_message role content) = some (turn_fields role content)
turn_to_dict print (dict fs) = elim (field_at "role" fs) [
  | none ↦ none
  | some role ↦ elim (field_at "content" fs) [
    | none ↦ none
    | some content ↦ some (turn_fields (str_of print role) (str_of print content))
  ]
]
turn_to_dict print other = none

unfoldable pub turns_to_dicts : (Value → String) → List Turn → Option Items
unfolding turn_to_dict
turns_to_dicts print [] = some no_items
turns_to_dicts print (t ∷ ts) = do
  fs ← turn_to_dict print t
  rest ← turns_to_dicts print ts
  some (item (obj fs) rest)

-- `_history`, with the turns of the window if there is one.
unfoldable pub history_of :
    (Value → String) → Option (List Turn) → Option (List Turn) → Option Items
unfolding turns_to_dicts
history_of print (some turns) history = turns_to_dicts print turns
history_of print none (some history) = turns_to_dicts print history
history_of print none none = some no_items

-- `discover`; `none` is a `ValueError`, here and below.
unfoldable pub discover :
    (print : Value → String) (sandbox_id query : String) (window history : Option (List Turn))
    (project_id reference_date preset : Option String)
    → Option Call
unfolding history_of path_of optional
discover print sandbox_id query window history project_id reference_date preset = do
  turns ← history_of print window history
  some (
      post_call (path_of query_base (sandbox_id ∷ "discover" ∷ []))
        (some (
          obj (
            field "query" (str query) (
              field "history" (arr turns) (
                optional "project_id" str project_id (
                  optional "reference_date" str reference_date
                    (optional "preset" str preset end)))))))
        [])

-- `interpret`
unfoldable pub interpret :
    (print : Value → String) (sandbox_id query : String) (items : List (List String))
    (window history : Option (List Turn))
    (project_id reference_date preset max_tokens : Option String)
    → Option Call
unfolding history_of path_of optional
interpret print sandbox_id query items window history project_id reference_date preset max_tokens =
    do
      turns ← history_of print window history
      some (
          post_call (path_of query_base (sandbox_id ∷ "interpret" ∷ []))
            (some (
              obj (
                field "query" (str query) (
                  field "items" (lists items) (
                    field "history" (arr turns) (
                      optional "project_id" str project_id (
                        optional "reference_date" str reference_date (
                          optional "preset" str preset
                            (optional "max_tokens" num max_tokens end)))))))))
            [])

-- `search`
unfoldable pub search :
    (print : Value → String) (sandbox_id query : String) (window history : Option (List Turn))
    (project_id reference_date preset detail_level max_tokens : Option String)
    → Option Call
unfolding history_of path_of optional
search print sandbox_id query window history project_id reference_date preset detail_level
      max_tokens =
    do
      turns ← history_of print window history
      some (
          post_call (path_of query_base (sandbox_id ∷ "search" ∷ []))
            (some (
              obj (
                field "query" (str query) (
                  field "history" (arr turns) (
                    optional "project_id" str project_id (
                      optional "reference_date" str reference_date (
                        optional "preset" str preset (
                          optional "detail_level" str detail_level
                            (optional "max_tokens" num max_tokens end)))))))))
            [])

-- `get_origin`
unfoldable pub get_origin :
    (sandbox_id : String) (canonical_ids : List String) (limit_per_canonical : Option String) → Call
unfolding path_of optional
get_origin sandbox_id canonical_ids limit_per_canonical =
    post_call (path_of query_base (sandbox_id ∷ "origins" ∷ []))
      (some (
        obj (
          field "canonical_ids" (strings canonical_ids)
            (optional "limit_per_canonical" num limit_per_canonical end))))
      []

-- A method on a sandbox, with its other arguments.
pub data Operation : Type 0 where
  on_discover :
      (query : String) (window history : Option (List Turn))
      (project_id reference_date preset : Option String)
      → Operation
  on_interpret :
      (query : String) (items : List (List String)) (window history : Option (List Turn))
      (project_id reference_date preset max_tokens : Option String)
      → Operation
  on_search :
      (query : String) (window history : Option (List Turn))
      (project_id reference_date preset detail_level max_tokens : Option String)
      → Operation
  on_get_origin : (canonical_ids : List String) (limit_per_canonical : Option String) → Operation

unfoldable pub call_of : (Value → String) → String → Operation → Option Call
unfolding discover interpret search get_origin
call_of print sandbox_id (on_discover query window history project_id reference_date preset) =
    discover print sandbox_id query window history project_id reference_date preset
call_of print sandbox_id
      (on_interpret query items window history project_id reference_date preset max_tokens) =
    interpret print sandbox_id query items window history project_id reference_date preset
      max_tokens
call_of print sandbox_id
      (on_search query window history project_id reference_date preset detail_level max_tokens) =
    search print sandbox_id query window history project_id reference_date preset detail_level
      max_tokens
call_of print sandbox_id (on_get_origin canonical_ids limit_per_canonical) =
    some (get_origin sandbox_id canonical_ids limit_per_canonical)
