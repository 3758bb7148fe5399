-- ===== src/Hermes/Stream/Pieces.antt =====
-- hermes_agent_backend.py: what an attempt yields, against the pieces of the response in their order.
pub mod Adds
use mathlib.Core.List.{append_assoc, append-nil}
use copass.Prelude.{
  String, ◌≡◌, refl, ap, sym, ◌∙◌, Bool, true, false, ◌||◌, Option, none, some, List, [], ◌∷◌, ◌++◌,
  map, arith, ◌==◌, if◌then◌else◌, Bool-cases, inl, inr,
}
use copass.Json.{Value, null, str, arr, obj, Items, no_items, item, Fields, field_at}
use copass.Agents.Events.{AgentEvent, text_delta, tool_call, tool_result, finish}
use copass.Managed.Messages.{str_of}
use copass.Text.{Text}
use copass.Hermes.{
  HermesError, Lines, closed, breaks, line, Attempt, new_attempt, emit, emit_finish,
}
use copass.Json.Truth.{truthy}
use copass.Hermes.Chunk.{
  on_usage, delta_of, on_content, on_finish_reason, on_delta, on_choices, on_listed, on_chunk,
}
use copass.Hermes.Stream.{Read, skipped, done, chunk, read_line, close, Ending, on_read, read_lines}

-- What a caller sees of an event: a text, or the reason of a final event.
pub data Piece : Type 0 where
  says stops : String → Piece
  other : Piece

abbrev pub piece_of : AgentEvent → Piece
piece_of (text_delta text) = says text
piece_of (tool_call i n a) = other
piece_of (tool_result i n v e) = other
piece_of (finish reason usage session) = stops reason

abbrev pub seen : List AgentEvent → List Piece
seen es = map piece_of es

abbrev pub is_stop : Piece → Bool
is_stop (stops reason) = true
is_stop _ = false

unfoldable pub any_stop : List Piece → Bool
any_stop [] = false
any_stop (p ∷ ps) = is_stop p || any_stop ps

abbrev pub content_pieces : Option Value → List Piece
content_pieces (some (str text)) = if text == "" then [] else says text ∷ []
content_pieces _ = []

abbrev pub reason_pieces : (Value → String) → Option Value → List Piece
reason_pieces print none = []
reason_pieces print (some reason) = if truthy reason then stops (str_of print reason) ∷ [] else []

abbrev pub delta_pieces : (Value → String) → Fields → Option Fields → List Piece
delta_pieces print choice none = []
delta_pieces print choice (some delta) =
    content_pieces (field_at "content" delta)
    ++ reason_pieces print (field_at "finish_reason" choice)

unfoldable pub choices_pieces : (Value → String) → Items → List Piece
choices_pieces print no_items = []
choices_pieces print (item (obj choice) rest) =
    delta_pieces print choice (delta_of (field_at "delta" choice)) ++ choices_pieces print rest
choices_pieces print (item _ rest) = choices_pieces print rest

abbrev pub listed_pieces : (Value → String) → Option Value → List Piece
listed_pieces print (some (arr choices)) = choices_pieces print choices
listed_pieces print _ = []

abbrev pub chunk_pieces : (Value → String) → Value → List Piece
chunk_pieces print (obj fs) = listed_pieces print (field_at "choices" fs)
chunk_pieces print _ = []

-- How the lines end: at their end, at the done line (the marker behind the last chunk), or with an error.
pub data End : Type 0 where
  at_end at_done : End
  with_error : HermesError → End

abbrev pub error_of : End → Option HermesError
error_of at_end = none
error_of at_done = none
error_of (with_error e) = some e

-- The pieces of the lines up to their end.
unfoldable pub pieces : (Text → Option Value) → (Value → String) → Lines → List Piece × End
pieces loads print closed = ([], at_end)
pieces loads print (breaks e) = ([], with_error e)
pieces loads print (line raw rest) =
    let later = pieces loads print rest in
    elim (read_line loads raw) [
      | skipped ↦ later
      | done ↦ ([], at_done)
      | chunk v ↦ (chunk_pieces print v ++ later.0, later.1)
    ]

-- A final event of its own is added where the lines end with no reason given and without the done line.
abbrev pub closing : Bool → End → List Piece
closing finished at_end = if finished then [] else stops "end_turn" ∷ []
closing finished at_done = []
closing finished (with_error e) = []
