-- ===== src/ManagedV1/Loop.antt =====
-- managed_agent_backend.py: the loop of `stream` over the provider's events.

pub mod Finish
use copass.Prelude.{ℕ, String, Option, none, some, List, [], ◌∷◌, ◌==◌, if◌then◌else◌, add}
use copass.Dict.{Dict}
use copass.Agents.Events.{text_delta, tool_call}
use copass.Managed.Sdk.{
  Block, StopReason, SdkEvent, Envelope, Kind, message, tool_use, idle, terminated, session_error,
  model_request_end, noop, unknown, kind_of, or_empty, nonempty,
}
use copass.Managed.Turn.{Control, going, finished, crashed}
use copass.Managed.Emit.{text_of}
use copass.Managed.Stream.{Feed, closed, broken, next, add_usage, usage_keys}
use copass.ManagedV1.{event, Turn, Run, emit, emit_finish}
use copass.ManagedV1.Answer.{arguments_of, buffer, on_requires_action}

unfoldable pub emit_text : Run → Option String → Run
unfolding emit
emit_text r none = r
emit_text r (some text) = emit r (event (text_delta text))

unfoldable pub emit_texts : Run → List Block → Run
unfolding emit_text
emit_texts r [] = r
emit_texts r (b ∷ bs) = emit_texts (emit_text r (text_of b)) bs

-- An event with an id is buffered and yielded; one without an id aborts the run.
unfoldable pub on_tool_use : Envelope → SdkEvent → Run → Option String → Run × Control
unfolding buffer emit
on_tool_use envelope ev r none = (r, crashed "tool-use event arrived without an id")
on_tool_use envelope ev r (some id) = (
  emit (buffer r id ev envelope) (event (tool_call id (or_empty ev.name) (arguments_of ev))),
  going,
)

unfoldable pub on_stop_type : Turn → StopReason → Run → Option String → Run × Control
unfolding on_requires_action
on_stop_type t stop r none = (emit_finish t "unknown" r, finished)
on_stop_type t stop r (some stop_type) =
    if stop_type == "requires_action"
    then on_requires_action t stop r
    else if stop_type == "end_turn"
    then (emit_finish t "end_turn" r, finished)
    else (emit_finish t stop_type r, finished)

unfoldable pub on_idle : Turn → Run → Option StopReason → Run × Control
unfolding on_stop_type
on_idle t r none = (emit_finish t "unknown" r, finished)
on_idle t r (some stop) = on_stop_type t stop r (nonempty stop.type)

unfoldable pub count_usage : Run → Option (Dict ℕ) → Run
count_usage r none = r
count_usage r (some counted) = record r {
  usage_accumulator = add_usage r.usage_accumulator counted usage_keys;
}

unfoldable pub note_type : Run → Option String → Run
note_type r none = r
note_type r (some name) = record r {
  seen_unknown_event_types = add r.seen_unknown_event_types name;
}

-- The body of the loop.
unfoldable pub handle : Turn → Kind → SdkEvent → Run → Run × Control
unfolding emit_texts on_tool_use on_idle count_usage note_type
handle t message ev r = (emit_texts r ev.content, going)
handle t (tool_use envelope) ev r = on_tool_use envelope ev r (nonempty ev.id)
handle t idle ev r = on_idle t r ev.stop_reason
handle t terminated ev r = (emit_finish t "terminated" r, finished)
handle t session_error ev r = (emit_finish t "error" r, finished)
handle t model_request_end ev r = (count_usage r ev.model_usage, going)
handle t noop ev r = (r, going)
handle t unknown ev r = (note_type r (nonempty ev.type), going)

-- How the generator ends.
pub data Ended : Type 0 where
  returned : Run → Ended
  raised : String → Run → Ended

unfoldable pub proceed : (Run → Ended) → Run → Control → Ended
proceed rest r going = rest r
proceed rest r finished = returned r
proceed rest r (crashed e) = raised e r

-- The loop. A stream that ends without a final event ends the generator without one.
unfoldable pub drive : Turn → Feed → Run → Ended
unfolding proceed handle
drive t closed r = returned r
drive t (broken e) r = raised e r
drive t (next ev feed) r =
    let (r', control) = handle t (kind_of ev.type) ev r in proceed (drive t feed) r' control
