-- ===== src/Managed/Stream.antt =====
-- managed_agent_backend_v2.py: the loop of `_stream_impl` over the provider's event stream.
pub mod Order
pub mod Sound
pub mod Cycles
pub mod Finish
pub mod Bounds
use copass.Prelude.{
  ℕ, suc, ◌+◌, String, true, Option, none, some, List, [], ◌∷◌, map, ◌==◌, leb, if◌then◌else◌,
  contains, add, or_else,
}
use copass.Dict.{Dict, get, put, remove}
use copass.Json.{bool, Fields, end, field, as_dict}
use copass.Agents.Events.{AgentEvent, text_delta, tool_call, tool_result}
use copass.Managed.Call.{
  PendingToolCall, custom_tool_call, server_tool_call, mcp_tool_call, event_id, call_name,
  shown_arguments, Reply, custom_tool_result, tool_confirmation, other_reply, truthy, reply_to_call,
}
use copass.Managed.Cycle.{
  RequiresActionCycle, new_cycle, Calls, resolved, missing_pending, key_error, calls, Sent, sent,
  out_of_cycle_reply, refused, post_failed, send_replies,
}
use copass.Managed.Sdk.{
  Block, StopReason, SdkEvent, Envelope, custom_tool_use, server_tool_use, mcp_tool_use, Kind,
  message, tool_use, idle, terminated, session_error, model_request_end, noop, unknown, kind_of,
  or_empty, nonempty,
}
use copass.Managed.Turn.{
  replies, Turn, Run, Control, going, finished, crashed, emit, log_post, send_interrupt_soft,
  finish_with,
}
use copass.Managed.Emit.{emit_texts, build_pending_tool_call, emit_call, announce, emit_results}

-- An event with an id is buffered and yielded; one without an id aborts the run.
unfoldable pub buffer_call : Envelope → SdkEvent → Run → Option String → Run × Control
unfolding emit_call
buffer_call envelope ev r none = (r, crashed "tool-use event arrived without an id")
buffer_call envelope ev r (some id) =
    let call : PendingToolCall = build_pending_tool_call envelope ev id in
    (emit_call (record r { events_by_id = put r.events_by_id id call }) call, going)

unfoldable pub on_tool_use : Envelope → SdkEvent → Run → Run × Control
unfolding buffer_call
on_tool_use envelope ev r = buffer_call envelope ev r (nonempty ev.id)

unfoldable pub remove_all : Dict PendingToolCall → List String → Dict PendingToolCall
remove_all events [] = events
remove_all events (k ∷ ks) = remove_all (remove events k) ks

-- What follows `cycle.send_replies`. A batch that reached the server is in the log of posts.
unfoldable pub settle : Turn → Run → List Reply → Sent → Run × Control
unfolding remove_all log_post finish_with send_interrupt_soft
settle t r rs (sent cycle) = (
  record (log_post r (replies rs)) { events_by_id = remove_all r.events_by_id cycle.executed_ids },
  going,
)
settle t r rs refused = finish_with t "bad_request" (send_interrupt_soft (log_post r (replies rs)))
settle t r rs (out_of_cycle_reply rid) = finish_with t "out_of_cycle_reply" (send_interrupt_soft r)
settle t r rs (post_failed e) = (log_post r (replies rs), crashed e)

-- A cycle whose calls are resolved.
unfoldable pub serve_cycle : Turn → Run → RequiresActionCycle → List PendingToolCall → Run × Control
unfolding announce emit_results settle
serve_cycle t r cycle cs =
    let rs : List Reply = map (reply_to_call t.tools t.context) cs in
    let r' : Run = emit_results t (announce r cs) cs in
    settle t r' rs (send_replies (λ batch. t.server r'.posts (replies batch)) cycle rs)

-- Ids that are not buffered leave the cycle unanswered, and the stream goes on. The wait for them
-- has nothing to wait for: `_await_pending_calls` only looks into the buffer.
unfoldable pub on_calls : Turn → Run → RequiresActionCycle → Calls → Run × Control
unfolding serve_cycle
on_calls t r cycle (resolved cs) = serve_cycle t r cycle cs
on_calls t r cycle (missing_pending missing known) = (r, going)
on_calls t r cycle key_error = (r, crashed "KeyError")

unfoldable pub open_cycle : Turn → Run → RequiresActionCycle → Run × Control
unfolding on_calls
open_cycle t r cycle = on_calls t r cycle (calls cycle r.events_by_id)

unfoldable pub on_requires_action : Turn → StopReason → Run → Run × Control
unfolding open_cycle finish_with send_interrupt_soft
on_requires_action t stop r =
    if leb t.policy.max_cycles r.cycle_count
    then finish_with t "policy_max_cycles_exhausted" (send_interrupt_soft r)
    else open_cycle t (record r { cycle_count = suc r.cycle_count }) (new_cycle stop.event_ids)

unfoldable pub on_stop : Turn → StopReason → String → Run → Run × Control
unfolding on_requires_action finish_with
on_stop t stop stop_type r =
    if stop_type == "requires_action"
    then on_requires_action t stop r
    else if stop_type == "end_turn"
    then finish_with t "end_turn" r
    else finish_with t stop_type r

-- A stop reason without a type, and no stop reason at all, are reported as "unknown".
unfoldable pub on_stop_type : Turn → StopReason → Run → Option String → Run × Control
unfolding on_stop
on_stop_type t stop r none = finish_with t "unknown" r
on_stop_type t stop r (some stop_type) = on_stop t stop stop_type r

unfoldable pub on_stop_reason : Turn → Run → Option StopReason → Run × Control
unfolding on_stop_type
on_stop_reason t r none = finish_with t "unknown" r
on_stop_reason t r (some stop) = on_stop_type t stop r (nonempty stop.type)

unfoldable pub on_idle : Turn → SdkEvent → Run → Run × Control
unfolding on_stop_reason
on_idle t ev r = on_stop_reason t r ev.stop_reason

unfoldable pub add_usage : Dict ℕ → Dict ℕ → List String → Dict ℕ
add_usage usage counted [] = usage
add_usage usage counted (key ∷ rest) =
    add_usage
      (elim (get counted key) [
        | none ↦ usage
        | some v ↦ put usage key (or_else (get usage key) 0 + v)
      ])
      counted rest

abbrev pub usage_keys : List String
usage_keys =
    "input_tokens" ∷ "output_tokens" ∷ "cache_creation_input_tokens" ∷ "cache_read_input_tokens"
    ∷ []

unfoldable pub count_usage : Run → Option (Dict ℕ) → Run
unfolding add_usage
count_usage r none = r
count_usage r (some counted) = record r {
  usage_accumulator = add_usage r.usage_accumulator counted usage_keys;
}

-- A type that is neither known nor seen before is noted, for its warning.
unfoldable pub note_type : Run → Option String → Run
note_type r none = r
note_type r (some name) = record r {
  seen_unknown_event_types = add r.seen_unknown_event_types name;
}

-- The body of the loop.
unfoldable pub handle : Turn → Kind → SdkEvent → Run → Run × Control
unfolding emit_texts on_tool_use on_idle count_usage note_type finish_with
handle t message ev r = (emit_texts r ev.content, going)
handle t (tool_use envelope) ev r = on_tool_use envelope ev r
handle t idle ev r = on_idle t ev r
handle t terminated ev r = finish_with t "terminated" r
handle t session_error ev r = finish_with t "error" r
handle t model_request_end ev r = (count_usage r ev.model_usage, going)
handle t noop ev r = (r, going)
handle t unknown ev r = (note_type r (nonempty ev.type), going)

unfoldable pub step : Turn → SdkEvent → Run → Run × Control
unfolding handle kind_of
step t ev r = handle t (kind_of ev.type) ev r

-- What the stream gives: events, and then its end or an exception.
pub data Feed : Type 0 where
  closed : Feed
  broken : String → Feed
  next : SdkEvent → Feed → Feed

-- How the generator ends: it has yielded all of its run, and returns or raises.
pub data Ended : Type 0 where
  returned : Run → Ended
  raised : String → Run → Ended

abbrev pub run_of : Ended → Run
run_of (returned r) = r
run_of (raised e r) = r

-- What the loop does after a pass of its body; `rest` is the loop on the later events.
unfoldable pub proceed : (Run → Ended) → Run → Control → Ended
proceed rest r going = rest r
proceed rest r finished = returned r
proceed rest r (crashed e) = raised e r

-- The loop, with the final event of a stream that ends without one.
unfoldable pub drive : Turn → Feed → Run → Ended
unfolding proceed
drive t closed r = returned (finish_with t "end_turn" r).0
drive t (broken e) r = raised e r
drive t (next ev feed) r = let (r', control) = step t ev r in proceed (drive t feed) r' control
