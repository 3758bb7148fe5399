-- ===== src/Managed/Emit.antt =====
-- managed_agent_backend_v2.py: the events that `_stream_impl` yields for texts, calls and replies.
use copass.Prelude.{
  String, true, Option, none, some, List, [], ◌∷◌, ◌==◌, if◌then◌else◌, contains, add,
}
use copass.Json.{bool, Fields, end, field, as_dict}
use copass.Agents.Events.{AgentEvent, text_delta, tool_call, tool_result}
use copass.Managed.Call.{
  PendingToolCall, custom_tool_call, server_tool_call, mcp_tool_call, event_id, call_name,
  shown_arguments, Reply, custom_tool_result, tool_confirmation, other_reply, truthy, reply_to_call,
}
use copass.Managed.Sdk.{
  Block, SdkEvent, Envelope, custom_tool_use, server_tool_use, mcp_tool_use, or_empty, nonempty,
}
use copass.Managed.Turn.{Turn, Run, emit}

-- The text of a block of an `agent.message`, if it is a text block with some text.
unfoldable pub text_of : Block → Option String
text_of b = if or_empty b.type == "text" then nonempty b.text else none

unfoldable pub emit_text : Run → Option String → Run
unfolding emit
emit_text r none = r
emit_text r (some text) = emit r (text_delta text)

unfoldable pub emit_texts : Run → List Block → Run
unfolding text_of emit_text
emit_texts r [] = r
emit_texts r (b ∷ bs) = emit_texts (emit_text r (text_of b)) bs

-- `_build_pending_tool_call`
unfoldable pub build_pending_tool_call : Envelope → SdkEvent → String → PendingToolCall
build_pending_tool_call custom_tool_use ev id =
    custom_tool_call id (or_empty ev.name)
      (elim ev.input [ none ↦ end | some input ↦ as_dict input ])
build_pending_tool_call server_tool_use ev id = server_tool_call id (or_empty ev.name)
build_pending_tool_call mcp_tool_use ev id = mcp_tool_call id (or_empty ev.name)

-- `yield AgentToolCall(...)`, and the note that it has been yielded.
unfoldable pub emit_call : Run → PendingToolCall → Run
unfolding emit
emit_call r c = record (emit r (tool_call (event_id c) (call_name c) (shown_arguments c))) {
  yielded_call_ids = add r.yielded_call_ids (event_id c);
}

-- The calls whose event has not been yielded yet.
unfoldable pub announce : Run → List PendingToolCall → Run
unfolding emit_call
announce r [] = r
announce r (c ∷ cs) =
    announce (if contains r.yielded_call_ids (event_id c) then r else emit_call r c) cs

-- `_decode_custom_result` and `_decode_custom_error`
unfoldable pub decode_custom_result : Reply → Fields
decode_custom_result (custom_tool_result i text) = elim text.result [
  | none ↦ end
  | some v ↦ as_dict v
]
decode_custom_result (tool_confirmation i) = end
decode_custom_result other_reply = end

unfoldable pub decode_custom_error : Reply → Option String
decode_custom_error (custom_tool_result i text) = truthy text.error
decode_custom_error (tool_confirmation i) = none
decode_custom_error other_reply = none

-- The event that tells the caller of a call's reply.
unfoldable pub result_event : PendingToolCall → Reply → AgentEvent
unfolding decode_custom_result decode_custom_error
result_event (custom_tool_call i n a) reply =
    tool_result i n (decode_custom_result reply) (decode_custom_error reply)
result_event (server_tool_call i n) reply = tool_result i n (field "confirmed" (bool true) end) none
result_event (mcp_tool_call i n) reply = tool_result i n (field "confirmed" (bool true) end) none

-- The loop that executes the calls: each reply is built, and its event yielded.
unfoldable pub emit_results : Turn → Run → List PendingToolCall → Run
unfolding emit result_event
emit_results t r [] = r
emit_results t r (c ∷ cs) =
    emit_results t (emit r (result_event c (reply_to_call t.tools t.context c))) cs
