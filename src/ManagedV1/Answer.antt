-- ===== src/ManagedV1/Answer.antt =====
-- managed_agent_backend.py: what a `requires_action` leads to. Ids that are not buffered are looked for
-- in the session's log; then the calls are executed, and answered in one batch.
pub mod Recovers
pub mod Replies
pub mod Cases
use Prim.Native.String.{◌++◌ as text_append}
use mathlib.Core.Option
use copass.Prelude.{
  String, true, Option, none, some, List, [], ◌∷◌, ◌==◌, map, if◌then◌else◌, contains, or_else,
}
use copass.Dict.{Dict, get, has, put, remove}
use copass.Json.{bool, obj, Fields, end, field, as_dict}
use copass.Agents.Events.{tool_result}
use copass.Agents.Tools.{Outcome, try_get}
use copass.Managed.Call.{Reply, custom_tool_result, tool_confirmation, serialize_tool_result, repr}
use copass.Managed.Sdk.{
  StopReason, SdkEvent, Envelope, custom_tool_use, server_tool_use, mcp_tool_use, Kind, tool_use,
  kind_of, or_empty, nonempty,
}
use copass.Managed.Turn.{Control, going, finished}
use copass.Managed.Stream.{Feed, closed, broken, next}
use copass.ManagedV1.{
  Yielded, event, opaque_result, Batch, replies, interrupt, Turn, Run, emit, log_post, emit_finish,
}

-- `dict(raw_input) if isinstance(raw_input, dict) else {}`
abbrev pub arguments_of : SdkEvent → Fields
arguments_of ev = elim ev.input [ none ↦ end | some input ↦ as_dict input ]

unfoldable pub buffer : Run → String → SdkEvent → Envelope → Run
buffer r id ev envelope = record r {
  pending = put r.pending id ev;
  envelope = put r.envelope id envelope;
}

-- `[eid for eid in event_ids if eid not in pending_tool_events]`
unfoldable pub missing_ids : Dict SdkEvent → List String → List String
missing_ids pending [] = []
missing_ids pending (k ∷ ks) =
    let rest = missing_ids pending ks in if has pending k then rest else k ∷ rest

-- `needed.discard(k)` on a set of ids.
unfoldable pub discard : List String → String → List String
discard [] k = []
discard (j ∷ js) k = let rest = discard js k in if j == k then rest else j ∷ rest

-- An event of the session's log that is needed and is a tool use is buffered.
unfoldable pub rebucket : Run → List String → SdkEvent → String → Kind → Run × List String
unfolding buffer discard
rebucket r needed ev id (tool_use envelope) =
    if contains needed id then (buffer r id ev envelope, discard needed id) else (r, needed)
rebucket r needed ev id _ = (r, needed)

unfoldable pub rehydrate_one : Run → List String → SdkEvent → Option String → Run × List String
unfolding rebucket
rehydrate_one r needed ev none = (r, needed)
rehydrate_one r needed ev (some id) = rebucket r needed ev id (kind_of ev.type)

-- `_rehydrate_pending_tool_events`: the loop over the session's log ends when nothing is needed, or
-- with the log; an exception is swallowed.
unfoldable pub rehydrate : Feed → Run → List String → Run
unfolding rehydrate_one
rehydrate feed r [] = r
rehydrate closed r (k ∷ ks) = r
rehydrate (broken e) r (k ∷ ks) = r
rehydrate (next ev feed) r (k ∷ ks) =
    let (r', needed) = rehydrate_one r (k ∷ ks) ev (nonempty ev.id) in rehydrate feed r' needed

-- One entry of what `_execute_pending_tools` returns; `none` is a result that is no JSON.
pub record ToolReply : Type 0 where
  pub call_id : String
  pub name : String
  pub result : Option Fields
  pub error : Option String
  pub source_type : Envelope

abbrev pub tool_reply : String → String → Option Fields → Option String → Envelope → ToolReply
tool_reply id name result error source = record {
  call_id = id;
  name = name;
  result = result;
  error = error;
  source_type = source;
}

-- What an invocation gave; a result that is no dictionary is wrapped in one.
unfoldable pub reply_of_outcome : String → String → Outcome → ToolReply
reply_of_outcome id name (Outcome.raised text) =
    tool_reply id name (some end) (some (text_append "tool raised: " text)) custom_tool_use
reply_of_outcome id name Outcome.unserializable = tool_reply id name none none custom_tool_use
reply_of_outcome id name (Outcome.returned (obj fs)) =
    tool_reply id name (some fs) none custom_tool_use
reply_of_outcome id name (Outcome.returned v) =
    tool_reply id name (some (field "value" v end)) none custom_tool_use

unfoldable pub execute_custom : Turn → String → SdkEvent → ToolReply
unfolding reply_of_outcome
execute_custom t id ev =
    let name : String = or_empty ev.name in
    elim (try_get t.tools name) [
      | none ↦
          tool_reply id name (some end)
            (some (text_append "tool " (text_append (repr name) " not registered"))) custom_tool_use
      | some tool ↦ reply_of_outcome id name (tool.invoke (arguments_of ev) t.context)
    ]

-- A call that the provider executes is only confirmed.
unfoldable pub execute : Turn → String → Envelope → Option SdkEvent → ToolReply
unfolding execute_custom
execute t id source none = tool_reply id "<unknown>" (some end) (some "tool event not found") source
execute t id custom_tool_use (some ev) = execute_custom t id ev
execute t id source (some ev) =
    tool_reply id (or_empty ev.name) (some (field "confirmed" (bool true) end)) none source

-- `_execute_pending_tools`
unfoldable pub execute_pending_tools : Turn → Run → List String → List ToolReply
unfolding execute
execute_pending_tools t r [] = []
execute_pending_tools t r (id ∷ ids) =
    execute t id (or_else (get r.envelope id) custom_tool_use) (get r.pending id)
    ∷ execute_pending_tools t r ids

-- `_build_user_event_for_tool_use`
unfoldable pub build_user_event_for_tool_use : ToolReply → Envelope → Reply
build_user_event_for_tool_use reply custom_tool_use =
    custom_tool_result reply.call_id
      (serialize_tool_result (Option.map obj reply.result) reply.error)
build_user_event_for_tool_use reply server_tool_use = tool_confirmation reply.call_id
build_user_event_for_tool_use reply mcp_tool_use = tool_confirmation reply.call_id

abbrev pub reply_event : ToolReply → Reply
reply_event reply = build_user_event_for_tool_use reply reply.source_type

abbrev pub shown_result : String → String → Option String → Option Fields → Yielded
shown_result id name error none = opaque_result id name
shown_result id name error (some fields) = event (tool_result id name fields error)

unfoldable pub emit_results : Run → List ToolReply → Run
unfolding emit
emit_results r [] = r
emit_results r (reply ∷ rest) =
    emit_results (emit r (shown_result reply.call_id reply.name reply.error reply.result)) rest

unfoldable pub pop_all : Run → List ToolReply → Run
pop_all r [] = r
pop_all r (reply ∷ rest) =
    pop_all
      (record r {
        pending = remove r.pending reply.call_id;
        envelope = remove r.envelope reply.call_id;
      })
      rest

-- What follows `_send_events_soft`, whose interrupt after an exception may itself fail.
unfoldable pub after_send : Turn → Run → List ToolReply → Option String → Run × Control
unfolding pop_all emit_finish log_post
after_send t r results none = (pop_all r results, going)
after_send t r results (some e) = (emit_finish t "error" (log_post r interrupt), finished)

-- The results are yielded, and then sent in one batch, if there are any.
unfoldable pub answer : Turn → Run → List ToolReply → Run × Control
unfolding emit_results after_send
answer t r [] = (r, going)
answer t r (reply ∷ rest) =
    let results : List ToolReply = reply ∷ rest in
    let batch : Batch = replies (map reply_event results) in
    let yielded : Run = emit_results r results in
    after_send t (log_post yielded batch) results (t.session.send yielded.posts batch)

unfoldable pub answer_or_interrupt : Turn → Run → List String → List String → Run × Control
unfolding answer execute_pending_tools
answer_or_interrupt t r ids [] = answer t r (execute_pending_tools t r ids)
answer_or_interrupt t r ids (k ∷ ks) = (emit_finish t "error" (log_post r interrupt), finished)

-- The run in which the ids have been looked for in the session's log, if some are missing.
unfoldable pub recover : Turn → Run → List String → Run
unfolding rehydrate missing_ids
recover t r ids = rehydrate (t.session.log r.posts) r (missing_ids r.pending ids)

unfoldable pub on_requires_action : Turn → StopReason → Run → Run × Control
unfolding answer_or_interrupt recover
on_requires_action t stop r =
    let r' : Run = recover t r stop.event_ids in
    answer_or_interrupt t r' stop.event_ids (missing_ids r'.pending stop.event_ids)
