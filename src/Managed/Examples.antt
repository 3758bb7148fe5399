-- ===== src/Managed/Examples.antt =====
-- Concrete turns of the managed-agent backend, and the theorems at them.
mod Start
mod Ending
use copass.Prelude.{
  length, ◌+◌, String, ◌≡◌, refl, true, none, some, List, [], ◌∷◌, ◌++◌, map, arith, eq_iff, ◌||◌,
  contains, All, ◌⊎◌, ◌≤◌,
}
use copass.Dict.{Dict, remove, put, has, get, put, has}
use copass.Json.{Value, arr, Items, no_items, item, field_at, bool, str, obj, Fields, end, field}
use copass.Sorted.{sorted}
use copass.Agents.Events.{
  AgentEvent, text_delta, tool_call, tool_result, finish, AgentInvocationContext,
}
use copass.Agents.Build.{BaseAgent, static_wins, build_tools}
use copass.Agents.Tools.{ToolSpec, Outcome, AgentTool, AgentToolRegistry, try_get}
use copass.Managed.Call.{
  PendingToolCall, custom_tool_call, server_tool_call, Reply, custom_tool_result, tool_confirmation,
  reply_id, reply_to_call, reply_id-reply_to_call, execute_and_build_reply,
}
use copass.Managed.Cycle.{
  RequiresActionCycle, new_cycle, calls, resolved, Posted, accepted, sent, after_post, send_replies,
  is_cycle_complete,
}
use copass.Managed.Cycle.Resolve.{IsBuffer, Resolves, Misses, calls-cases}
use copass.Managed.Cycle.Replies.{IsTo, is_answered, send_replies-sent}
use copass.Managed.Cycle.Complete.{send_replies-calls, is_cycle_complete-calls}
use copass.Managed.Sdk.{StopReason, SdkEvent}
use copass.Managed.Turn.{default_policy, replies, Turn, Run, new_run}
use copass.Managed.Stream.{step, Feed, closed, next, returned, run_of, drive}
use copass.Managed.Emit.{build_pending_tool_call}
use copass.Managed.Stream.Finish.{EndsWell, drive-new_run-EndsWell}
use copass.Managed.Stream.Bounds.{reply_batches, drive-new_run-IsBounded}
use copass.Managed.Stream.Order.{called}
use copass.Managed.Result.{run, run-lem, texts, join}
use copass.Managed.Deadline.{
  Inner, yields, stops, timed, timed_out, stream, events_of, stream-cases,
}

abbrev nobody : AgentInvocationContext
nobody = record {
  scope = record { user_id = "u"; sandbox_id = none; project_id = none };
  trace_id = none;
  dek = none;
  handles = [];
}

-- A tool that gives its arguments back, and one that raises.
abbrev echo : AgentTool
echo = record {
  spec = record { name = "echo"; description = "echoes"; input_schema = obj end };
  invoke = λ arguments context. Outcome.returned (obj arguments);
}

abbrev boom : AgentTool
boom = record {
  spec = record { name = "boom"; description = "raises"; input_schema = obj end };
  invoke = λ arguments context. Outcome.raised "no";
}

abbrev tools : AgentToolRegistry
tools = ("echo", echo) ∷ ("boom", boom) ∷ []

abbrev turn : Turn
turn = record {
  session_id = "s";
  policy = default_policy;
  tools = tools;
  context = nobody;
  server = λ before batch. accepted;
}

abbrev arguments : Fields
arguments = field "x" (str "1") end

abbrev blank : SdkEvent
blank = record {
  type = none;
  id = none;
  name = none;
  input = none;
  content = [];
  stop_reason = none;
  model_usage = none;
}

abbrev asks : SdkEvent
asks = record blank {
  type = some "agent.custom_tool_use";
  id = some "b";
  name = some "echo";
  input = some (obj arguments);
}

abbrev confirms : SdkEvent
confirms = record blank { type = some "agent.tool_use"; id = some "a"; name = some "bash" }

abbrev stop : StopReason
stop = record { type = some "requires_action"; event_ids = "b" ∷ "a" ∷ "b" ∷ [] }

abbrev waits : SdkEvent
waits = record blank { type = some "session.status_idle"; stop_reason = some stop }

abbrev says : SdkEvent
says = record blank {
  type = some "agent.message";
  content = record { type = some "text"; text = some "done" } ∷ [];
}

abbrev ends : SdkEvent
ends = record blank {
  type = some "session.status_idle";
  stop_reason = some (record { type = some "end_turn"; event_ids = [] });
}

abbrev feed : Feed
feed = next asks (next confirms (next waits (next says (next ends closed))))

-- The turn in full: two calls, their results in the order of the ids, a text and the final event.
turn_out :
    drive turn feed new_run
    ≡ returned (record {
      events_by_id = [];
      yielded_call_ids = "b" ∷ "a" ∷ [];
      usage_accumulator = [];
      seen_unknown_event_types = [];
      cycle_count = 1;
      out =
          tool_call "b" "echo" arguments
          ∷ tool_call "a" "bash" end
          ∷ tool_result "a" "bash" (field "confirmed" (bool true) end) none
          ∷ tool_result "b" "echo" arguments none
          ∷ text_delta "done"
          ∷ finish "end_turn" [] (some "s")
          ∷ [];
      posts =
          replies (
            tool_confirmation "a"
            ∷ custom_tool_result "b" (record { result = some (obj arguments); error = none })
            ∷ [])
          ∷ [];
    })
unfolding drive get step calls new_cycle has put sorted send_replies reply_id reply_to_call
    build_pending_tool_call try_get remove
turn_out = refl

drive-new_run-EndsWell_example : EndsWell turn (drive turn feed new_run)
drive-new_run-EndsWell_example = drive-new_run-EndsWell turn feed

drive-new_run-IsBounded_example :
    (reply_batches (run_of (drive turn feed new_run)).posts
      ≤ (run_of (drive turn feed new_run)).cycle_count)
    × ((run_of (drive turn feed new_run)).cycle_count ≤ 20)
drive-new_run-IsBounded_example = drive-new_run-IsBounded turn feed

abbrev call_a : PendingToolCall
call_a = server_tool_call "a" "bash"

abbrev call_b : PendingToolCall
call_b = custom_tool_call "b" "echo" arguments

abbrev buffer : Dict PendingToolCall
buffer = ("b", call_b) ∷ ("a", call_a) ∷ []

buffer-IsBuffer : IsBuffer buffer
unfolding get
buffer-IsBuffer = record { at_id = λ k c e. ground (arith, eq_iff "b" k, eq_iff "a" k) }

abbrev waiting : Run
waiting = record new_run { events_by_id = buffer }

abbrev cycle : RequiresActionCycle
cycle = record { requested_ids = "b" ∷ "a" ∷ []; executed_ids = [] }

calls-cases_example :
    Resolves cycle buffer (calls cycle buffer) ⊎ Misses cycle buffer (calls cycle buffer)
calls-cases_example = calls-cases cycle buffer buffer-IsBuffer

calls-cycle : calls cycle buffer ≡ resolved (call_a ∷ call_b ∷ [])
unfolding calls sorted get has
calls-cycle = refl

abbrev answers : List Reply
answers = map (reply_to_call tools nobody) (call_a ∷ call_b ∷ [])

abbrev accept : List Reply → Posted
accept rs = accepted

abbrev served_cycle : RequiresActionCycle
served_cycle = record { requested_ids = "b" ∷ "a" ∷ []; executed_ids = "a" ∷ "b" ∷ [] }

answers-sent : send_replies accept cycle answers ≡ sent served_cycle
unfolding send_replies reply_to_call reply_id get try_get
answers-sent = refl

send_replies-sent_example :
    All (IsTo cycle.requested_ids) answers
    × (accept answers ≡ accepted)
    × (served_cycle.requested_ids ≡ cycle.requested_ids)
    × ((k : String)
        → contains served_cycle.executed_ids k
          ≡ (contains cycle.executed_ids k || is_answered answers k))
send_replies-sent_example = send_replies-sent accept cycle served_cycle answers answers-sent

send_replies-calls_example : send_replies accept cycle answers ≡ after_post cycle answers accepted
send_replies-calls_example =
    send_replies-calls tools nobody cycle buffer (call_a ∷ call_b ∷ []) buffer-IsBuffer calls-cycle
      accept

is_cycle_complete-calls_example : is_cycle_complete served_cycle ≡ true
is_cycle_complete-calls_example =
    is_cycle_complete-calls tools nobody cycle buffer (call_a ∷ call_b ∷ []) buffer-IsBuffer
      calls-cycle accept served_cycle answers-sent

reply_of_boom :
    execute_and_build_reply "c" "boom" end tools nobody
    ≡ custom_tool_result "c" (record { result = some (obj end); error = some "tool raised: no" })
unfolding execute_and_build_reply get try_get
reply_of_boom = refl
