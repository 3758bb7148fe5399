-- ===== src/Managed/Stream/Finish.antt =====
-- How a turn ends: with exactly one final event, the last one, or by raising.
use copass.Prelude.{
  ℕ, String, ◌≡◌, refl, Option, none, some, List, [], ◌∷◌, ◌++◌, All, Bool-cases, inl, inr, leb,
  ◌==◌,
}
use copass.Dict.{Dict, get}
use copass.Agents.Events.{AgentEvent, finish}
use copass.Managed.Call.{PendingToolCall, Reply}
use copass.Managed.Cycle.{
  RequiresActionCycle, Calls, resolved, missing_pending, key_error, Sent, sent, out_of_cycle_reply,
  refused, post_failed,
}
use copass.Managed.Sdk.{
  StopReason, SdkEvent, Envelope, Kind, message, tool_use, idle, terminated, session_error,
  model_request_end, noop, unknown, kind_of, nonempty,
}
use copass.Managed.Turn.{
  Batch, Turn, Run, new_run, Control, going, finished, crashed, emit, log_post, send_interrupt_soft,
  finish_with, replies,
}
use copass.Managed.Stream.{
  buffer_call, on_tool_use, settle, serve_cycle, on_calls, open_cycle, on_requires_action, on_stop,
  on_stop_type, on_stop_reason, on_idle, count_usage, note_type, handle, step, Feed, closed, broken,
  next, Ended, returned, raised, proceed, drive,
}
use copass.Managed.Emit.{build_pending_tool_call, announce, emit_results}
use copass.Managed.Stream.Order.{Ordered, NotFinish}
use copass.Managed.Stream.Sound.{
  IsSound, emit_texts-IsSound, emit_call-IsSound, announce-IsSound, announce-IsYielded,
  emit_results-IsSound, remove_all-IsBuffer, buffered-IsSound,
}

-- The events of a turn that has finished: one final event, at the end, of the turn's session.
abbrev pub IsFinal : Turn → List AgentEvent → Type 0
IsFinal t out =
    (es : List AgentEvent) × (reason : String) × (usage : Dict ℕ) × (out
      ≡ es ++ finish reason usage (some t.session_id) ∷ [])
    × All NotFinish es
    × Ordered [] es

abbrev After : Turn → Run → Control → Type 0
After t r going = IsSound r
After t r finished = IsFinal t r.out
After t r (crashed e) = IsSound r

abbrev AfterPass : Turn → Run × Control → Type 0
AfterPass t (r, c) = After t r c

finish_with-After :
    (t : Turn) (reason : String) (r : Run) → IsSound r → AfterPass t (finish_with t reason r)
unfolding finish_with emit
finish_with-After t reason r h = (r.out, reason, r.usage_accumulator, refl, h.unfinished, h.ordered)

pub log_post-IsSound : (r : Run) (b : Batch) → IsSound r → IsSound (log_post r b)
unfolding log_post
log_post-IsSound r b h = record {
  buffer = h.buffer;
  ordered = h.ordered;
  announced = h.announced;
  unfinished = h.unfinished;
}

interrupted-After :
    (t : Turn) (reason : String) (r : Run)
    → IsSound r
    → AfterPass t (finish_with t reason (send_interrupt_soft r))
unfolding send_interrupt_soft
interrupted-After t reason r h = finish_with-After t reason _ (log_post-IsSound r _ h)

settle-After :
    (t : Turn) (r : Run) (rs : List Reply) (s : Sent) → IsSound r → AfterPass t (settle t r rs s)
unfolding settle log_post
settle-After t r rs (sent cycle) h = record {
  buffer = remove_all-IsBuffer r.events_by_id cycle.executed_ids h.buffer;
  ordered = h.ordered;
  announced = h.announced;
  unfinished = h.unfinished;
}
settle-After t r rs refused h =
    interrupted-After t "bad_request" (log_post r (replies rs)) (log_post-IsSound r (replies rs) h)
settle-After t r rs (out_of_cycle_reply rid) h = interrupted-After t "out_of_cycle_reply" r h
settle-After t r rs (post_failed e) h = log_post-IsSound r (replies rs) h

serve_cycle-After :
    (t : Turn) (r : Run) (cycle : RequiresActionCycle) (cs : List PendingToolCall)
    → IsSound r
    → AfterPass t (serve_cycle t r cycle cs)
unfolding serve_cycle
serve_cycle-After t r cycle cs h =
    settle-After t (emit_results t (announce r cs) cs) _ _ (
      emit_results-IsSound t (announce r cs) cs (announce-IsSound r cs h) (announce-IsYielded r cs))

on_calls-After :
    (t : Turn) (r : Run) (cycle : RequiresActionCycle) (c : Calls)
    → IsSound r
    → AfterPass t (on_calls t r cycle c)
unfolding on_calls
on_calls-After t r cycle (resolved cs) h = serve_cycle-After t r cycle cs h
on_calls-After t r cycle (missing_pending missing known) h = h
on_calls-After t r cycle key_error h = h

counted-IsSound : (r : Run) (n : ℕ) → IsSound r → IsSound (record r { cycle_count = n })
counted-IsSound r n h = record {
  buffer = h.buffer;
  ordered = h.ordered;
  announced = h.announced;
  unfinished = h.unfinished;
}

on_requires_action-After :
    (t : Turn) (stop : StopReason) (r : Run) → IsSound r → AfterPass t (on_requires_action t stop r)
unfolding on_requires_action open_cycle
on_requires_action-After t stop r h = elim (Bool-cases (leb t.policy.max_cycles r.cycle_count)) [
  | inl q ↦ rw q (interrupted-After t "policy_max_cycles_exhausted" r h)
  | inr q ↦ rw q (on_calls-After t _ _ _ (counted-IsSound r _ h))
]

on_stop-After :
    (t : Turn) (stop : StopReason) (stop_type : String) (r : Run)
    → IsSound r
    → AfterPass t (on_stop t stop stop_type r)
unfolding on_stop
on_stop-After t stop stop_type r h = elim (Bool-cases (stop_type == "requires_action")) [
  | inl q ↦ rw q (on_requires_action-After t stop r h)
  | inr q ↦ rw q (elim (Bool-cases (stop_type == "end_turn")) [
    | inl p ↦ rw p (finish_with-After t "end_turn" r h)
    | inr p ↦ rw p (finish_with-After t stop_type r h)
  ])
]

on_stop_type-After :
    (t : Turn) (stop : StopReason) (r : Run) (o : Option String)
    → IsSound r
    → AfterPass t (on_stop_type t stop r o)
unfolding on_stop_type
on_stop_type-After t stop r none h = finish_with-After t "unknown" r h
on_stop_type-After t stop r (some stop_type) h = on_stop-After t stop stop_type r h

on_stop_reason-After :
    (t : Turn) (r : Run) (o : Option StopReason) → IsSound r → AfterPass t (on_stop_reason t r o)
unfolding on_stop_reason
on_stop_reason-After t r none h = finish_with-After t "unknown" r h
on_stop_reason-After t r (some stop) h = on_stop_type-After t stop r (nonempty stop.type) h

buffer_call-After :
    (t : Turn) (e : Envelope) (ev : SdkEvent) (r : Run) (o : Option String)
    → IsSound r
    → AfterPass t (buffer_call e ev r o)
unfolding buffer_call
buffer_call-After t e ev r none h = h
buffer_call-After t e ev r (some id) h =
    emit_call-IsSound _ (build_pending_tool_call e ev id) (buffered-IsSound e ev id r h)

count_usage-IsSound : (r : Run) (o : Option (Dict ℕ)) → IsSound r → IsSound (count_usage r o)
unfolding count_usage
count_usage-IsSound r none h = h
count_usage-IsSound r (some counted) h = record {
  buffer = h.buffer;
  ordered = h.ordered;
  announced = h.announced;
  unfinished = h.unfinished;
}

note_type-IsSound : (r : Run) (o : Option String) → IsSound r → IsSound (note_type r o)
unfolding note_type
note_type-IsSound r none h = h
note_type-IsSound r (some name) h = record {
  buffer = h.buffer;
  ordered = h.ordered;
  announced = h.announced;
  unfinished = h.unfinished;
}

handle-After :
    (t : Turn) (k : Kind) (ev : SdkEvent) (r : Run) → IsSound r → AfterPass t (handle t k ev r)
unfolding handle on_tool_use on_idle
handle-After t message ev r h = emit_texts-IsSound r ev.content h
handle-After t (tool_use e) ev r h = buffer_call-After t e ev r (nonempty ev.id) h
handle-After t idle ev r h = on_stop_reason-After t r ev.stop_reason h
handle-After t terminated ev r h = finish_with-After t "terminated" r h
handle-After t session_error ev r h = finish_with-After t "error" r h
handle-After t model_request_end ev r h = count_usage-IsSound r ev.model_usage h
handle-After t noop ev r h = h
handle-After t unknown ev r h = note_type-IsSound r (nonempty ev.type) h

-- What is known of a generator that has ended.
abbrev pub EndsWell : Turn → Ended → Type 0
EndsWell t (returned r) = IsFinal t r.out
EndsWell t (raised e r) = All NotFinish r.out × Ordered [] r.out

proceed-EndsWell :
    (t : Turn) (rest : Run → Ended) (r : Run) (c : Control)
    → ((s : Run) → IsSound s → EndsWell t (rest s))
    → After t r c
    → EndsWell t (proceed rest r c)
unfolding proceed
proceed-EndsWell t rest r going f h = f r h
proceed-EndsWell t rest r finished f h = h
proceed-EndsWell t rest r (crashed e) f h = (h.unfinished, h.ordered)

pub drive-EndsWell : (t : Turn) (feed : Feed) (r : Run) → IsSound r → EndsWell t (drive t feed r)
unfolding drive step
drive-EndsWell t closed r h = finish_with-After t "end_turn" r h
drive-EndsWell t (broken e) r h = (h.unfinished, h.ordered)
drive-EndsWell t (next ev feed) r h =
    proceed-EndsWell t (drive t feed) _ _ (λ s k. drive-EndsWell t feed s k)
      (handle-After t (kind_of ev.type) ev r h)

pub IsSound-new_run : IsSound new_run
unfolding get
IsSound-new_run = record {
  buffer = record { at_id = λ k c e. cc };
  ordered = tt;
  announced = λ k e. cc;
  unfinished = tt;
}

-- Whatever events the provider sends, whatever it answers and whatever the tools do, a turn that
-- returns has yielded exactly one final event, as its last, and a turn that raises has yielded none;
-- in both cases every tool result that was yielded comes after a tool call of the same id.
pub drive-new_run-EndsWell : (t : Turn) (feed : Feed) → EndsWell t (drive t feed new_run)
drive-new_run-EndsWell t feed = drive-EndsWell t feed new_run IsSound-new_run
