-- ===== src/Managed/Stream/Sound.antt =====
-- The invariant of a turn that has not finished, and the operations that keep it.
use mathlib.Core.Path.{subst}
use copass.Prelude.{
  String, ◌≡◌, refl, true, Option, none, some, List, [], ◌∷◌, ◌++◌, arith, eq_iff, contains, add,
  All, All-snoc, if◌then◌else◌, Bool-cases, inl, inr,
}
use copass.Dict.{Dict, put, remove}
use copass.Dict.Laws.{get-put, get-remove}
use copass.Agents.Events.{AgentEvent, text_delta, tool_call}
use copass.Managed.Call.{
  PendingToolCall, custom_tool_call, server_tool_call, mcp_tool_call, event_id, call_name,
  shown_arguments, Reply, reply_to_call,
}
use copass.Managed.Cycle.Replies.{contains-add}
use copass.Managed.Cycle.Resolve.{IsBuffer}
use copass.Managed.Sdk.{Block, SdkEvent, Envelope, custom_tool_use, server_tool_use, mcp_tool_use}
use copass.Managed.Turn.{Turn, Run, emit}
use copass.Managed.Stream.{remove_all}
use copass.Managed.Emit.{
  text_of, emit_text, emit_texts, build_pending_tool_call, emit_call, announce, result_event,
  emit_results,
}
use copass.Managed.Stream.Order.{
  called, Ordered, Fits, NotFinish, contains-called-append, Ordered-snoc,
}

-- The buffer holds calls under their ids; what has been yielded is in order, with no final event;
-- and every id that is noted as yielded has been.
pub record IsSound (r : Run) : Type 0 where
  pub buffer : IsBuffer r.events_by_id
  pub ordered : Ordered [] r.out
  pub announced :
      (k : String) → contains r.yielded_call_ids k ≡ true → contains (called r.out) k ≡ true
  pub unfinished : All NotFinish r.out

contains-called-snoc :
    (es : List AgentEvent) (e : AgentEvent) (k : String)
    → contains (called es) k ≡ true
    → contains (called (es ++ e ∷ [])) k ≡ true
contains-called-snoc es e k h = ground (arith, contains-called-append es (e ∷ []) k)

pub emit-IsSound :
    (r : Run) (e : AgentEvent)
    → IsSound r
    → Fits (called r.out) e
    → NotFinish e
    → IsSound (emit r e)
unfolding emit
emit-IsSound r e h f n = record {
  buffer = h.buffer;
  ordered = Ordered-snoc r.out e h.ordered f;
  announced = λ k q. contains-called-snoc r.out e k (h.announced k q);
  unfinished = All-snoc NotFinish r.out e h.unfinished n;
}

emit_text-IsSound : (r : Run) (o : Option String) → IsSound r → IsSound (emit_text r o)
unfolding emit_text
emit_text-IsSound r none h = h
emit_text-IsSound r (some text) h = emit-IsSound r (text_delta text) h tt refl

pub emit_texts-IsSound : (r : Run) (bs : List Block) → IsSound r → IsSound (emit_texts r bs)
unfolding emit_texts
emit_texts-IsSound r [] h = h
emit_texts-IsSound r (b ∷ bs) h =
    emit_texts-IsSound (emit_text r (text_of b)) bs (emit_text-IsSound r (text_of b) h)

abbrev call_event : PendingToolCall → AgentEvent
call_event c = tool_call (event_id c) (call_name c) (shown_arguments c)

emit_call-announced :
    (r : Run) (c : PendingToolCall) (k : String)
    → (contains r.yielded_call_ids k ≡ true → contains (called r.out) k ≡ true)
    → contains (add r.yielded_call_ids (event_id c)) k ≡ true
    → contains (called (r.out ++ call_event c ∷ [])) k ≡ true
unfolding called
emit_call-announced r c k h q = ground (
  arith,
  contains-add r.yielded_call_ids (event_id c) k,
  contains-called-append r.out (call_event c ∷ []) k,
)

pub emit_call-IsSound : (r : Run) (c : PendingToolCall) → IsSound r → IsSound (emit_call r c)
unfolding emit_call
emit_call-IsSound r c h =
    let k : IsSound (emit r (call_event c)) = emit-IsSound r (call_event c) h tt refl in
    record {
      buffer = k.buffer;
      ordered = k.ordered;
      announced = λ j. emit_call-announced r c j (h.announced j);
      unfinished = k.unfinished;
    }

-- An id that has been noted as yielded.
abbrev pub IsYielded : Run → PendingToolCall → Type 0
IsYielded r c = contains r.yielded_call_ids (event_id c) ≡ true

announce_one : Run → PendingToolCall → Run
announce_one r c = if contains r.yielded_call_ids (event_id c) then r else emit_call r c

announce_one-IsSound : (r : Run) (c : PendingToolCall) → IsSound r → IsSound (announce_one r c)
unfolding announce_one
announce_one-IsSound r c h = elim (Bool-cases (contains r.yielded_call_ids (event_id c))) [
  | inl q ↦ rw q h
  | inr q ↦ rw q (emit_call-IsSound r c h)
]

announce_one-IsYielded : (r : Run) (c : PendingToolCall) → IsYielded (announce_one r c) c
unfolding announce_one emit_call emit
announce_one-IsYielded r c = elim (Bool-cases (contains r.yielded_call_ids (event_id c))) [
  | inl q ↦ rw q q
  | inr q ↦ rw q (
      ground (
        arith,
        contains-add r.yielded_call_ids (event_id c) (event_id c),
        eq_iff (event_id c) (event_id c),
      ))
]

announce_one_mono :
    (r : Run) (c d : PendingToolCall) → IsYielded r d → IsYielded (announce_one r c) d
unfolding announce_one emit_call emit
announce_one_mono r c d h = elim (Bool-cases (contains r.yielded_call_ids (event_id c))) [
  | inl q ↦ rw q h
  | inr q ↦ rw q (ground (arith, contains-add r.yielded_call_ids (event_id c) (event_id d)))
]

announce_mono :
    (r : Run) (cs : List PendingToolCall) (d : PendingToolCall)
    → IsYielded r d
    → IsYielded (announce r cs) d
unfolding announce announce_one
announce_mono r [] d h = h
announce_mono r (c ∷ cs) d h = announce_mono (announce_one r c) cs d (announce_one_mono r c d h)

pub announce-IsSound : (r : Run) (cs : List PendingToolCall) → IsSound r → IsSound (announce r cs)
unfolding announce announce_one
announce-IsSound r [] h = h
announce-IsSound r (c ∷ cs) h = announce-IsSound (announce_one r c) cs (announce_one-IsSound r c h)

pub announce-IsYielded : (r : Run) (cs : List PendingToolCall) → All (IsYielded (announce r cs)) cs
unfolding announce announce_one
announce-IsYielded r [] = tt
announce-IsYielded r (c ∷ cs) = (
  announce_mono (announce_one r c) cs c (announce_one-IsYielded r c),
  announce-IsYielded (announce_one r c) cs,
)

Fits-result_event :
    (seen : List String) (c : PendingToolCall) (reply : Reply)
    → contains seen (event_id c) ≡ true
    → Fits seen (result_event c reply)
unfolding result_event
Fits-result_event seen (custom_tool_call i n a) reply h = h
Fits-result_event seen (server_tool_call i n) reply h = h
Fits-result_event seen (mcp_tool_call i n) reply h = h

result_event-NotFinish : (c : PendingToolCall) (reply : Reply) → NotFinish (result_event c reply)
unfolding result_event
result_event-NotFinish (custom_tool_call i n a) reply = refl
result_event-NotFinish (server_tool_call i n) reply = refl
result_event-NotFinish (mcp_tool_call i n) reply = refl

pub emit_results-IsSound :
    (t : Turn) (r : Run) (cs : List PendingToolCall)
    → IsSound r
    → All (IsYielded r) cs
    → IsSound (emit_results t r cs)
unfolding emit_results emit
emit_results-IsSound t r [] h y = h
emit_results-IsSound t r (c ∷ cs) h y =
    let reply : Reply = reply_to_call t.tools t.context c in
    emit_results-IsSound t (emit r (result_event c reply)) cs
      (emit-IsSound r (result_event c reply) h
        (Fits-result_event (called r.out) c reply (h.announced (event_id c) y.0))
        (result_event-NotFinish c reply))
      y.1

put-IsBuffer :
    (d : Dict PendingToolCall) (c : PendingToolCall) → IsBuffer d → IsBuffer (put d (event_id c) c)
put-IsBuffer d c h = record {
  at_id = λ k x q. ground (arith, get-put d (event_id c) c k, eq_iff (event_id c) k, h.at_id k x);
}

remove-IsBuffer : (d : Dict PendingToolCall) (k : String) → IsBuffer d → IsBuffer (remove d k)
remove-IsBuffer d k h = record { at_id = λ j x q. ground (arith, get-remove d k j, h.at_id j x) }

pub remove_all-IsBuffer :
    (d : Dict PendingToolCall) (ks : List String) → IsBuffer d → IsBuffer (remove_all d ks)
unfolding remove_all
remove_all-IsBuffer d [] h = h
remove_all-IsBuffer d (k ∷ ks) h = remove_all-IsBuffer (remove d k) ks (remove-IsBuffer d k h)

event_id-build_pending_tool_call :
    (e : Envelope) (ev : SdkEvent) (id : String) → event_id (build_pending_tool_call e ev id) ≡ id
unfolding build_pending_tool_call
event_id-build_pending_tool_call custom_tool_use ev id = refl
event_id-build_pending_tool_call server_tool_use ev id = refl
event_id-build_pending_tool_call mcp_tool_use ev id = refl

-- A tool-use event with an id is buffered under that id.
pub buffered-IsSound :
    (e : Envelope) (ev : SdkEvent) (id : String) (r : Run)
    → IsSound r
    → IsSound (record r { events_by_id = put r.events_by_id id (build_pending_tool_call e ev id) })
buffered-IsSound e ev id r h = record {
  buffer =
      subst (λ k. IsBuffer (put r.events_by_id k (build_pending_tool_call e ev id)))
        (event_id-build_pending_tool_call e ev id)
        (put-IsBuffer r.events_by_id (build_pending_tool_call e ev id) h.buffer);
  ordered = h.ordered;
  announced = h.announced;
  unfinished = h.unfinished;
}
