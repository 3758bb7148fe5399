-- ===== src/ManagedV1/Answer/Replies.antt =====
-- managed_agent_backend.py: what `_execute_pending_tools` and `_build_user_event_for_tool_use` give for
-- the requested ids, and what yielding and dropping it does to a run.
use mathlib.Core.List.{append_assoc, append-nil}
use copass.Prelude.{
  String, ◌≡◌, refl, ap, sym, ◌∙◌, Bool, true, false, not, Option, none, some, List, [], ◌∷◌, ◌++◌,
  map, arith, eq_iff, if◌then◌else◌, contains, Option-cases, inl, inr, or_else,
}
use copass.Dict.{get, remove}
use copass.Dict.Laws.{get-remove}
use copass.Agents.Events.{tool_result}
use copass.Agents.Tools.{Outcome, try_get}
use copass.Json.{Fields, obj}
use copass.Managed.Call.{Reply, tool_confirmation, reply_id}
use copass.Managed.Sdk.{
  SdkEvent, Envelope, custom_tool_use, server_tool_use, mcp_tool_use, or_empty,
}
use copass.ManagedV1.{Yielded, event, opaque_result, Turn, Run, emit}
use copass.ManagedV1.Answer.{
  ToolReply, arguments_of, reply_of_outcome, execute_custom, execute, execute_pending_tools,
  build_user_event_for_tool_use, reply_event, emit_results, shown_result, pop_all,
}
use copass.ManagedV1.Answer.Recovers.{Frame}

abbrev pub is_custom : Envelope → Bool
is_custom custom_tool_use = true
is_custom _ = false

abbrev pub is_confirmation : Reply → Bool
is_confirmation (tool_confirmation id) = true
is_confirmation _ = false

-- One reply for each id, in their order, of the kind that the envelope of its event wants.
abbrev pub Answers : (String → Option Envelope) → List String → List Reply → Type 0
Answers envelopes [] [] = Unit
Answers envelopes (k ∷ ks) (x ∷ xs) =
    (reply_id x ≡ some k)
    × (is_confirmation x ≡ not (is_custom (or_else (envelopes k) custom_tool_use)))
    × Answers envelopes ks xs
Answers envelopes [] (x ∷ xs) = ⊥
Answers envelopes (k ∷ ks) [] = ⊥

abbrev pub shown_id : Yielded → Option String
shown_id (opaque_result i n) = some i
shown_id (event (tool_result i n v e)) = some i
shown_id _ = none

build_reply_lem :
    (reply : ToolReply) (source : Envelope)
    → (reply_id (build_user_event_for_tool_use reply source) ≡ some reply.call_id)
      × (is_confirmation (build_user_event_for_tool_use reply source) ≡ not (is_custom source))
unfolding build_user_event_for_tool_use reply_id
build_reply_lem reply custom_tool_use = (refl, refl)
build_reply_lem reply server_tool_use = (refl, refl)
build_reply_lem reply mcp_tool_use = (refl, refl)

shown_result-shown_id :
    (id name : String) (error : Option String) (result : Option Fields)
    → shown_id (shown_result id name error result) ≡ some id
shown_result-shown_id id name error none = refl
shown_result-shown_id id name error (some fields) = refl

-- What is returned for an id is under that id, with the envelope that was asked for.
abbrev IsFor : String → Envelope → ToolReply → Type 0
IsFor id source reply = (reply.call_id ≡ id) × (reply.source_type ≡ source)

reply_of_outcome-IsFor :
    (id name : String) (o : Outcome) → IsFor id custom_tool_use (reply_of_outcome id name o)
unfolding reply_of_outcome
reply_of_outcome-IsFor id name (Outcome.raised text) = (refl, refl)
reply_of_outcome-IsFor id name Outcome.unserializable = (refl, refl)
reply_of_outcome-IsFor id name (Outcome.returned (obj fs)) = (refl, refl)
reply_of_outcome-IsFor id name (Outcome.returned _) = (refl, refl)

execute_custom-IsFor :
    (t : Turn) (id : String) (ev : SdkEvent) → IsFor id custom_tool_use (execute_custom t id ev)
unfolding execute_custom
execute_custom-IsFor t id ev = elim (Option-cases (try_get t.tools (or_empty ev.name))) [
  | inl e ↦ rw (e, execute_custom) (refl, refl)
  | inr (tool, e) ↦
      rw (e, execute_custom)
        (reply_of_outcome-IsFor id (or_empty ev.name) (tool.invoke (arguments_of ev) t.context))
]

execute-IsFor :
    (t : Turn) (id : String) (source : Envelope) (ev : Option SdkEvent)
    → IsFor id source (execute t id source ev)
unfolding execute
execute-IsFor t id custom_tool_use none = (refl, refl)
execute-IsFor t id custom_tool_use (some ev) = execute_custom-IsFor t id ev
execute-IsFor t id server_tool_use none = (refl, refl)
execute-IsFor t id server_tool_use (some ev) = (refl, refl)
execute-IsFor t id mcp_tool_use none = (refl, refl)
execute-IsFor t id mcp_tool_use (some ev) = (refl, refl)

pub call_id-execute_pending_tools :
    (t : Turn) (r : Run) (ids : List String)
    → map (λ (reply : ToolReply). reply.call_id) (execute_pending_tools t r ids) ≡ ids
unfolding execute_pending_tools
call_id-execute_pending_tools t r [] = refl
call_id-execute_pending_tools t r (id ∷ ids) = cc (
  (execute-IsFor t id (or_else (get r.envelope id) custom_tool_use) (get r.pending id)).0,
  call_id-execute_pending_tools t r ids,
)

pub execute_pending_tools-Answers :
    (t : Turn) (r : Run) (envelopes : String → Option Envelope) (ids : List String)
    → ((k : String) → contains ids k ≡ true → get r.envelope k ≡ envelopes k)
    → Answers envelopes ids (map reply_event (execute_pending_tools t r ids))
unfolding execute_pending_tools
execute_pending_tools-Answers t r envelopes [] same = tt
execute_pending_tools-Answers t r envelopes (id ∷ ids) same =
    let source = or_else (get r.envelope id) custom_tool_use in
    let reply = execute t id source (get r.pending id) in
    let (under, kind) = execute-IsFor t id source (get r.pending id) in
    let (named, confirmed) = build_reply_lem reply reply.source_type in
    let here = same id (ground (arith, eq_iff id id)) in
    (
      named ∙ ap some under,
      confirmed
          ∙ ap (λ e. not (is_custom e)) kind
          ∙ ap (λ e. not (is_custom (or_else e custom_tool_use))) here,
      execute_pending_tools-Answers t r envelopes ids (λ k asked. same k (ground arith)),
    )

pub emit_results_lem :
    (r : Run) (results : List ToolReply)
    → (shown : List Yielded) × (emit_results r results ≡ record r { out = r.out ++ shown })
      × (map shown_id shown ≡ map some (map (λ (reply : ToolReply). reply.call_id) results))
unfolding emit_results emit
emit_results_lem r [] =
    ([], ap (λ (l : List Yielded). record r { out = l }) (sym (append-nil r.out)), refl)
emit_results_lem r (reply ∷ results) =
    let y = shown_result reply.call_id reply.name reply.error reply.result in
    let (shown, same, ids) = emit_results_lem (emit r y) results in
    (
      y ∷ shown,
      same ∙ ap (λ (l : List Yielded). record r { out = l }) (append_assoc r.out (y ∷ []) shown),
      cc (shown_result-shown_id reply.call_id reply.name reply.error reply.result, ids),
    )

pub get-pop_all :
    (r : Run) (results : List ToolReply) (k : String)
    → get (pop_all r results).pending k ≡ (
        if contains (map (λ (reply : ToolReply). reply.call_id) results) k
        then none
        else get r.pending k)
unfolding pop_all
get-pop_all r [] k = refl
get-pop_all r (reply ∷ results) k = ground (
  arith,
  get-pop_all
      (record r {
        pending = remove r.pending reply.call_id;
        envelope = remove r.envelope reply.call_id;
      })
      results k,
  get-remove r.pending reply.call_id k,
)

pub pop_all-Frame : (r : Run) (results : List ToolReply) → Frame r (pop_all r results)
unfolding pop_all
pop_all-Frame r [] = record { out = refl; posts = refl; usage = refl }
pop_all-Frame r (reply ∷ results) =
    let s = record r {
      pending = remove r.pending reply.call_id;
      envelope = remove r.envelope reply.call_id;
    } in
    let f = pop_all-Frame s results in record { out = f.out; posts = f.posts; usage = f.usage }
