-- ===== src/Managed/Result.antt =====
-- `ManagedAgentBackendV2.run`: the events of a turn, drained into one result.
use mathlib.Core.List.{append_assoc, append-nil}
use Prim.Native.String.{◌++◌ as text_append}
use copass.Prelude.{
  ℕ, String, ◌≡◌, refl, ap, sym, ◌∙◌, ◌&&◌, not, Option, none, some, List, [], ◌∷◌, ◌++◌, map,
  arith, ◌==◌, if◌then◌else◌, is_some,
}
use copass.Dict.{Dict}
use copass.Json.{Fields}
use copass.Agents.Events.{AgentEvent, text_delta, tool_call, tool_result, finish}
use copass.Managed.Call.{truthy}
use copass.Managed.Stream.Order.{called}

pub record CallEntry : Type 0 where
  pub call_id : String
  pub name : String
  pub arguments : Fields
  pub result : Option Fields
  pub error : Option String

-- The local variables of `run`.
pub record Draining : Type 0 where
  pub final_text_parts : List String
  pub tool_calls_log : List CallEntry
  pub stop_reason : String
  pub usage : Dict ℕ
  pub session_id : Option String

abbrev pub drained_nothing : Draining
drained_nothing = record {
  final_text_parts = [];
  tool_calls_log = [];
  stop_reason = "end_turn";
  usage = [];
  session_id = none;
}

-- The first entry of the call that has no result yet takes the result.
unfoldable pub attach_result : List CallEntry → String → Fields → Option String → List CallEntry
attach_result [] id result error = []
attach_result (e ∷ es) id result error =
    if e.call_id == id && not (is_some e.result)
    then record e { result = some result; error = truthy error } ∷ es
    else e ∷ attach_result es id result error

unfoldable pub drain : Draining → AgentEvent → Draining
unfolding attach_result
drain d (text_delta text) = record d { final_text_parts = d.final_text_parts ++ text ∷ [] }
drain d (tool_call i n a) = record d {
  tool_calls_log =
      d.tool_calls_log
      ++ record { call_id = i; name = n; arguments = a; result = none; error = none } ∷ [];
}
drain d (tool_result i n v e) = record d { tool_calls_log = attach_result d.tool_calls_log i v e }
drain d (finish reason usage session) = record d {
  stop_reason = reason;
  usage = usage;
  session_id = session;
}

unfoldable pub drain_all : Draining → List AgentEvent → Draining
drain_all d [] = d
drain_all d (e ∷ es) = drain_all (drain d e) es

abbrev pub join : List String → String
join [] = ""
join (s ∷ ss) = text_append s (join ss)

-- base_backend.py
pub record AgentRunResult : Type 0 where
  pub final_text : String
  pub tool_calls : List CallEntry
  pub stop_reason : String
  pub usage : Dict ℕ
  pub session_id : Option String

unfoldable pub run : List AgentEvent → AgentRunResult
unfolding drain_all drain
run events =
    let d : Draining = drain_all drained_nothing events in
    record {
      final_text = join d.final_text_parts;
      tool_calls = d.tool_calls_log;
      stop_reason = d.stop_reason;
      usage = d.usage;
      session_id = d.session_id;
    }

-- The texts of the deltas of a list.
unfoldable pub texts : List AgentEvent → List String
texts [] = []
texts (text_delta text ∷ es) = text ∷ texts es
texts (tool_call i n a ∷ es) = texts es
texts (tool_result i n v e ∷ es) = texts es
texts (finish r u s ∷ es) = texts es

abbrev ids : List CallEntry → List String
ids es = map (λ e. e.call_id) es

ids-attach_result :
    (es : List CallEntry) (id : String) (v : Fields) (m : Option String)
    → ids (attach_result es id v m) ≡ ids es
unfolding attach_result
ids-attach_result [] id v m = refl
ids-attach_result (e ∷ es) id v m = ground (arith, ids-attach_result es id v m)

ids-append : (es fs : List CallEntry) → ids (es ++ fs) ≡ ids es ++ ids fs
ids-append [] fs = refl
ids-append (e ∷ es) fs = ap (λ l. e.call_id ∷ l) (ids-append es fs)

parts-drain_all :
    (d : Draining) (es : List AgentEvent)
    → (drain_all d es).final_text_parts ≡ d.final_text_parts ++ texts es
unfolding drain_all drain texts
parts-drain_all d [] = sym (append-nil d.final_text_parts)
parts-drain_all d (text_delta text ∷ es) =
    parts-drain_all (drain d (text_delta text)) es
    ∙ append_assoc d.final_text_parts (text ∷ []) (texts es)
parts-drain_all d (tool_call i n a ∷ es) = parts-drain_all (drain d (tool_call i n a)) es
parts-drain_all d (tool_result i n v e ∷ es) = parts-drain_all (drain d (tool_result i n v e)) es
parts-drain_all d (finish r u s ∷ es) = parts-drain_all (drain d (finish r u s)) es

ids-drain_all :
    (d : Draining) (es : List AgentEvent)
    → ids (drain_all d es).tool_calls_log ≡ ids d.tool_calls_log ++ called es
unfolding drain_all drain called
ids-drain_all d [] = sym (append-nil (ids d.tool_calls_log))
ids-drain_all d (text_delta text ∷ es) = ids-drain_all (drain d (text_delta text)) es
ids-drain_all d (tool_call i n a ∷ es) =
    ids-drain_all (drain d (tool_call i n a)) es
    ∙ ap (λ l. l ++ called es) (ids-append d.tool_calls_log _)
    ∙ append_assoc (ids d.tool_calls_log) (i ∷ []) (called es)
ids-drain_all d (tool_result i n v e ∷ es) =
    ids-drain_all (drain d (tool_result i n v e)) es
    ∙ ap (λ l. l ++ called es) (ids-attach_result d.tool_calls_log i v e)
ids-drain_all d (finish r u s ∷ es) = ids-drain_all (drain d (finish r u s)) es

drain_all-append :
    (d : Draining) (es fs : List AgentEvent)
    → drain_all d (es ++ fs) ≡ drain_all (drain_all d es) fs
unfolding drain_all
drain_all-append d [] fs = refl
drain_all-append d (e ∷ es) fs = drain_all-append (drain d e) es fs

-- Draining the events of a turn loses none of its text and none of its tool calls: the final text is
-- the concatenation of the deltas, and the log has one entry for each call event, in their order;
-- the reason, the usage and the session are those of the final event, if it is the last one.
pub run-lem :
    (es : List AgentEvent) (reason : String) (usage : Dict ℕ) (session : Option String)
    → let result = run (es ++ finish reason usage session ∷ []) in
      (result.final_text ≡ join (texts es))
      × (map (λ e. e.call_id) result.tool_calls ≡ called es)
      × (result.stop_reason ≡ reason)
      × (result.usage ≡ usage)
      × (result.session_id ≡ session)
unfolding run
run-lem es reason usage session =
    rw (drain_all-append drained_nothing es (finish reason usage session ∷ [])) (
      ap join (parts-drain_all drained_nothing es),
      ids-drain_all drained_nothing es,
      refl,
      refl,
      refl,
    )
