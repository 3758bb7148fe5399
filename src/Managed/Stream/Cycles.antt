-- ===== src/Managed/Stream/Cycles.antt =====
-- What one `requires_action` round does, on every branch: who is answered, and what is left buffered.
use copass.Prelude.{
  suc, ◌≤◌, String, ◌≡◌, refl, ◌∙◌, Bool, true, false, none, some, List, [], ◌∷◌, ◌++◌, map,
  contains, if◌then◌else◌, ◌⊎◌,
}
use copass.Dict.{Dict, get, has}
use copass.Sorted.{sorted}
use copass.Managed.Call.{PendingToolCall, event_id, Reply, reply_id, reply_to_call}
use copass.Managed.Cycle.{RequiresActionCycle}
use copass.Managed.Turn.{replies, interrupt, Turn, Run, Control, going, finished, crashed, emit}
use copass.Managed.Emit.{emit_call, announce, result_event, emit_results}

-- What yielding events leaves alone.
pub record Frame (r s : Run) : Type 0 where
  pub posts : s.posts ≡ r.posts
  pub events : s.events_by_id ≡ r.events_by_id
  pub cycles : s.cycle_count ≡ r.cycle_count

Frame-trans : {r s u : Run} → Frame r s → Frame s u → Frame r u
Frame-trans f g = record {
  posts = g.posts ∙ f.posts;
  events = g.events ∙ f.events;
  cycles = g.cycles ∙ f.cycles;
}

announce_one-Frame :
    (r : Run) (c : PendingToolCall) (b : Bool) → Frame r (if b then r else emit_call r c)
unfolding emit_call emit
announce_one-Frame r c true = record { posts = refl; events = refl; cycles = refl }
announce_one-Frame r c false = record { posts = refl; events = refl; cycles = refl }

pub announce-Frame : (r : Run) (cs : List PendingToolCall) → Frame r (announce r cs)
unfolding announce
announce-Frame r [] = record { posts = refl; events = refl; cycles = refl }
announce-Frame r (c ∷ cs) =
    Frame-trans (announce_one-Frame r c _)
      (announce-Frame (if contains r.yielded_call_ids (event_id c) then r else emit_call r c) cs)

pub emit_results-Frame :
    (t : Turn) (r : Run) (cs : List PendingToolCall) → Frame r (emit_results t r cs)
unfolding emit_results emit
emit_results-Frame t r [] = record { posts = refl; events = refl; cycles = refl }
emit_results-Frame t r (c ∷ cs) =
    let s : Run = emit r (result_event c (reply_to_call t.tools t.context c)) in
    Frame-trans {s = s} (record { posts = refl; events = refl; cycles = refl })
      (emit_results-Frame t s cs)

-- The run that a cycle has when its replies go out.
abbrev pub served : Turn → Run → List PendingToolCall → Run
served t r cs = emit_results t (announce r cs) cs

pub served-Frame : (t : Turn) (r : Run) (cs : List PendingToolCall) → Frame r (served t r cs)
served-Frame t r cs = Frame-trans (announce-Frame r cs) (emit_results-Frame t (announce r cs) cs)

-- The run's cycles are used up: the session is interrupted, and no reply is sent.
abbrev pub IsExhausted : Turn → Run → Run × Control → Type 0
IsExhausted t r (s, c) =
    (t.policy.max_cycles ≤ r.cycle_count)
    × (c ≡ finished)
    × (s.posts ≡ r.posts ++ interrupt ∷ [])
    × (s.events_by_id ≡ r.events_by_id)

-- Some requested id is not buffered: nothing is sent or yielded, and the stream goes on.
abbrev pub IsWaiting : List String → Run → Run × Control → Type 0
IsWaiting ids r (s, c) =
    ((k : String) × (contains ids k ≡ true) × (has r.events_by_id k ≡ false))
    × (c ≡ going)
    × (s ≡ record r { cycle_count = suc r.cycle_count })

-- The server took the replies: exactly the requested ids leave the buffer, and the stream goes on.
abbrev pub IsAccepted : List String → Run → List Reply → Run × Control → Type 0
IsAccepted ids r rs (s, c) =
    (c ≡ going)
    × (s.posts ≡ r.posts ++ replies rs ∷ [])
    × ((k : String)
        → get s.events_by_id k ≡ (if contains ids k then none else get r.events_by_id k))

-- It refused them as malformed: the session is interrupted, and the turn finishes.
abbrev pub IsRefused : Run → List Reply → Run × Control → Type 0
IsRefused r rs (s, c) = (c ≡ finished) × (s.posts ≡ (r.posts ++ replies rs ∷ []) ++ interrupt ∷ [])

-- Posting them raised: the turn raises.
abbrev pub IsFailed : Run → List Reply → Run × Control → Type 0
IsFailed r rs (s, c) = ((e : String) × (c ≡ crashed e)) × (s.posts ≡ r.posts ++ replies rs ∷ [])

-- One batch answers each requested id once, in the sorted order of the ids.
abbrev pub IsAnswered : List String → Run → Run × Control → Type 0
IsAnswered ids r sc =
    (rs : List Reply) × (map reply_id rs ≡ map some (sorted ids))
    × (IsAccepted ids r rs sc ⊎ IsRefused r rs sc ⊎ IsFailed r rs sc)

-- The cycle that a round opens over some ids.
abbrev fresh : List String → RequiresActionCycle
fresh ids = record { requested_ids = ids; executed_ids = [] }
