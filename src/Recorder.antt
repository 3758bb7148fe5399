-- ===== src/Recorder.antt =====
-- python/copass-context-agents/src/copass_context_agents/turn_recorder.py, with the window that it
-- writes to: python/copass-core/src/copass_core/context_window.py and data_sources.py.
-- A push runs as a task of its own, started in the order of creation. `digest` is the shortened
-- SHA-256 of a text, `print_call` and `print_result` print a tool event, and `ingest` is the API: it
-- takes a push or raises.

pub mod Record
pub mod Growth
pub mod Answer
mod Examples
use Prim.Native.String.{◌++◌ as text_append}
use copass.Prelude.{
  String, Bool, Option, none, some, List, [], ◌∷◌, ◌++◌, ◌==◌, if◌then◌else◌, contains, add,
  or_else,
}
use copass.Json.{Fields}
use copass.Text.{Text, codes, strip, is_empty, concat, take}
use copass.Agents.Events.{AgentEvent, text_delta, tool_call, tool_result, finish}

pub data ChatRole : Type 0 where
  user assistant system : ChatRole

abbrev pub role_name : ChatRole → String
role_name user = "user"
role_name assistant = "assistant"
role_name system = "system"

-- `_capitalize_role` on the three roles.
abbrev pub capitalize_role : ChatRole → String
capitalize_role user = "User"
capitalize_role assistant = "Assistant"
capitalize_role system = "System"

pub record ChatMessage : Type 0 where
  pub role : ChatRole
  pub content : Text
  pub name : Option String

pub record ContextWindow : Type 0 where
  pub turns : List ChatMessage
  pub participants : Option (List String)

-- What `push` sends for a turn.
pub record Push : Type 0 where
  pub text : Text
  pub speaker : String
  pub participants : Option (List String)

abbrev pub speaker_of : ChatMessage → String
speaker_of turn = elim turn.name [
  | none ↦ capitalize_role turn.role
  | some n ↦ if n == "" then capitalize_role turn.role else n
]

abbrev pub or_window : Option (List String) → Option (List String) → Option (List String)
or_window none own = own
or_window (some roster) own = some roster

unfoldable pub push_of : ContextWindow → ChatMessage → Option (List String) → Push
push_of w turn participants = record {
  text = turn.content;
  speaker = speaker_of turn;
  participants = or_window participants w.participants;
}

-- `add_turn`: the turn joins the log also where its push then raises.
unfoldable pub add_turn : ContextWindow → ChatMessage → ContextWindow
add_turn w turn = record w { turns = w.turns ++ turn ∷ [] }

-- What a recorder is made with, and what it calls.
pub record Settings : Type 0 where
  pub include_tool_events : Bool
  pub author : Option String
  pub include_author_prefix : Bool
  pub participants : Option (List String)
  pub user_speaker : String
  pub digest : Text → String
  pub print_call : String → Fields → Text
  pub print_result : String → Fields → Text
  pub ingest : Push → Bool

pub record CopassTurnRecorder : Type 0 where
  pub window : ContextWindow
  pub seen : List String
  pub pending_assistant_text : List Text
  pub pending_pushes : List ChatMessage
  pub ingested : List Push

abbrev pub nonempty : Option String → Option String
nonempty none = none
nonempty (some s) = if s == "" then none else some s

-- The roster of `__init__`; an empty one is an opt-out.
unfoldable pub roster : Settings → Option (List String)
roster s = elim s.participants [
  | none ↦ some (s.user_speaker ∷ or_else (nonempty s.author) "Assistant" ∷ [])
  | some [] ↦ none
  | some (p ∷ ps) ↦ some (p ∷ ps)
]

-- `_dedupe_key`
unfoldable pub dedupe_key : Settings → ChatMessage → String
dedupe_key s turn =
    text_append (text_append (role_name turn.role) ":") (s.digest (take 500 turn.content))

unfoldable pub seen_of : Settings → List String → List ChatMessage → List String
seen_of s seen [] = seen
seen_of s seen (t ∷ ts) = seen_of s (add seen (dedupe_key s t)) ts

unfoldable pub new_recorder : Settings → ContextWindow → CopassTurnRecorder
unfolding seen_of
new_recorder s w = record {
  window = w;
  seen = seen_of s [] w.turns;
  pending_assistant_text = [];
  pending_pushes = [];
  ingested = [];
}

-- `_record`
unfoldable pub record_turn : Settings → CopassTurnRecorder → ChatMessage → CopassTurnRecorder
record_turn s r turn =
    if is_empty (strip turn.content)
    then r
    else if contains r.seen (dedupe_key s turn)
    then r
    else record r {
      seen = add r.seen (dedupe_key s turn);
      pending_pushes = r.pending_pushes ++ turn ∷ [];
    }

-- The text of an assistant turn, with the author in front if that is asked for.
unfoldable pub with_author : Settings → Text → Text
with_author s text = elim (nonempty s.author) [
  | none ↦ text
  | some a ↦
      if s.include_author_prefix
      then codes "[author=" ++ (codes a ++ (codes "]" ++ (10 ∷ text)))
      else text
]

abbrev pub assistant_turn : Settings → Text → ChatMessage
assistant_turn s text = record { role = assistant; content = with_author s text; name = s.author }

-- `_flush_assistant`; with nothing buffered, the text is empty as well.
unfoldable pub flush_assistant : Settings → CopassTurnRecorder → CopassTurnRecorder
unfolding record_turn with_author
flush_assistant s r =
    let text : Text = strip (concat r.pending_assistant_text) in
    let cleared : CopassTurnRecorder = record r { pending_assistant_text = [] } in
    if is_empty text then cleared else record_turn s cleared (assistant_turn s text)

unfoldable pub record_user : Settings → CopassTurnRecorder → Text → CopassTurnRecorder
unfolding flush_assistant record_turn
record_user s r content =
    record_turn s (flush_assistant s r)
      (record { role = user; content = content; name = some s.user_speaker })

unfoldable pub record_assistant_delta : CopassTurnRecorder → Text → CopassTurnRecorder
record_assistant_delta r text =
    if is_empty text
    then r
    else record r { pending_assistant_text = r.pending_assistant_text ++ text ∷ [] }

abbrev pub system_turn : Text → ChatMessage
system_turn text = record { role = system; content = text; name = none }

unfoldable pub record_event : Settings → CopassTurnRecorder → AgentEvent → CopassTurnRecorder
unfolding record_assistant_delta flush_assistant record_turn
record_event s r (text_delta text) = record_assistant_delta r (codes text)
record_event s r (finish reason usage session) = flush_assistant s r
record_event s r (tool_call i n a) =
    if s.include_tool_events then record_turn s r (system_turn (s.print_call n a)) else r
record_event s r (tool_result i n v e) =
    if s.include_tool_events then record_turn s r (system_turn (s.print_result n v)) else r

-- One task of `_push`: the turn joins the window, and is pushed. A push that raises is dropped.
unfoldable pub run_push : Settings → CopassTurnRecorder → ChatMessage → CopassTurnRecorder
unfolding push_of add_turn roster
run_push s r turn =
    let push : Push = push_of r.window turn (roster s) in
    record r {
      window = add_turn r.window turn;
      ingested = if s.ingest push then r.ingested ++ push ∷ [] else r.ingested;
    }

unfoldable pub run_pushes : Settings → CopassTurnRecorder → List ChatMessage → CopassTurnRecorder
unfolding run_push
run_pushes s r [] = r
run_pushes s r (t ∷ ts) = run_pushes s (run_push s r t) ts

-- `flush`: every task that is there runs to its end.
unfoldable pub flush : Settings → CopassTurnRecorder → CopassTurnRecorder
unfolding run_pushes
flush s r = run_pushes s (record r { pending_pushes = [] }) r.pending_pushes

-- What a driver calls.
pub data Call : Type 0 where
  user_turn : Text → Call
  event : AgentEvent → Call
  flushed_answer flushed : Call

unfoldable pub perform : Settings → CopassTurnRecorder → Call → CopassTurnRecorder
unfolding record_user record_event flush_assistant flush
perform s r (user_turn content) = record_user s r content
perform s r (event e) = record_event s r e
perform s r flushed_answer = flush_assistant s r
perform s r flushed = flush s r

unfoldable pub perform_all : Settings → CopassTurnRecorder → List Call → CopassTurnRecorder
perform_all s r [] = r
perform_all s r (c ∷ cs) = perform_all s (perform s r c) cs
