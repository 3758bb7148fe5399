-- ===== src/CopassAgent/Stream.antt =====
-- managed_agent.py, and `record_stream` of turn_recorder.py: a turn of an agent. The backend is a
-- parameter: the events that it gives for the messages, in order, and whether it raises after them.
-- The reader of the stream takes all of it.
use copass.Prelude.{Bool, false, Option, none, some, List, [], ◌∷◌, ◌++◌, map, if◌then◌else◌}
use copass.Agents.Events.{AgentEvent, AgentInvocationContext}
use copass.Managed.Result.{AgentRunResult, run as drained}
use copass.Recorder.{
  Settings, CopassTurnRecorder, new_recorder, Call, user_turn, event, flushed, perform_all,
}
use copass.CopassAgent.{Flavor, AgentWindow, Agent}
use copass.CopassAgent.Messages.{Messages}
use copass.CopassAgent.Context.{World, Prepared, prepare_messages}
use copass.Text.{Text}

-- An agent with its recorder.
pub record Session : Type 0 where
  pub agent : Agent
  pub recorder : Option CopassTurnRecorder

abbrev pub Backend : Type 0
Backend = Agent → Prepared → AgentInvocationContext → List AgentEvent × Bool

-- The recorder of an agent has the agent's author and is otherwise as the defaults say.
abbrev pub settings_of : Settings → Agent → Settings
settings_of s a = record s {
  include_tool_events = false;
  author = a.author;
  include_author_prefix = false;
  participants = none;
  user_speaker = "User";
}

abbrev pub recorder_for : Settings → Agent → Option AgentWindow → Option CopassTurnRecorder
recorder_for s a none = none
recorder_for s a (some w) = some (new_recorder (settings_of s a) w.window)

-- The end of `__init__`.
unfoldable pub new_session : Settings → Agent → Session
new_session s a = record {
  agent = a;
  recorder = if a.auto_record then recorder_for s a a.window else none;
}

-- The agent and its recorder write to one window.
abbrev pub share : Option AgentWindow → CopassTurnRecorder → Option AgentWindow
share none r = none
share (some w) r = some (record w { window = r.window })

abbrev pub shared : Agent → CopassTurnRecorder → Agent
shared a r = record a { window = share a.window r }

-- What `record_stream` calls for the events of a stream: the flush is in its `finally`.
unfoldable pub stream_calls : List AgentEvent → List Call
stream_calls events = map event events ++ flushed ∷ []

-- What a turn has the recorder do.
unfoldable pub turn_calls : List Text → List AgentEvent → List Call
unfolding stream_calls
turn_calls contents events = map user_turn contents ++ stream_calls events

-- What the caller of `stream` gets, and the session afterwards.
pub record Streamed : Type 0 where
  pub session : Session
  pub events : List AgentEvent
  pub raised : Bool

unfoldable pub recorded_session : Settings → Session → List Text → List AgentEvent → Session
unfolding turn_calls
recorded_session s session contents events = elim session.recorder [
  | none ↦ session
  | some r ↦
      let after = perform_all (settings_of s session.agent) r (turn_calls contents events) in
      record { agent = shared session.agent after; recorder = some after }
]

-- `stream`
unfoldable pub stream :
    Flavor → World → Settings → Backend → Session → Messages → AgentInvocationContext → Streamed
unfolding recorded_session prepare_messages
stream flavor w s backend session messages context =
    let (prepared, contents) = prepare_messages flavor w session.agent messages context in
    let (events, raised) = backend session.agent prepared context in
    record {
      session = recorded_session s session contents events;
      events = events;
      raised = raised;
    }

-- `run`: what the backend raises, it raises.
unfoldable pub run :
    Flavor
    → World
    → Settings
    → Backend
    → Session
    → Messages
    → AgentInvocationContext
    → Option AgentRunResult × Session
unfolding stream
run flavor w s backend session messages context =
    let out = stream flavor w s backend session messages context in
    (if out.raised then none else some (drained out.events), out.session)

-- A turn of a conversation, with the backend as it answers then.
pub record Turn : Type 0 where
  pub messages : Messages
  pub context : AgentInvocationContext
  pub backend : Backend

-- The turns of a conversation, one after the other.
unfoldable pub converse : Flavor → World → Settings → Session → List Turn → Session
converse flavor w s session [] = session
converse flavor w s session (t ∷ ts) =
    converse flavor w s (stream flavor w s t.backend session t.messages t.context).session ts
