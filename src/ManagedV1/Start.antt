-- ===== src/ManagedV1/Start.antt =====
-- managed_agent_backend.py: `stream`, from the messages to its cleanup, over the backend's cache.
pub mod Warm
use copass.Prelude.{
  String, Bool, true, false, ◌&&◌, not, Option, none, some, List, [], ◌∷◌, ◌==◌, if◌then◌else◌,
}
use copass.Json.{Value}
use copass.Agents.Events.{AgentInvocationContext}
use copass.Agents.Tools.{AgentToolRegistry}
use copass.Agents.Build.{BaseAgent, Built, built, conflict, build_tools}
use copass.Managed.Messages.{Messages, normalize_messages}
use copass.Managed.Setup.{
  SessionRequest, session_title, or_default_title, vault_ids_of, supplied_session_id,
}
use copass.Managed.Start.{
  Answer, answers, fails, Effect, session_created, stream_closed, session_deleted,
}
use copass.Managed.Stream.{Feed}
use copass.ManagedV1.{Session, Turn, Run, new_run, Batch, user_messages, log_post}
use copass.ManagedV1.Loop.{Ended, returned, raised, drive}
use copass.ManagedV1.Setup.{
  Options, Cache, Resources, fingerprint_parts, create_kwargs, ensure_agent_id,
  ensure_environment_id, use_gateway,
}

-- The provider, and the two functions that a fingerprint is made with.
pub record Provider : Type 0 where
  pub resources : Resources
  pub open_stream : String → Answer Feed
  pub session : String → Session
  pub digest : List String → String
  pub dumps : Value → String

-- One call of `stream`.
pub record Call : Type 0 where
  pub agent : BaseAgent
  pub messages : Messages
  pub context : AgentInvocationContext

pub record Started : Type 0 where
  pub ended : Ended
  pub effects : List Effect

abbrev pub stopped : String → Started
stopped e = record { ended = raised e new_run; effects = [] }

abbrev pub turn_of : Provider → AgentToolRegistry → AgentInvocationContext → String → Turn
turn_of p tools context id = record {
  session_id = id;
  tools = tools;
  context = context;
  session = p.session id;
}

-- The user's messages are sent once the stream is open, and then the loop runs.
unfoldable pub after_send : Turn → Feed → Batch → Option String → Ended
unfolding log_post
after_send t feed batch none = drive t feed (log_post new_run batch)
after_send t feed batch (some e) = raised e (log_post new_run batch)

-- The `finally` block, whose own failures are swallowed.
unfoldable pub cleanup : Options → String → Option String → List Effect
cleanup b id none = stream_closed id ∷ []
cleanup b id (some created) =
    stream_closed id
    ∷ (if not (created == "") && b.delete_session_on_finish
        then session_deleted created ∷ []
        else [])

-- From the session on; `created` is its id if this call made it.
unfoldable pub in_session : Options → Turn → List Value → Option String → Answer Feed → Started
unfolding after_send cleanup
in_session b t events created (fails e) = stopped e
in_session b t events created (answers feed) = record {
  ended = after_send t feed (user_messages events) (t.session.send [] (user_messages events));
  effects = cleanup b t.session_id created;
}

unfoldable pub in_new_session :
    Options
    → Provider
    → AgentToolRegistry
    → Call
    → List Value
    → SessionRequest
    → Answer String
    → Started
unfolding in_session
in_new_session b p tools call events request (fails e) = stopped e
in_new_session b p tools call events request (answers id) =
    let s = in_session b (turn_of p tools call.context id) events (some id) (p.open_stream id) in
    record s { effects = session_created request id ∷ s.effects }

-- `_create_session` asks for this.
unfoldable pub session_of : Call → String → String → SessionRequest
unfolding session_title vault_ids_of
session_of call agent_id environment_id = record {
  agent = agent_id;
  environment_id = environment_id;
  title = or_default_title (session_title call.agent call.context);
  vault_ids = vault_ids_of call.context;
}

unfoldable pub choose_session :
    Options
    → Provider
    → AgentToolRegistry
    → Call
    → List Value
    → SessionRequest
    → Option String
    → Started
unfolding in_session in_new_session
choose_session b p tools call events request (some id) =
    in_session b (turn_of p tools call.context id) events none (p.open_stream id)
choose_session b p tools call events request none =
    in_new_session b p tools call events request (p.resources.create_session request)

unfoldable pub with_environment :
    Options
    → Provider
    → AgentToolRegistry
    → Call
    → List Value
    → String
    → Answer String × Cache
    → Started × Cache
unfolding choose_session session_of supplied_session_id
with_environment b p tools call events agent_id (fails e, c) = (stopped e, c)
with_environment b p tools call events agent_id (answers environment_id, c) = (
  choose_session b p tools call events (session_of call agent_id environment_id)
      (supplied_session_id call.context),
  c,
)

unfoldable pub with_agent :
    Options
    → Provider
    → AgentToolRegistry
    → Call
    → List Value
    → Answer String × Cache
    → Started × Cache
unfolding with_environment
with_agent b p tools call events (fails e, c) = (stopped e, c)
with_agent b p tools call events (answers agent_id, c) =
    with_environment b p tools call events agent_id
      (ensure_environment_id p.resources.create_environment b c)

-- The key of the agent in the cache.
unfoldable pub fingerprint : Options → Provider → Call → AgentToolRegistry → String
unfolding fingerprint_parts use_gateway
fingerprint b p call tools =
    p.digest (fingerprint_parts p.dumps b call.agent tools (use_gateway b call.context))

unfoldable pub with_tools : Options → Provider → Call → List Value → Cache → Built → Started × Cache
unfolding with_agent fingerprint create_kwargs
with_tools b p call events c (conflict names) = (stopped "ToolConflictError", c)
with_tools b p call events c (built tools) = with_agent b p tools call events (
    ensure_agent_id p.resources.create_agent c (fingerprint b p call tools)
      (create_kwargs b call.agent tools (use_gateway b call.context)))

unfoldable pub with_messages : Options → Provider → Call → Cache → List Value → Started × Cache
unfolding with_tools
with_messages b p call c [] = (stopped "messages must contain at least one user-role message", c)
with_messages b p call c (e ∷ es) =
    with_tools b p call (e ∷ es) c (build_tools call.agent call.context)

-- `stream`
unfoldable pub stream : (Value → String) → Options → Provider → Call → Cache → Started × Cache
unfolding with_messages
stream print b p call c = with_messages b p call c (normalize_messages print call.messages)

-- Several calls, one behind the other.
unfoldable pub streams : (Value → String) → Options → Provider → List Call → Cache → Cache
unfolding stream
streams print b p [] c = c
streams print b p (call ∷ calls) c = streams print b p calls (stream print b p call c).1
