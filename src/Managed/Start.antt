-- ===== src/Managed/Start.antt =====
-- managed_agent_backend_v2.py: what `_stream_impl` does before its loop and behind it. The binding
-- registry, the provider's sessions and its streams are parameters. The handle of a session id is a
-- text, as its documentation says.
pub mod Sessions
use Prim.Native.String.{◌++◌ as text_append}
use copass.Prelude.{
  ℕ, String, Bool, true, false, ◌&&◌, not, Option, none, some, List, [], ◌∷◌, ◌==◌, if◌then◌else◌,
  or_else,
}
use copass.Dict.{get}
use copass.Json.{Value, bool, str, arr, Items, no_items, item}
use copass.Agents.Events.{AgentInvocationContext}
use copass.Agents.Tools.{AgentToolRegistry, list_specs}
use copass.Agents.Build.{BaseAgent, Built, built, conflict, build_tools}
use copass.Bindings.{ProviderBinding}
use copass.Managed.Cycle.{Posted, accepted, bad_request, failed}
use copass.Managed.Messages.{Messages, normalize_messages, specs_to_tools}
use copass.Managed.Turn.{BackendRunPolicy, Batch, user_messages, Turn, Run, new_run, log_post}
use copass.Managed.Stream.{Feed, Ended, returned, raised, drive}
use copass.Managed.Setup.{
  Backend, AgentRequest, SessionRequest, gateway_of, supplied_session_id, agent_request,
  session_request,
}

-- What a call of the provider gives.
pub data Answer {ℓ} (A : Type ℓ) : Type ℓ where
  answers : A → Answer A
  fails : String → Answer A

-- `bind` is `get_or_provision` for a user and an agent, with what it would provision.
pub record Provider : Type 0 where
  pub bind : String → String → AgentRequest → Answer ProviderBinding
  pub create_session : SessionRequest → Answer String
  pub open_stream : String → Answer Feed
  pub server : List Batch → Batch → Posted

-- What a turn does to sessions and streams.
pub data Effect : Type 0 where
  session_created : SessionRequest → (session_id : String) → Effect
  stream_closed session_deleted : (session_id : String) → Effect

pub record Started : Type 0 where
  pub ended : Ended
  pub effects : List Effect

abbrev pub turn_of : Backend → Provider → AgentToolRegistry → AgentInvocationContext → String → Turn
turn_of b p tools context session_id = record {
  session_id = session_id;
  policy = b.policy;
  tools = tools;
  context = context;
  server = p.server;
}

-- The user's messages are sent once the stream is open, and then the loop runs.
unfoldable pub after_send : Turn → Feed → Batch → Posted → Ended
unfolding log_post
after_send t feed batch accepted = drive t feed (log_post new_run batch)
after_send t feed batch bad_request = raised "BadRequestError" (log_post new_run batch)
after_send t feed batch (failed e) = raised e (log_post new_run batch)

-- The `finally` block, whose own failures are swallowed.
unfoldable pub cleanup : Backend → String → Option String → List Effect
cleanup b session_id none = stream_closed session_id ∷ []
cleanup b session_id (some created) =
    stream_closed session_id
    ∷ (if not (created == "") && b.delete_session_on_finish
        then session_deleted created ∷ []
        else [])

-- From the session on; `created` is its id if this turn made it.
unfoldable pub in_session :
    Backend → Provider → Turn → List Value → Option String → Answer Feed → Started
unfolding after_send cleanup
in_session b p t events created (fails e) = record { ended = raised e new_run; effects = [] }
in_session b p t events created (answers feed) = record {
  ended = after_send t feed (user_messages events) (p.server [] (user_messages events));
  effects = cleanup b t.session_id created;
}

abbrev pub after : Effect → Started → Started
after e s = record s { effects = e ∷ s.effects }

unfoldable pub in_new_session :
    Backend
    → Provider
    → AgentToolRegistry
    → AgentInvocationContext
    → List Value
    → SessionRequest
    → Answer String
    → Started
unfolding in_session
in_new_session b p tools context events request (fails e) = record {
  ended = raised e new_run;
  effects = [];
}
in_new_session b p tools context events request (answers id) =
    after (session_created request id)
      (in_session b p (turn_of b p tools context id) events (some id) (p.open_stream id))

unfoldable pub choose_session :
    Backend
    → Provider
    → AgentToolRegistry
    → AgentInvocationContext
    → List Value
    → SessionRequest
    → Option String
    → Started
unfolding in_session in_new_session
choose_session b p tools context events request (some id) =
    in_session b p (turn_of b p tools context id) events none (p.open_stream id)
choose_session b p tools context events request none =
    in_new_session b p tools context events request (p.create_session request)

unfoldable pub with_binding :
    Backend
    → Provider
    → BaseAgent
    → AgentToolRegistry
    → AgentInvocationContext
    → List Value
    → Answer ProviderBinding
    → Started
unfolding session_request choose_session supplied_session_id
with_binding b p agent tools context events (fails e) = record {
  ended = raised e new_run;
  effects = [];
}
with_binding b p agent tools context events (answers binding) =
    choose_session b p tools context events (session_request agent context binding)
      (supplied_session_id context)

unfoldable pub with_tools :
    Backend → Provider → BaseAgent → AgentInvocationContext → List Value → Built → Started
unfolding gateway_of agent_request with_binding
with_tools b p agent context events (conflict names) = record {
  ended = raised "ToolConflictError" new_run;
  effects = [];
}
with_tools b p agent context events (built tools) = with_binding b p agent tools context events (
    p.bind context.scope.user_id agent.identity
      (agent_request b agent tools (gateway_of b context)))

unfoldable pub with_messages :
    Backend → Provider → BaseAgent → AgentInvocationContext → List Value → Started
unfolding with_tools
with_messages b p agent context [] = record {
  ended = raised "messages must contain at least one user-role message" new_run;
  effects = [];
}
with_messages b p agent context (e ∷ es) =
    with_tools b p agent context (e ∷ es) (build_tools agent context)

-- `_stream_impl`
unfoldable pub stream_impl :
    (Value → String) → Backend → Provider → BaseAgent → Messages → AgentInvocationContext → Started
unfolding with_messages
stream_impl print b p agent messages context =
    with_messages b p agent context (normalize_messages print messages)
