-- ===== src/Lib.antt =====
-- A model of the Python packages under python/ and what holds of it: an agent library whose
-- backends drive a language model's turns, execute the tools it asks for, and talk to the Copass
-- API. The packages are layered. copass-core sends HTTP requests with retries. copass-core-agents
-- has agents, tools and their registries. copass-anthropic-agents drives one turn of a managed
-- agent: the provider streams events, asks for tool results in `requires_action` rounds, and the
-- backend answers each round with one batch of replies.
--
-- Prelude, Dict, Sorted and Json are shared: Boolean tests, `dict` with text keys as a list of
-- pairs in insertion order, `sorted` on sets of texts, and JSON values (a number is kept by its
-- literal; Json/Truth has which values are true). The parts, each with its files:
--
-- Agents (python/copass-core-agents): Events (events.py, scope.py, invocation_context.py), Tools
-- (base_tool.py, tool_registry.py: `add_tool`, `extend`, `iterate` are `add`, `extend`,
-- `__iter__`), Build (base_agent.py, tool_resolver.py: `base_agent` is `__init__`, `build_tools`
-- is the method of that name), with the choice of a tool in Build/Choice and the refusal in
-- Build/Conflict. A tool is a function of its arguments and context, since `AgentTool` promises to
-- keep no state across calls; it returns a value, returns one that is not JSON, or raises.
--
-- Bindings (python/copass-anthropic-agents, backends/provider_binding_registry.py and
-- in_memory_provider_binding_registry.py): the registry that the backend asks for a provider-side
-- agent. Its tasks take steps from one await to the next, in any order; Bindings/Consistent has the
-- invariant, and Bindings/Once is about all interleavings.
--
-- Managed (python/copass-anthropic-agents, backends/): Messages (`_normalize_messages` and
-- `_specs_to_tools`), Setup (`_provision_anthropic_agent` and `_create_session`: what they ask for),
-- Start (`_stream_impl` before its loop and behind it), Call (pending_tool_call.py), Cycle
-- (requires_action_cycle.py, with proofs in Cycle/Resolve, Cycle/Replies, Cycle/Complete), Sdk
-- (the provider's events and _stream_event_types.py), Turn (backend_run_policy.py and the local
-- variables of `_stream_impl` as the record `Run`), Emit and Stream (the loop of `_stream_impl`
-- in managed_agent_backend_v2.py, one function per event kind; `drive` is the loop, over a `Feed`
-- of events that ends or raises), Result (`run`) and Deadline (`stream`, the total timeout). What a
-- run yields and what it posts are lists in the state. The provider is a function from the batches
-- posted before and the new batch to its answer: accepted, refused as malformed, or failed. An
-- exception that leaves the generator is a value of its own. The text of a custom tool's reply is
-- the JSON of a payload and is represented by the payload. The wait for pending calls only reads
-- the buffer and never suspends, so that its own timer cannot fire. `repr` of a tool's name is
-- that of a name without quotes and escapes. Time in Deadline is in whole units, and each step of
-- the generator has the time that it takes; a tie at the deadline counts as in time.
--
-- ManagedV1 (python/copass-anthropic-agents, backends/managed_agent_backend.py): the first version
-- of the backend, over the same events. Answer has what a `requires_action` leads to, with the
-- recovery from the session's log, Loop the loop over the stream, Setup the cache of agents and
-- environments, Start `stream` itself. The log is what an iteration over `events.list` gives: events,
-- and then its end or an exception. A result that is no JSON is shown as `opaque_result`.
--
-- Json/Strip and Json/Sanitize (backends/_input_schema.py): the keys that the provider refuses in a
-- schema, at every depth. The recursion is that of specs.py of copass-management too.
--
-- Management (python/copass-management, specs.py and registrar.py): the specifications of tools,
-- loaded from files that have been parsed, and the registration of the tools; an error is the end
-- of it, with what had been registered. Management/Registered has the proofs.
--
-- CopassAgent (python/copass-anthropic-agents, managed_agent.py; google_agent.py repeats its text): an
-- agent over a backend. CopassAgent has its construction, Messages what the user says in a call,
-- Context the block of context that a new conversation gets, from a call of the API that is a
-- parameter, and Stream a turn: the events of the backend, a parameter, go through the recorder of
-- Recorder. The agent and its recorder share one window, which Stream passes between the two.
-- Recorded and Conversation are about the log of that window, Projects about the projects that reads
-- and pushes go to, Projects/Made about the construction, Forwarded about what is sent and what is
-- recorded. The items of a response have the types that the API documents, and a message is a
-- dictionary.
--
-- Hermes (python/copass-hermes-agents, backends/hermes_agent_backend.py): Request has the request of a
-- turn, Chunk the reading of one chunk of the response, Stream `_stream_once` and the attempts of
-- `stream`: the loop has the two retries as its fuel. A response is a status and lines, which end or
-- break; `json.loads` and the printing of dictionaries and lists are parameters. The wait before a
-- retry is random, and its bound is what is kept.
--
-- Http (python/copass-core, http/): Retry (retry.py; a message is the list of its code points, and
-- is ASCII; the loop has as many rounds as `max_attempts`), Client (http_client.py, auth/types.py,
-- errors.py; `httpx` is a function from the attempt and what is sent to a response or an
-- exception; a status has three digits).
--
-- Recorder (python/copass-context-agents, turn_recorder.py; context_window.py and data_sources.py of
-- copass-core): the turns of a conversation, recorded once each. A text is a list of code points
-- (Text). A push is a task; the tasks start in the order in which they were created. The shortened
-- SHA-256 digest is a parameter, and so is what the API answers. Recorder/Growth is about all
-- sequences of calls, Recorder/Answer about answers cut into deltas.
--
-- Callback (python/copass-langchain, callback.py): the same for a LangChain conversation, which is
-- given in full before every model call.
--
-- Sse (python/copass-agent-router, sse.py): the frames of server-sent events off a stream of text
-- chunks. Sse/Chunks is about the cutting of the stream, Sse/Print about frames printed and parsed.
--
-- Connect (python/copass-agent-router, connect_flow.py): the flow that connects an integration. A
-- round of its polling is what the API, the redirect listener and the clock give in it; a round
-- sleeps for two seconds, so that its fuel, one round more than the timeout has of these, is enough.
-- Connect/Polling is about that fuel and about the three ends.
--
-- Sources (python/copass-core, data_sources.py): `ensure_data_source`. The API is a record of two
-- operations over a state of its own, and what Sources/Ensure needs of it is a record of laws.
--
-- Resources (python/copass-core, resources/*.py): the methods of the API's resources, one function for
-- each, from its arguments to the call that it makes of the HTTP client; `perform` makes the request of
-- Http.Client of a call. A keyword argument that may be `None` is an `Option`, a number is its
-- literal, and of a history that a turn may not be read from, the call is none. Scoped is about the
-- sandbox in the paths of all methods, Routes about the endpoints of agents and triggers that the paths
-- lead to, with Paths for the segments of a path, Same about two ways to ingest a text, and
-- Compute/Gateway with Compute/Filled about the URLs of a compute session.
--
-- Every other loop is over a list of the input or over `max_attempts`, but for the loop over the
-- blocks of a buffer, whose fuel is the length of the buffer: each pass takes at least two letters
-- off it.
--
-- Not modelled: log lines; the id of a cycle, which only they read; the fingerprint of an agent,
-- which only a log line reads; the backend for Google and hermes_agent.py; the router's request and the
-- calls that open its connect flow; what the methods of the resources read their responses into, and
-- `fetch` of a compute session; the tools of copass-management and its calls of the JSON-schema
-- validators; constant texts.
mod Prelude
pub mod Dict
pub mod Json
pub mod Sorted
pub mod Agents
pub mod Managed
pub mod Http
pub mod Bindings
pub mod Text
pub mod Recorder
pub mod Resources
pub mod Sse
pub mod Connect
pub mod Callback
pub mod ManagedV1
pub mod Hermes
pub mod CopassAgent
pub mod Management
pub mod Sources
