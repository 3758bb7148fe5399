-- ===== src/ManagedV1.antt =====
-- python/copass-anthropic-agents/src/copass_anthropic_agents/backends/managed_agent_backend.py: the
-- first version of the backend. It reads the same events as the second one (Managed/Sdk), and keeps
-- a tool-use event and its envelope in two dictionaries under the event's id.
pub mod Answer
pub mod Loop
pub mod Setup
pub mod Start
mod Examples
use copass.Prelude.{ℕ, String, Option, none, some, List, [], ◌∷◌, ◌++◌}
use copass.Dict.{Dict}
use copass.Json.{Value}
use copass.Agents.Events.{AgentEvent, finish, AgentInvocationContext}
use copass.Agents.Tools.{AgentToolRegistry}
use copass.Managed.Call.{Reply}
use copass.Managed.Sdk.{SdkEvent, Envelope}
use copass.Managed.Stream.{Feed}

-- What the generator yields. The result of a tool call that is a dictionary but no JSON has no
-- `Fields`, and is told apart.
pub data Yielded : Type 0 where
  event : AgentEvent → Yielded
  opaque_result : (call_id name : String) → Yielded

-- One call of `events.send`.
pub data Batch : Type 0 where
  user_messages : List Value → Batch
  replies : List Reply → Batch
  interrupt : Batch

-- The provider answers a batch, given those before it, by taking it (`none`) or with an exception.
-- `log` is what `events.list` iterates over after some batches, the latest event first.
pub record Session : Type 0 where
  pub send : List Batch → Batch → Option String
  pub log : List Batch → Feed

pub record Turn : Type 0 where
  pub session_id : String
  pub tools : AgentToolRegistry
  pub context : AgentInvocationContext
  pub session : Session

-- The local variables of `stream`, what it has yielded, and the batches that it has sent, those that
-- were answered with an exception included.
pub record Run : Type 0 where
  pub pending : Dict SdkEvent
  pub envelope : Dict Envelope
  pub usage_accumulator : Dict ℕ
  pub seen_unknown_event_types : List String
  pub out : List Yielded
  pub posts : List Batch

abbrev pub new_run : Run
new_run = record {
  pending = [];
  envelope = [];
  usage_accumulator = [];
  seen_unknown_event_types = [];
  out = [];
  posts = [];
}

unfoldable pub emit : Run → Yielded → Run
emit r y = record r { out = r.out ++ y ∷ [] }

unfoldable pub log_post : Run → Batch → Run
log_post r b = record r { posts = r.posts ++ b ∷ [] }

-- `yield AgentFinish(...)`
unfoldable pub emit_finish : Turn → String → Run → Run
unfolding emit
emit_finish t reason r = emit r (event (finish reason r.usage_accumulator (some t.session_id)))
