-- ===== src/Managed/Turn.antt =====
-- The state of one turn of managed_agent_backend_v2.py: the local variables of `_stream_impl`,
-- what it has yielded, and what it has posted to the session.
use copass.Prelude.{ℕ, String, some, List, [], ◌∷◌, ◌++◌}
use copass.Dict.{Dict}
use copass.Json.{Value}
use copass.Agents.Events.{AgentEvent, finish, AgentInvocationContext}
use copass.Agents.Tools.{AgentToolRegistry}
use copass.Managed.Call.{PendingToolCall, Reply}
use copass.Managed.Cycle.{Posted}

-- backend_run_policy.py. Durations are in whole units of some clock.
pub record BackendRunPolicy : Type 0 where
  pub max_cycles : ℕ
  pub cycle_timeout_s : ℕ
  pub total_timeout_s : ℕ

abbrev pub default_policy : BackendRunPolicy
default_policy = record { max_cycles = 20; cycle_timeout_s = 60; total_timeout_s = 300 }

-- One call of `events.send`.
pub data Batch : Type 0 where
  user_messages : List Value → Batch
  replies : List Reply → Batch
  interrupt : Batch

-- What stays the same during a turn. The provider is the function `server`: what it answers to a
-- batch, given the batches before it.
pub record Turn : Type 0 where
  pub session_id : String
  pub policy : BackendRunPolicy
  pub tools : AgentToolRegistry
  pub context : AgentInvocationContext
  pub server : List Batch → Batch → Posted

pub record Run : Type 0 where
  pub events_by_id : Dict PendingToolCall
  pub yielded_call_ids : List String
  pub usage_accumulator : Dict ℕ
  pub seen_unknown_event_types : List String
  pub cycle_count : ℕ
  pub out : List AgentEvent
  pub posts : List Batch

abbrev pub new_run : Run
new_run = record {
  events_by_id = [];
  yielded_call_ids = [];
  usage_accumulator = [];
  seen_unknown_event_types = [];
  cycle_count = 0;
  out = [];
  posts = [];
}

-- How one pass of the loop's body ends: the next event, a `break` after the final event, or an
-- exception that leaves the generator.
pub data Control : Type 0 where
  going finished : Control
  crashed : String → Control

unfoldable pub emit : Run → AgentEvent → Run
emit r e = record r { out = r.out ++ e ∷ [] }

unfoldable pub log_post : Run → Batch → Run
log_post r b = record r { posts = r.posts ++ b ∷ [] }

-- `_send_interrupt_soft`: whatever the server answers is swallowed.
unfoldable pub send_interrupt_soft : Run → Run
unfolding log_post
send_interrupt_soft r = log_post r interrupt

-- `yield AgentFinish(...)`, then `break`.
unfoldable pub finish_with : Turn → String → Run → Run × Control
unfolding emit
finish_with t reason r = (emit r (finish reason r.usage_accumulator (some t.session_id)), finished)
