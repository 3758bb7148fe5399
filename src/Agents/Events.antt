-- ===== src/Agents/Events.antt =====
-- events.py, scope.py and invocation_context.py: what a backend yields, and the context that a
-- turn runs in.
use copass.Prelude.{ℕ, String, Bool, true, false, Option, List}
use copass.Dict.{Dict, get}
use copass.Json.{Value, Fields}

pub data AgentEvent : Type 0 where
  text_delta : (text : String) → AgentEvent
  tool_call : (call_id name : String) (arguments : Fields) → AgentEvent
  tool_result : (call_id name : String) (result : Fields) (error : Option String) → AgentEvent
  finish : (stop_reason : String) (usage : Dict ℕ) (session_id : Option String) → AgentEvent

abbrev pub is_finish : AgentEvent → Bool
is_finish (finish r u s) = true
is_finish _ = false

pub record AgentScope : Type 0 where
  pub user_id : String
  pub sandbox_id : Option String
  pub project_id : Option String

pub record AgentInvocationContext : Type 0 where
  pub scope : AgentScope
  pub trace_id : Option String
  pub dek : Option (List ℕ)
  pub handles : Dict Value

-- The `KeyError` of `get_handle` is `none`.
pub get_handle : AgentInvocationContext → String → Option Value
get_handle c key = get c.handles key
