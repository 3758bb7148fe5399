-- ===== src/Hermes.antt =====
-- python/copass-hermes-agents/src/copass_hermes_agents/backends/hermes_agent_backend.py: a backend that
-- streams chat completions of a Hermes process. A line of a response is a list of code points (Text),
-- and `json.loads` is a parameter. A token count is an integer that is not negative.
pub mod Chunk
pub mod Stream
pub mod Request
mod Examples
use copass.Prelude.{
  ℕ, zero, suc, ◌+◌, ◌*◌, ◌-◌, String, Bool, true, false, ◌&&◌, ◌||◌, not, Option, none, some, List,
  [], ◌∷◌, ◌++◌, leb, eqb, ◌==◌, if◌then◌else◌,
}
use copass.Dict.{Dict}
use copass.Json.{Value, null, bool, num, str, arr, obj, no_items, item, end, field}
use copass.Agents.Events.{AgentEvent, finish}
use copass.Text.{Text, codes}

-- What a request can fail with: the errors that `stream` tells apart, and any other one.
pub data HermesError : Type 0 where
  connect_error read_timeout remote_protocol_error : HermesError
  http_status_error : ℕ → HermesError
  other_error : String → HermesError

-- The lines of a response, which end, or break with an error.
pub data Lines : Type 0 where
  closed : Lines
  breaks : HermesError → Lines
  line : Text → Lines → Lines

-- What a request gives: no response at all, or a status with its lines.
pub data Response : Type 0 where
  unreachable : HermesError → Response
  responds : ℕ → Lines → Response

-- The local variables of `_stream_once`, and what it has yielded.
pub record Attempt : Type 0 where
  pub usage_accumulator : Dict ℕ
  pub finished : Bool
  pub out : List AgentEvent

abbrev pub new_attempt : Attempt
new_attempt = record { usage_accumulator = []; finished = false; out = [] }

unfoldable pub emit : Attempt → AgentEvent → Attempt
emit a e = record a { out = a.out ++ e ∷ [] }

-- `yield AgentFinish(...)`
unfoldable pub emit_finish : Attempt → String → Attempt
unfolding emit
emit_finish a reason = emit a (finish reason a.usage_accumulator none)
