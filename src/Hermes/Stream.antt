-- ===== src/Hermes/Stream.antt =====
-- hermes_agent_backend.py: `_stream_once`, and the attempts of `stream`. The wait before an attempt is
-- random, and is known by its bound.
pub mod Pieces
pub mod Retries
use copass.Prelude.{
  ℕ, zero, suc, ◌*◌, ◌^◌, String, Bool, true, false, ◌&&◌, Option, none, some, List, [], ◌∷◌, ◌++◌,
  leb, ltb, eqb, if◌then◌else◌,
}
use copass.Json.{Value}
use copass.Agents.Events.{AgentEvent}
use copass.Text.{Text, codes, strip, same_text}
use copass.Hermes.{
  HermesError, connect_error, read_timeout, remote_protocol_error, http_status_error, other_error,
  Lines, closed, breaks, line, Response, unreachable, responds, Attempt, new_attempt, emit_finish,
}
use copass.Hermes.Chunk.{on_chunk}

-- What is left of a text behind a prefix.
unfoldable pub drop_prefix : Text → Text → Option Text
drop_prefix [] s = some s
drop_prefix (p ∷ ps) [] = none
drop_prefix (p ∷ ps) (c ∷ s) = let rest = drop_prefix ps s in if eqb p c then rest else none

-- What a line is: nothing to read, the end, or a chunk.
pub data Read : Type 0 where
  skipped done : Read
  chunk : Value → Read

unfoldable pub read_payload : (Text → Option Value) → Text → Read
read_payload loads payload =
    if same_text payload (codes "[DONE]")
    then done
    else elim (loads payload) [ none ↦ skipped | some v ↦ chunk v ]

unfoldable pub read_line : (Text → Option Value) → Text → Read
unfolding drop_prefix read_payload
read_line loads raw = elim (drop_prefix (codes "data:") (strip raw)) [
  | none ↦ skipped
  | some rest ↦ read_payload loads (strip rest)
]

unfoldable pub close : Attempt → Attempt
unfolding emit_finish
close a = if a.finished then a else emit_finish a "end_turn"

-- How an attempt ends: without an error, or with one.
abbrev pub Ending : Type 0
Ending = Attempt × Option HermesError

-- The end of the loop at a line, or the loop on the later lines.
unfoldable pub on_read : (Value → String) → (Attempt → Ending) → Attempt → Read → Ending
unfolding on_chunk
on_read print rest a skipped = rest a
on_read print rest a done = (record a { finished = true }, none)
on_read print rest a (chunk v) = rest (on_chunk print a v)

unfoldable pub read_lines : (Text → Option Value) → (Value → String) → Lines → Attempt → Ending
unfolding read_line on_read close
read_lines loads print closed a = (close a, none)
read_lines loads print (breaks e) a = (a, some e)
read_lines loads print (line raw rest) a =
    on_read print (read_lines loads print rest) a (read_line loads raw)

-- `_stream_once`; a status other than 2xx raises before any line is read.
unfoldable pub stream_once : (Text → Option Value) → (Value → String) → Response → Ending
unfolding read_lines
stream_once loads print (unreachable e) = (new_attempt, some e)
stream_once loads print (responds status lines) =
    let read = read_lines loads print lines new_attempt in
    if leb 200 status && ltb status 300
    then read
    else (new_attempt, some (http_status_error status))

unfoldable pub is_retryable : HermesError → Bool
is_retryable connect_error = true
is_retryable read_timeout = true
is_retryable remote_protocol_error = true
is_retryable (http_status_error status) = leb 500 status
is_retryable (other_error e) = false

abbrev pub max_retries : ℕ
max_retries = 2

abbrev pub base_delay_ms : ℕ
base_delay_ms = 250

abbrev pub max_delay_ms : ℕ
max_delay_ms = 2000

abbrev pub min : ℕ → ℕ → ℕ
min a b = if leb a b then a else b

-- The bound of the wait behind an attempt.
unfoldable pub delay_ms : ℕ → ℕ
delay_ms attempt = min (base_delay_ms * 2 ^ attempt) max_delay_ms

-- What `stream` has yielded, how it ended, the bounds of its waits, and its requests.
pub record Streamed : Type 0 where
  pub out : List AgentEvent
  pub error : Option HermesError
  pub delays : List ℕ
  pub requests : ℕ

abbrev pub stop : Ending → Streamed
stop (a, error) = record { out = a.out; error = error; delays = []; requests = 1 }

unfoldable pub after_attempt : ℕ → Ending → Streamed → Streamed
unfolding is_retryable delay_ms
after_attempt attempt (a, none) rest = stop (a, none)
after_attempt attempt (a, some e) rest =
    if is_retryable e
    then record {
      out = a.out ++ rest.out;
      error = rest.error;
      delays = delay_ms attempt ∷ rest.delays;
      requests = suc rest.requests;
    }
    else stop (a, some e)

-- The loop, with some retries left; `once` is what the request of each attempt comes to.
unfoldable pub attempts : (ℕ → Ending) → ℕ → ℕ → Streamed
unfolding after_attempt
attempts once zero attempt = stop (once attempt)
attempts once (suc left) attempt =
    let rest : Streamed = attempts once left (suc attempt) in
    after_attempt attempt (once attempt) rest

-- `stream` from its request on; `responses` is what the server gives in each attempt.
unfoldable pub stream : (Text → Option Value) → (Value → String) → (ℕ → Response) → Streamed
unfolding attempts stream_once
stream loads print responses = attempts (λ n. stream_once loads print (responses n)) max_retries 0
