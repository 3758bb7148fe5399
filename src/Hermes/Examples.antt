-- ===== src/Hermes/Examples.antt =====
-- Concrete responses of a Hermes process, and the theorems at them.
use copass.Prelude.{
  ℕ, zero, suc, ◌≤◌, String, ◌≡◌, refl, Option, none, some, [], ◌∷◌, ◌++◌, All, if◌then◌else◌,
}
use copass.Json.{Value, str, arr, obj, no_items, item, end, field, field_at}
use copass.Agents.Events.{text_delta, finish}
use copass.Agents.Build.{BaseAgent, static_wins}
use copass.Managed.Messages.{text}
use copass.Text.{Text, codes, same_text, rstrip, lstrip}
use copass.Hermes.{
  remote_protocol_error, Lines, closed, breaks, line, Response, responds, new_attempt,
}
use copass.Hermes.Request.{build_chat_messages, strip_model_prefix}
use copass.Hermes.Stream.{Ending, read_lines, stream_once, max_retries, max_delay_ms, stream}
use copass.Hermes.Stream.Pieces.{says, closing, seen, any_stop, pieces, error_of}
use copass.Hermes.Stream.Pieces.Adds.{read_lines-pieces}
use copass.Hermes.Stream.Retries.{Spec, stream-Spec}

abbrev print : Value → String
print v = "{}"

-- A chunk with a text, and nothing else.
abbrev says_hi : Value
says_hi = obj (
    field "choices"
      (arr (item (obj (field "delta" (obj (field "content" (str "hi") end)) end)) no_items)) end)

abbrev loads : Text → Option Value
loads t = if same_text t (codes "hi") then some says_hi else none

abbrev hi : Lines → Lines
hi rest = line (codes "data: hi") rest

-- The done line with no finish reason before it: the caller gets no final event.
done_response :
    seen (read_lines loads print (hi (line (codes "data: [DONE]") closed)) new_attempt).0.out
    ≡ says "hi" ∷ []
unfolding read_lines rstrip lstrip field_at
done_response = refl

read_lines-pieces_example :
    let (ps, e) = pieces loads print (hi closed) in
    let (a, error) = read_lines loads print (hi closed) new_attempt in
    (seen a.out ≡ ps ++ closing (any_stop ps) e) × (error ≡ error_of e)
read_lines-pieces_example = read_lines-pieces loads print (hi closed)

-- The first response breaks behind its text; the second one is whole.
abbrev responses : ℕ → Response
responses zero = responds 200 (hi (breaks remote_protocol_error))
responses (suc n) = responds 200 (hi closed)

-- The text of the broken response has been yielded, and comes again.
says_twice : stream loads print responses ≡ record {
  out = text_delta "hi" ∷ text_delta "hi" ∷ finish "end_turn" [] none ∷ [];
  error = none;
  delays = 250 ∷ [];
  requests = 2;
}
unfolding stream rstrip lstrip field_at
says_twice = refl

abbrev once : ℕ → Ending
once n = stream_once loads print (responses n)

stream-Spec_example :
    Spec once max_retries 0 (stream loads print responses)
    × All (λ d. d ≤ max_delay_ms) (stream loads print responses).delays
stream-Spec_example = stream-Spec loads print responses

abbrev helper : BaseAgent
helper = record {
  identity = "helper";
  model = "hermes/m";
  system_prompt = "p";
  tools = [];
  tool_resolver = none;
  on_conflict = static_wins;
}

chats :
    build_chat_messages print helper (text "hi")
    ≡ record { role = str "system"; content = "p" }
      ∷ record { role = str "user"; content = "hi" }
      ∷ []
unfolding build_chat_messages rstrip lstrip
chats = refl

strips_model : strip_model_prefix "hermes/m" ≡ some (codes "m")
unfolding strip_model_prefix
strips_model = refl

strips_nothing : strip_model_prefix "other/m" ≡ none
unfolding strip_model_prefix
strips_nothing = refl
