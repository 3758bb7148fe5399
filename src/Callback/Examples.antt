-- ===== src/Callback/Examples.antt =====
-- A conversation that is given before two model calls, and the theorem at it.
use copass.Prelude.{false, ◌≡◌, refl, List, [], ◌∷◌, ◌++◌, All}
use copass.Json.{Value, str, obj, arr, no_items, item, end, field, field_at}
use copass.Text.{Text, codes, lstrip, rstrip}
use copass.Recorder.{user, assistant}
use copass.Callback.{
  hash_turn, human, ai, tool, BaseMessage, Turn, CopassWindowCallback, new_callback, flatten,
  on_chat_model_start,
}
use copass.Callback.Mirror.{IsGrown, IsSeen, on_chat_model_start_lem}

abbrev print : Value → Text
print v = codes "{}"

abbrev parts : Value
parts = arr (item (str "a") (item (obj (field "text" (str "b") end)) no_items))

abbrev conversation : List BaseMessage
conversation =
    record { kind = human; content = str "hi" }
    ∷ record { kind = tool; content = str "noise" }
    ∷ record { kind = ai; content = parts }
    ∷ []

abbrev start : CopassWindowCallback
start = new_callback false []

-- The message of a tool is left out, and the parts of an answer come in lines.
conversation_turns :
    (on_chat_model_start print start (conversation ∷ [])).scheduled
    ≡ record { role = user; content = codes "hi" }
      ∷ record { role = assistant; content = codes "a" ++ (10 ∷ codes "b") }
      ∷ []
unfolding on_chat_model_start rstrip lstrip field_at hash_turn
conversation_turns = refl

on_chat_model_start_example :
    ((new : List Turn) × IsGrown start (on_chat_model_start print start (conversation ∷ [])) new
      × All
          (IsSeen print false (on_chat_model_start print start (conversation ∷ [])).seen)
          (flatten (conversation ∷ [])))
    × (on_chat_model_start print
          (on_chat_model_start print start (conversation ∷ []))
          (conversation ∷ [])
        ≡ on_chat_model_start print start (conversation ∷ []))
on_chat_model_start_example = on_chat_model_start_lem print start (conversation ∷ [])
