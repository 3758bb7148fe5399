-- ===== src/Recorder/Examples.antt =====
-- A short conversation, recorded, and the theorems at it.
use copass.Prelude.{
  String, true, false, ◌≡◌, refl, none, some, List, [], ◌∷◌, ◌++◌, eqb, if◌then◌else◌,
}
use copass.Text.{Text, codes, lstrip, rstrip, take}
use copass.Agents.Events.{text_delta, finish}
use copass.Recorder.{
  perform, dedupe_key, user, assistant, ChatMessage, ContextWindow, Settings, CopassTurnRecorder,
  new_recorder, Call, user_turn, event, flushed, perform_all,
}
use copass.Recorder.Record.{keys_of, recorded, AreNew}
use copass.Recorder.Growth.{perform_all-new_recorder}
use copass.Recorder.Answer.{answer, settled, perform_all-answer}

-- A digest that tells apart the texts used here.
abbrev first_letter : Text → String
first_letter [] = ""
first_letter (c ∷ s) = if eqb c 104 then "h" else "x"

abbrev settings : Settings
settings = record {
  include_tool_events = false;
  author = some "bot";
  include_author_prefix = false;
  participants = none;
  user_speaker = "User";
  digest = first_letter;
  print_call = λ n a. codes n;
  print_result = λ n v. codes n;
  ingest = λ push. true;
}

abbrev window : ContextWindow
window = record { turns = []; participants = none }

abbrev conversation : List Call
conversation =
    user_turn (codes "hi")
    ∷ event (text_delta " he")
    ∷ event (text_delta "llo ")
    ∷ event (finish "end_turn" [] none)
    ∷ user_turn (codes "  ")
    ∷ user_turn (codes "hi")
    ∷ flushed
    ∷ []

-- The blank turn and the repeated one are not recorded.
conversation_turns :
    (perform_all settings (new_recorder settings window) conversation).window.turns
    ≡ record { role = user; content = codes "hi"; name = some "User" }
      ∷ record { role = assistant; content = codes "hello"; name = some "bot" }
      ∷ []
unfolding perform_all perform rstrip lstrip new_recorder dedupe_key take
conversation_turns = refl

perform_all-new_recorder_example :
    (new : List ChatMessage) × (recorded settings
        (perform_all settings (new_recorder settings window) conversation)
      ≡ [] ++ new)
    × AreNew settings (keys_of settings []) new
perform_all-new_recorder_example = perform_all-new_recorder settings window conversation

abbrev fresh : CopassTurnRecorder
fresh = new_recorder settings window

perform_all-answer_example :
    perform_all settings fresh (answer (" he" ∷ "llo " ∷ []) "end_turn" [] none)
    ≡ settled settings fresh (codes " he" ++ (codes "llo " ++ []))
unfolding new_recorder
perform_all-answer_example =
    perform_all-answer settings fresh (" he" ∷ "llo " ∷ []) "end_turn" [] none
