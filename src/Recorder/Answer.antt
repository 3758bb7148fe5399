-- ===== src/Recorder/Answer.antt =====
-- turn_recorder.py: one turn for an answer, however it was cut into deltas.
use mathlib.Core.List.{append_assoc, append-nil}
use copass.Prelude.{
  ℕ, String, ◌≡◌, refl, ap, sym, ◌∙◌, List, [], ◌∷◌, ◌++◌, map, if◌then◌else◌, Option,
}
use copass.Dict.{Dict}
use copass.Text.{Text, codes, strip, is_empty, concat}
use copass.Agents.Events.{text_delta, finish}
use copass.Recorder.{
  Settings, CopassTurnRecorder, record_turn, assistant_turn, flush_assistant,
  record_assistant_delta, record_event, Call, event, perform, perform_all,
}

-- The calls of a driver for an answer in some deltas and its end.
unfoldable pub answer : List String → String → Dict ℕ → Option String → List Call
answer [] reason usage session = event (finish reason usage session) ∷ []
answer (d ∷ ds) reason usage session = event (text_delta d) ∷ answer ds reason usage session

abbrev cleared : CopassTurnRecorder → CopassTurnRecorder
cleared r = record r { pending_assistant_text = [] }

-- What is recorded for the text of an answer.
abbrev pub settled : Settings → CopassTurnRecorder → Text → CopassTurnRecorder
settled s r text =
    if is_empty (strip text) then r else record_turn s r (assistant_turn s (strip text))

concat-snoc : (ts : List Text) (x : Text) → concat (ts ++ x ∷ []) ≡ concat ts ++ x
concat-snoc [] x = append-nil x
concat-snoc (t ∷ ts) x = ap (λ l. t ++ l) (concat-snoc ts x) ∙ sym (append_assoc t (concat ts) x)

delta_lem :
    (r : CopassTurnRecorder) (x : Text)
    → (cleared (record_assistant_delta r x) ≡ cleared r)
      × (concat (record_assistant_delta r x).pending_assistant_text
          ≡ concat r.pending_assistant_text ++ x)
unfolding record_assistant_delta
delta_lem r [] = (refl, sym (append-nil (concat r.pending_assistant_text)))
delta_lem r (c ∷ x) = (refl, concat-snoc r.pending_assistant_text (c ∷ x))

flush_assistant-settled :
    (s : Settings) (r : CopassTurnRecorder)
    → flush_assistant s r ≡ settled s (cleared r) (concat r.pending_assistant_text)
unfolding flush_assistant
flush_assistant-settled s r = refl

-- The deltas of an answer and its final event record one turn, whose text is that of all deltas
-- together, after what was buffered before, without the spaces around it; a blank answer records
-- none. So it does not matter how the answer was cut.
pub perform_all-answer :
    (s : Settings) (r : CopassTurnRecorder) (deltas : List String) (reason : String)
    (usage : Dict ℕ) (session : Option String)
    → perform_all s r (answer deltas reason usage session)
      ≡ settled s
          (record r { pending_assistant_text = [] })
          (concat r.pending_assistant_text ++ concat (map codes deltas))
unfolding perform_all perform record_event answer
perform_all-answer s r [] reason usage session =
    flush_assistant-settled s r
    ∙ ap (settled s (cleared r)) (sym (append-nil (concat r.pending_assistant_text)))
perform_all-answer s r (d ∷ ds) reason usage session =
    let (same, text) = delta_lem r (codes d) in
    perform_all-answer s (record_assistant_delta r (codes d)) ds reason usage session
    ∙ cc (
      same,
      text,
      append_assoc (concat r.pending_assistant_text) (codes d) (concat (map codes ds)),
    )
