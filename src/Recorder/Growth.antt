-- ===== src/Recorder/Growth.antt =====
-- turn_recorder.py: how the log grows under any calls.
use copass.Prelude.{Bool, true, false, if◌then◌else◌, ◌≡◌, List, [], ◌∷◌, ◌++◌}
use copass.Text.{codes}
use copass.Agents.Events.{AgentEvent, text_delta, tool_call, tool_result, finish}
use copass.Recorder.{
  ChatMessage, ContextWindow, Settings, CopassTurnRecorder, new_recorder, system_turn, record_user,
  flush_assistant, record_event, Call, user_turn, event, flushed_answer, flushed, perform,
  perform_all,
}
use copass.Recorder.Record.{
  keys_of, recorded, AreNew, IsFaithful, new_recorder-IsFaithful, record_turn-IsFaithful,
  flush_assistant-IsFaithful, record_assistant_delta-IsFaithful, flush-IsFaithful,
}

module _ (s : Settings) where
  -- Under a flag, with one recorder or the other.
  either_way :
      (start : List ChatMessage) (b : Bool) (r t : CopassTurnRecorder)
      → IsFaithful s start r
      → IsFaithful s start t
      → IsFaithful s start (if b then r else t)
  either_way start true r t h k = h
  either_way start false r t h k = k

  record_event-IsFaithful :
      (start : List ChatMessage) (r : CopassTurnRecorder) (e : AgentEvent)
      → IsFaithful s start r
      → IsFaithful s start (record_event s r e)
  unfolding record_event
  record_event-IsFaithful start r (text_delta text) h =
      record_assistant_delta-IsFaithful s start r (codes text) h
  record_event-IsFaithful start r (finish reason usage session) h =
      flush_assistant-IsFaithful s start r h
  record_event-IsFaithful start r (tool_call i n a) h =
      either_way start s.include_tool_events _ r
        (record_turn-IsFaithful s start r (system_turn (s.print_call n a)) h) h
  record_event-IsFaithful start r (tool_result i n v e) h =
      either_way start s.include_tool_events _ r
        (record_turn-IsFaithful s start r (system_turn (s.print_result n v)) h) h

  perform-IsFaithful :
      (start : List ChatMessage) (r : CopassTurnRecorder) (c : Call)
      → IsFaithful s start r
      → IsFaithful s start (perform s r c)
  unfolding perform record_user
  perform-IsFaithful start r (user_turn content) h =
      record_turn-IsFaithful s start (flush_assistant s r) _
        (flush_assistant-IsFaithful s start r h)
  perform-IsFaithful start r (event e) h = record_event-IsFaithful start r e h
  perform-IsFaithful start r flushed_answer h = flush_assistant-IsFaithful s start r h
  perform-IsFaithful start r flushed h = flush-IsFaithful s start r h

  pub perform_all-IsFaithful :
      (start : List ChatMessage) (r : CopassTurnRecorder) (cs : List Call)
      → IsFaithful s start r
      → IsFaithful s start (perform_all s r cs)
  unfolding perform_all
  perform_all-IsFaithful start r [] h = h
  perform_all-IsFaithful start r (c ∷ cs) h =
      perform_all-IsFaithful start (perform s r c) cs (perform-IsFaithful start r c h)

-- Whatever is recorded on a window, in whatever order, and whatever the API answers: the log, with
-- the turns whose push has not started, grows only at its end, and each turn that is added is not
-- blank and has a key that no turn before it has, of the old ones or of the added ones.
pub perform_all-new_recorder :
    (s : Settings) (w : ContextWindow) (cs : List Call)
    → (new : List ChatMessage) × (recorded s (perform_all s (new_recorder s w) cs) ≡ w.turns ++ new)
      × AreNew s (keys_of s w.turns) new
perform_all-new_recorder s w cs =
    let h : IsFaithful s w.turns (perform_all s (new_recorder s w) cs) =
      perform_all-IsFaithful s w.turns (new_recorder s w) cs (new_recorder-IsFaithful s w) in
    (h.new, h.grown, h.novel)
