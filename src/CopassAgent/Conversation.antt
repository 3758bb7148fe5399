-- ===== src/CopassAgent/Conversation.antt =====
-- managed_agent.py: the log of the window after the turns of a conversation.
use mathlib.Core.Path.{subst}
use mathlib.Core.List.{append_assoc, append-nil}
use copass.Prelude.{Option, none, true, ◌≡◌, refl, ap, sym, some, List, [], ◌∷◌, ◌++◌}
use copass.Recorder.{ChatMessage, Settings, CopassTurnRecorder, new_recorder}
use copass.Recorder.Record.{new_recorder-IsFaithful}
use copass.CopassAgent.{Flavor, AgentWindow, Agent}
use copass.CopassAgent.Messages.{normalize_messages, user_contents}
use copass.CopassAgent.Context.{World, prepare_messages}
use copass.CopassAgent.Stream.{
  settings_of, share, shared, Session, new_session, stream, recorded_session, Turn, converse,
}
use copass.CopassAgent.Recorded.{
  user_contents-IsShown, IsRecorded, IsCurrent, IsCurrent-IsRecorded, turn_calls-IsCurrent,
}
use copass.Text.{Text}

-- What the user says in the messages of some turns.
unfoldable pub said : World → List Turn → List Text
said w [] = []
said w (t ∷ ts) = user_contents w.print (normalize_messages t.messages) ++ said w ts

module _ (flavor : Flavor) (w : World) (s : Settings) where
  share-share :
      (window : Option AgentWindow) (r t : CopassTurnRecorder)
      → share (share window r) t ≡ share window t
  share-share none r t = refl
  share-share (some v) r t = refl

  abbrev with_recorder : Agent → CopassTurnRecorder → Session
  with_recorder a r = record { agent = shared a r; recorder = some r }

  with_recorder-shared :
      (a : Agent) (r t : CopassTurnRecorder) → with_recorder (shared a r) t ≡ with_recorder a t
  with_recorder-shared a r t =
      ap (λ window. record { agent = record a { window = window }; recorder = some t })
        (share-share a.window r t)

  stream_lem :
      (a : Agent) (r : CopassTurnRecorder) (start : List ChatMessage) (before : List Text)
      (t : Turn)
      → IsCurrent (settings_of s a) start before r
      → (after : CopassTurnRecorder) × ((stream flavor w s t.backend
            (with_recorder a r)
            t.messages
            t.context).session
          ≡ with_recorder a after)
        × IsCurrent
            (settings_of s a)
            start
            (before ++ user_contents w.print (normalize_messages t.messages))
            after
  unfolding stream recorded_session prepare_messages
  stream_lem a r start before t h = (
    _,
    with_recorder-shared a r _,
    turn_calls-IsCurrent (settings_of s a) start before r _ _ h
        (user_contents-IsShown w.print (normalize_messages t.messages)),
  )

  -- The session has a recorder that writes to the window of its agent; of the agent, only the
  -- window has changed; and the log is as it is after some texts of the user.
  pub record IsSession (start : List ChatMessage) (a : Agent) (contents : List Text)
      (session : Session) : Type 0 where
    pub recorder : CopassTurnRecorder
    pub at : session ≡ record { agent = shared a recorder; recorder = some recorder }
    pub log : IsRecorded (settings_of s a) start contents recorder

  converse_lem :
      (a : Agent) (r : CopassTurnRecorder) (start : List ChatMessage) (before : List Text)
      (ts : List Turn)
      → IsCurrent (settings_of s a) start before r
      → IsSession start a (before ++ said w ts) (converse flavor w s (with_recorder a r) ts)
  unfolding converse said
  converse_lem a r start before [] h = record {
    recorder = r;
    at = refl;
    log =
        IsCurrent-IsRecorded (settings_of s a) start (before ++ []) r
          (subst (λ ts. IsCurrent (settings_of s a) start ts r) (sym (append-nil before)) h);
  }
  converse_lem a r start before (t ∷ ts) h =
      let (after, at, current) = stream_lem a r start before t h in
      let contents = user_contents w.print (normalize_messages t.messages) in
      subst
        (λ session.
          IsSession start a (before ++ (contents ++ said w ts)) (converse flavor w s session ts))
        (sym at)
        (subst (λ l. IsSession start a l (converse flavor w s (with_recorder a after) ts))
          (append_assoc before contents (said w ts))
          (converse_lem a after start (before ++ contents) ts current))

-- A conversation of some turns with a new agent that has a window and is to record, whatever the
-- backend gives or raises in any turn, and whatever the API answers: the session still has its recorder,
-- and the window of its agent is the one that the recorder wrote to; the log of the window is the
-- old turns, and behind them turns that are not blank, each with a key that no turn before it has;
-- every text that the user said in a message of any turn has its key in the log; and no push is
-- waiting.
pub converse-IsSession :
    (flavor : Flavor) (w : World) (s : Settings) (a : Agent) (window : AgentWindow) (ts : List Turn)
    → a.window ≡ some window
    → a.auto_record ≡ true
    → IsSession flavor w s window.window.turns a
        (said w ts)
        (converse flavor w s (new_session s a) ts)
unfolding new_session new_recorder
converse-IsSession flavor w s a window ts p q =
    let first : CopassTurnRecorder = new_recorder (settings_of s a) window.window in
    let at : record { agent = shared a first; recorder = some first } ≡ new_session s a =
      rw (p, q, new_session) refl in
    subst
      (λ session.
        IsSession flavor w s window.window.turns a (said w ts) (converse flavor w s session ts))
      at
      (converse_lem flavor w s a first window.window.turns [] ts (record {
        faithful = new_recorder-IsFaithful (settings_of s a) window.window;
        known = tt;
        settled = refl;
      }))
