-- ===== src/CopassAgent/Recorded.antt =====
-- managed_agent.py: what a turn leaves in the window.
use mathlib.Core.List.{append_assoc, append-nil}
use copass.Prelude.{
  String, true, false, ◌≡◌, ap, ◌∙◌, some, List, [], ◌∷◌, ◌++◌, map, arith, eq_iff, contains, All,
  All-map, All-append, Bool, sym, String, if◌then◌else◌, Bool-cases, inl, inr,
}
use copass.Agents.Events.{AgentEvent, text_delta, tool_call, tool_result, finish}
use copass.Managed.Cycle.Replies.{contains-add}
use copass.Recorder.{
  system_turn, ChatMessage, user, Settings, CopassTurnRecorder, dedupe_key, record_turn,
  flush_assistant, record_user, record_event, record_assistant_delta, Call, user_turn, event,
  flushed_answer, flushed, flush, perform, perform_all,
}
use copass.Recorder.Record.{keys_of, run_pushes-turns, flush-turns, AreNew, recorded, IsFaithful}
use copass.Recorder.Growth.{perform_all-IsFaithful}
use copass.Json.{Value, Fields}
use copass.CopassAgent.Messages.{user_contents, is_user_message, text_of_message}
use copass.CopassAgent.Stream.{stream_calls, turn_calls}
use copass.Text.{Text, codes, strip, is_empty, concat}

abbrev pub said_by_user : Settings → Text → ChatMessage
said_by_user s content = record { role = user; content = content; name = some s.user_speaker }

module _ (s : Settings) (k : String) where
  -- A recorder that knows a key still knows it afterwards.
  abbrev Keeps : CopassTurnRecorder → CopassTurnRecorder → Type 0
  Keeps r t = contains r.seen k ≡ true → contains t.seen k ≡ true

  record_turn-Keeps : (r : CopassTurnRecorder) (t : ChatMessage) → Keeps r (record_turn s r t)
  unfolding record_turn
  record_turn-Keeps r t h = ground (arith, contains-add r.seen (dedupe_key s t) k)

  flush_assistant-Keeps : (r : CopassTurnRecorder) → Keeps r (flush_assistant s r)
  unfolding flush_assistant
  flush_assistant-Keeps r h =
      elim (Bool-cases (is_empty (strip (concat r.pending_assistant_text)))) [
        | inl q ↦ rw (q, flush_assistant) h
        | inr q ↦
            rw (q, flush_assistant)
              (record_turn-Keeps (record r { pending_assistant_text = [] }) _ h)
      ]

  either-Keeps :
      (b : Bool) (r t : CopassTurnRecorder)
      → contains t.seen k ≡ true
      → contains r.seen k ≡ true
      → contains (if b then t else r).seen k ≡ true
  either-Keeps true r t p q = p
  either-Keeps false r t p q = q

  record_event-Keeps : (r : CopassTurnRecorder) (e : AgentEvent) → Keeps r (record_event s r e)
  unfolding record_event record_assistant_delta
  record_event-Keeps r (text_delta text) h = elim (Bool-cases (is_empty (codes text))) [
    | inl q ↦ rw (q, record_event) h
    | inr q ↦ rw (q, record_event) h
  ]
  record_event-Keeps r (finish reason usage session) h = flush_assistant-Keeps r h
  record_event-Keeps r (tool_call i n a) h =
      either-Keeps s.include_tool_events r _
        (record_turn-Keeps r (system_turn (s.print_call n a)) h) h
  record_event-Keeps r (tool_result i n v e) h =
      either-Keeps s.include_tool_events r _
        (record_turn-Keeps r (system_turn (s.print_result n v)) h) h

  perform-Keeps : (r : CopassTurnRecorder) (c : Call) → Keeps r (perform s r c)
  unfolding perform record_user flush
  perform-Keeps r (user_turn content) h =
      record_turn-Keeps (flush_assistant s r) (said_by_user s content) (flush_assistant-Keeps r h)
  perform-Keeps r (event e) h = record_event-Keeps r e h
  perform-Keeps r flushed_answer h = flush_assistant-Keeps r h
  perform-Keeps r flushed h =
      let (turns, pending, seen) =
        run_pushes-turns s (record r { pending_pushes = [] }) r.pending_pushes in
      ap (λ ks. contains ks k) seen ∙ h

  pub perform_all-Keeps : (r : CopassTurnRecorder) (cs : List Call) → Keeps r (perform_all s r cs)
  unfolding perform_all
  perform_all-Keeps r [] h = h
  perform_all-Keeps r (c ∷ cs) h = perform_all-Keeps (perform s r c) cs (perform-Keeps r c h)

abbrev pub IsShown : Text → Type 0
IsShown t = is_empty (strip t) ≡ false

module _ (s : Settings) where
  -- Once said, a text that is not blank is known.
  record_user-known :
      (r : CopassTurnRecorder) (t : Text)
      → IsShown t
      → contains (record_user s r t).seen (dedupe_key s (said_by_user s t)) ≡ true
  unfolding record_user record_turn
  record_user-known r t shown =
      let k = dedupe_key s (said_by_user s t) in
      let seen = (flush_assistant s r).seen in
      elim (Bool-cases (contains seen k)) [
        | inl p ↦ rw (shown, record_user) (rw p p)
        | inr p ↦
            rw (shown, record_user) (rw p (ground (arith, contains-add seen k k, eq_iff k k, p)))
      ]

  -- The key of the user's turn with a text is that of a turn in the log.
  abbrev pub InLog : CopassTurnRecorder → Text → Type 0
  InLog r t = contains (keys_of s r.window.turns) (dedupe_key s (said_by_user s t)) ≡ true

  abbrev pub Known : CopassTurnRecorder → Text → Type 0
  Known r t = contains r.seen (dedupe_key s (said_by_user s t)) ≡ true

  pub All-Known :
      (r : CopassTurnRecorder) (ts : List Text) (cs : List Call)
      → All IsShown ts
      → All (Known (perform_all s r (map user_turn ts ++ cs))) ts
  unfolding perform_all perform
  All-Known r [] cs h = tt
  All-Known r (t ∷ ts) cs h = (
    perform_all-Keeps s _ (record_user s r t) (map user_turn ts ++ cs) (record_user-known r t h.0),
    All-Known (record_user s r t) ts cs h.1,
  )

  flushed_last :
      (r : CopassTurnRecorder) (cs : List Call)
      → (perform_all s r (cs ++ flushed ∷ [])).pending_pushes ≡ []
  unfolding perform_all perform
  flushed_last r [] = (flush-turns s r).1
  flushed_last r (c ∷ cs) = flushed_last (perform s r c) cs

  -- What holds of a recorder between two turns, after some texts of the user.
  pub record IsCurrent (start : List ChatMessage) (contents : List Text) (r : CopassTurnRecorder)
      : Type 0 where
    pub faithful : IsFaithful s start r
    pub known : All (Known r) contents
    pub settled : r.pending_pushes ≡ []

  -- The log of the window has grown at its end only, by turns that are not blank and whose keys are
  -- new; each of some texts of the user has its key there; and no push is waiting.
  pub record IsRecorded (start : List ChatMessage) (contents : List Text) (r : CopassTurnRecorder)
      : Type 0 where
    pub grown :
        (new : List ChatMessage) × (r.window.turns ≡ start ++ new) × AreNew s (keys_of s start) new
    pub in_log : All (InLog r) contents
    pub settled : r.pending_pushes ≡ []

  pub IsCurrent-IsRecorded :
      (start : List ChatMessage) (contents : List Text) (r : CopassTurnRecorder)
      → IsCurrent start contents r
      → IsRecorded start contents r
  IsCurrent-IsRecorded start contents r h =
      let logged : recorded s r ≡ r.window.turns =
        ap (λ ts. r.window.turns ++ ts) h.settled ∙ append-nil r.window.turns in
      record {
        grown = (h.faithful.new, sym logged ∙ h.faithful.grown, h.faithful.novel);
        in_log =
            All-map
              (λ t known.
                let k = dedupe_key s (said_by_user s t) in
                ap (λ ts. contains (keys_of s ts) k) (sym logged)
                ∙ sym (h.faithful.known k)
                ∙ known)
              contents h.known;
        settled = h.settled;
      }

  turn_calls-snoc :
      (contents : List Text) (events : List AgentEvent)
      → turn_calls contents events ≡ (map user_turn contents ++ map event events) ++ flushed ∷ []
  unfolding turn_calls stream_calls
  turn_calls-snoc contents events =
      sym (append_assoc (map user_turn contents) (map event events) (flushed ∷ []))

  pub turn_calls-IsCurrent :
      (start : List ChatMessage) (before : List Text) (r : CopassTurnRecorder)
      (contents : List Text) (events : List AgentEvent)
      → IsCurrent start before r
      → All IsShown contents
      → IsCurrent start (before ++ contents) (perform_all s r (turn_calls contents events))
  unfolding turn_calls
  turn_calls-IsCurrent start before r contents events h shown = record {
    faithful = perform_all-IsFaithful s start r (turn_calls contents events) h.faithful;
    known =
        All-append _ before contents
          (All-map (λ t known. perform_all-Keeps s _ r (turn_calls contents events) known) before
            h.known)
          (All-Known r contents (stream_calls events) shown);
    settled =
        ap (λ cs. (perform_all s r cs).pending_pushes) (turn_calls-snoc contents events)
        ∙ flushed_last r (map user_turn contents ++ map event events);
  }

either-IsShown :
    (b : Bool) (t : Text) (ts : List Text)
    → All IsShown ts
    → All IsShown (if b then if is_empty (strip t) then ts else t ∷ ts else ts)
either-IsShown false t ts h = h
either-IsShown true t ts h = elim (Bool-cases (is_empty (strip t))) [
  | inl q ↦ rw q h
  | inr q ↦ rw q (q, h)
]

pub user_contents-IsShown :
    (print : Value → String) (ms : List Fields) → All IsShown (user_contents print ms)
unfolding user_contents
user_contents-IsShown print [] = tt
user_contents-IsShown print (m ∷ ms) =
    either-IsShown (is_user_message m) (text_of_message print m) (user_contents print ms)
      (user_contents-IsShown print ms)
