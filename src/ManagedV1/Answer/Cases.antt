-- ===== src/ManagedV1/Answer/Cases.antt =====
-- managed_agent_backend.py: what a `requires_action` event does, on every branch.
pub mod Outcome
use copass.Prelude.{
  String, ◌≡◌, refl, ap, sym, ◌∙◌, Bool, true, false, not, Option, none, some, List, [], ◌∷◌, ◌++◌,
  map, arith, ◌==◌, eq_iff, if◌then◌else◌, contains, Bool-cases, inl, inr, ◌⊎◌, is_some,
}
use copass.Dict.{Dict, get, has}
use copass.Dict.Laws.{has-get}
use copass.Agents.Events.{finish}
use copass.Managed.Call.{Reply}
use copass.Managed.Sdk.{SdkEvent, StopReason, Envelope}
use copass.Managed.Turn.{Control, going, finished}
use copass.ManagedV1.{
  Yielded, event, Batch, replies, interrupt, Turn, Run, emit, log_post, emit_finish,
}
use copass.ManagedV1.Answer.{
  missing_ids, rehydrate, ToolReply, execute_pending_tools, reply_event, emit_results, pop_all,
  after_send, answer, answer_or_interrupt, recover, on_requires_action,
}
use copass.ManagedV1.Answer.Recovers.{
  logged, logged_event, logged_envelope, or_first, Frame, rehydrate-Frame, rehydrate_lem,
}
use copass.ManagedV1.Answer.Replies.{
  Answers, shown_id, call_id-execute_pending_tools, execute_pending_tools-Answers, emit_results_lem,
  get-pop_all, pop_all-Frame,
}

contains-missing_ids :
    (pending : Dict SdkEvent) (ids : List String) (k : String)
    → contains (missing_ids pending ids) k ≡ (if contains ids k then not (has pending k) else false)
unfolding missing_ids
contains-missing_ids pending [] k = refl
contains-missing_ids pending (j ∷ ids) k = elim (Bool-cases (j == k)) [
  | inl q ↦ ground (arith, contains-missing_ids pending ids k, ap (has pending) ((eq_iff j k).0 q))
  | inr q ↦ ground (arith, contains-missing_ids pending ids k)
]

-- Whether an id is buffered, or can be read from the session's log.
abbrev pub is_known : Turn → Run → String → Bool
is_known t r k = if has r.pending k then true else is_some (logged (t.session.log r.posts) k)

-- The envelope of an event that is buffered, or else logged.
abbrev pub known_envelope : Turn → Run → String → Option Envelope
known_envelope t r k =
    if has r.pending k
    then get r.envelope k
    else or_first (logged_envelope (logged (t.session.log r.posts) k)) (get r.envelope k)

known_if :
    (found : Option (SdkEvent × Envelope)) (old : Option SdkEvent) (needed here : Bool)
    → needed ≡ not here
    → here ≡ is_some old
    → is_some (if needed then or_first (logged_event found) old else old)
      ≡ (if here then true else is_some found)
known_if none none needed here e h = ground arith
known_if none (some v) needed here e h = ground arith
known_if (some (ev, envelope)) none needed here e h = ground arith
known_if (some (ev, envelope)) (some v) needed here e h = ground arith

recovered-has :
    (t : Turn) (r : Run) (ids : List String) (k : String)
    → contains ids k ≡ true
    → has (recover t r ids).pending k ≡ is_known t r k
unfolding recover
recovered-has t r ids k asked =
    let feed = t.session.log r.posts in
    let missing = missing_ids r.pending ids in
    let needed : contains missing k ≡ not (has r.pending k) =
      contains-missing_ids r.pending ids k
      ∙ ap (λ (b : Bool). if b then not (has r.pending k) else false) asked in
    has-get (rehydrate feed r missing).pending k
    ∙ ap is_some (rehydrate_lem feed r missing k).0
    ∙ known_if (logged feed k) (get r.pending k) (contains missing k) (has r.pending k) needed
        (has-get r.pending k)

recovered-envelope :
    (t : Turn) (r : Run) (ids : List String) (k : String)
    → contains ids k ≡ true
    → get (recover t r ids).envelope k ≡ known_envelope t r k
unfolding recover
recovered-envelope t r ids k asked = ground (
  arith,
  (rehydrate_lem (t.session.log r.posts) r (missing_ids r.pending ids) k).1,
  contains-missing_ids r.pending ids k,
)

-- Some requested id is neither buffered nor in the session's log: the session is interrupted, and the
-- turn finishes with an error.
abbrev pub IsLost : Turn → List String → Run → Run × Control → Type 0
IsLost t ids r (s, c) =
    ((k : String) × (contains ids k ≡ true) × (is_known t r k ≡ false))
    × (c ≡ finished)
    × (s.posts ≡ r.posts ++ interrupt ∷ [])
    × (s.out ≡ r.out ++ event (finish "error" r.usage_accumulator (some t.session_id)) ∷ [])

-- No id is requested: nothing is sent or yielded.
abbrev pub IsIdle : Turn → List String → Run → Run × Control → Type 0
IsIdle t ids r (s, c) = (ids ≡ []) × (c ≡ going) × (s.posts ≡ r.posts) × (s.out ≡ r.out)

-- The batch is taken: the results have been yielded, and exactly the requested ids leave the buffer.
abbrev pub IsTaken : Turn → List String → List Reply → List Yielded → Run → Run × Control → Type 0
IsTaken t ids rs shown r (s, c) =
    (c ≡ going)
    × (s.posts ≡ r.posts ++ replies rs ∷ [])
    × (s.out ≡ r.out ++ shown)
    × ((k : String) → get s.pending k ≡ (if contains ids k then none else get r.pending k))

-- The provider raises on the batch: the session is interrupted, and the turn finishes with an error.
abbrev pub IsRejected : Turn → List Reply → List Yielded → Run → Run × Control → Type 0
IsRejected t rs shown r (s, c) =
    (c ≡ finished)
    × (s.posts ≡ (r.posts ++ replies rs ∷ []) ++ interrupt ∷ [])
    × (s.out
        ≡ (r.out ++ shown) ++ event (finish "error" r.usage_accumulator (some t.session_id)) ∷ [])

-- Every requested id is known, and is answered once, in the order of the request.
abbrev pub IsAnswered : Turn → List String → Run → Run × Control → Type 0
IsAnswered t ids r p =
    ((k : String) → contains ids k ≡ true → is_known t r k ≡ true)
    × ((rs : List Reply) × (shown : List Yielded) × Answers (known_envelope t r) ids rs
        × (map shown_id shown ≡ map some ids)
        × (((t.session.send r.posts (replies rs) ≡ none) × IsTaken t ids rs shown r p)
            ⊎ ((e : String) × (t.session.send r.posts (replies rs) ≡ some e)
                × IsRejected t rs shown r p)))

abbrev pub Cases : Turn → List String → Run → Run × Control → Type 0
Cases t ids r p = IsLost t ids r p ⊎ IsIdle t ids r p ⊎ IsAnswered t ids r p
