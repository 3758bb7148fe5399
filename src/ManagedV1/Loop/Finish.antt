-- ===== src/ManagedV1/Loop/Finish.antt =====
-- managed_agent_backend.py: how the loop of `stream` ends.
use mathlib.Core.Path.{subst}
use copass.Prelude.{
  ℕ, String, ◌≡◌, refl, sym, Bool, true, false, Option, none, some, List, [], ◌∷◌, ◌++◌, map, arith,
  ◌==◌, Bool-cases, inl, inr, ◌⊎◌, All, All-snoc,
}
use copass.Dict.{Dict}
use copass.Agents.Events.{text_delta, tool_call, tool_result, finish, is_finish}
use copass.Managed.Sdk.{
  Block, StopReason, SdkEvent, Envelope, Kind, message, tool_use, idle, terminated, session_error,
  model_request_end, noop, unknown, kind_of, nonempty,
}
use copass.Managed.Turn.{Control, going, finished, crashed}
use copass.Managed.Emit.{text_of}
use copass.Managed.Stream.{Feed, closed, broken, next}
use copass.ManagedV1.{Yielded, event, opaque_result, Turn, Run, new_run, emit, emit_finish}
use copass.ManagedV1.Answer.{buffer, on_requires_action}
use copass.ManagedV1.Answer.Replies.{shown_id}
use copass.ManagedV1.Answer.Cases.{Cases}
use copass.ManagedV1.Answer.Cases.Outcome.{on_requires_action-Cases}
use copass.ManagedV1.Loop.{
  emit_text, emit_texts, on_tool_use, on_stop_type, on_idle, count_usage, note_type, handle, Ended,
  returned, raised, proceed, drive,
}

abbrev pub is_final : Yielded → Bool
is_final (event e) = is_finish e
is_final (opaque_result i n) = false

abbrev pub NoneFinal : List Yielded → Type 0
NoneFinal out = All (λ y. is_final y ≡ false) out

-- One final event, at the end, of the turn's session.
abbrev pub IsFinal : Turn → List Yielded → Type 0
IsFinal t out =
    (es : List Yielded) × (reason : String) × (usage : Dict ℕ) × (out
      ≡ es ++ event (finish reason usage (some t.session_id)) ∷ [])
    × NoneFinal es

-- Whether the stream ends, and does not break.
unfoldable pub closes : Feed → Bool
closes closed = true
closes (broken e) = false
closes (next ev feed) = closes feed

abbrev pub EndsWell : Turn → Feed → Ended → Type 0
EndsWell t feed (returned r) = IsFinal t r.out ⊎ ((closes feed ≡ true) × NoneFinal r.out)
EndsWell t feed (raised e r) = NoneFinal r.out

abbrev After : Turn → Run × Control → Type 0
After t (r, going) = NoneFinal r.out
After t (r, finished) = IsFinal t r.out
After t (r, crashed e) = NoneFinal r.out

NoneFinal-append : (es fs : List Yielded) → NoneFinal es → NoneFinal fs → NoneFinal (es ++ fs)
NoneFinal-append [] fs h k = k
NoneFinal-append (e ∷ es) fs h k = (h.0, NoneFinal-append es fs h.1 k)

shown_id-is_final : (y : Yielded) (id : String) → shown_id y ≡ some id → is_final y ≡ false
shown_id-is_final (event (text_delta text)) id e = refl
shown_id-is_final (event (tool_call i n a)) id e = refl
shown_id-is_final (event (tool_result i n v m)) id e = refl
shown_id-is_final (event (finish r u s)) id e = absurd cc
shown_id-is_final (opaque_result i n) id e = refl

shown-NoneFinal :
    (shown : List Yielded) (ids : List String) → map shown_id shown ≡ map some ids → NoneFinal shown
shown-NoneFinal [] ids e = tt
shown-NoneFinal (y ∷ shown) [] e = absurd cc
shown-NoneFinal (y ∷ shown) (id ∷ ids) e =
    (shown_id-is_final y id (ground arith), shown-NoneFinal shown ids (ground arith))

emit_finish-After :
    (t : Turn) (reason : String) (r : Run)
    → NoneFinal r.out
    → IsFinal t (emit_finish t reason r).out
unfolding emit_finish emit
emit_finish-After t reason r h = (r.out, reason, r.usage_accumulator, refl, h)

emit_text-NoneFinal :
    (r : Run) (o : Option String) → NoneFinal r.out → NoneFinal (emit_text r o).out
unfolding emit_text emit
emit_text-NoneFinal r none h = h
emit_text-NoneFinal r (some text) h =
    All-snoc (λ y. is_final y ≡ false) r.out (event (text_delta text)) h refl

emit_texts-NoneFinal :
    (r : Run) (bs : List Block) → NoneFinal r.out → NoneFinal (emit_texts r bs).out
unfolding emit_texts
emit_texts-NoneFinal r [] h = h
emit_texts-NoneFinal r (b ∷ bs) h =
    emit_texts-NoneFinal (emit_text r (text_of b)) bs (emit_text-NoneFinal r (text_of b) h)

on_tool_use-After :
    (t : Turn) (envelope : Envelope) (ev : SdkEvent) (r : Run) (o : Option String)
    → NoneFinal r.out
    → After t (on_tool_use envelope ev r o)
unfolding on_tool_use buffer emit
on_tool_use-After t envelope ev r none h = h
on_tool_use-After t envelope ev r (some id) h = All-snoc (λ y. is_final y ≡ false) r.out _ h refl

going-After :
    (t : Turn) (s : Run) (c : Control) (out : List Yielded)
    → c ≡ going
    → s.out ≡ out
    → NoneFinal out
    → After t (s, c)
going-After t s c out on same h =
    subst (λ (d : Control). After t (s, d)) (sym on) (subst NoneFinal (sym same) h)

finished-After :
    (t : Turn) (s : Run) (c : Control) (es : List Yielded) (reason : String) (usage : Dict ℕ)
    → c ≡ finished
    → s.out ≡ es ++ event (finish reason usage (some t.session_id)) ∷ []
    → NoneFinal es
    → After t (s, c)
finished-After t s c es reason usage done same h =
    subst (λ (d : Control). After t (s, d)) (sym done) (es, reason, usage, same, h)

-- The four outcomes of a `requires_action` event leave no final event behind unless they finish.
answered-After :
    (t : Turn) (stop : StopReason) (r s : Run) (c : Control)
    → NoneFinal r.out
    → Cases t stop.event_ids r (s, c)
    → After t (s, c)
answered-After t stop r s c h (inl (lost, done, posts, out)) =
    finished-After t s c r.out "error" r.usage_accumulator done out h
answered-After t stop r s c h (inr (inl (none_asked, on, posts, out))) =
    going-After t s c r.out on out h
answered-After t stop r s c h
      (inr (inr (known, (rs, shown, answers, ids, inl (sent, (on, posts, out, left)))))) =
    going-After t s c (r.out ++ shown) on out
      (NoneFinal-append r.out shown h (shown-NoneFinal shown stop.event_ids ids))
answered-After t stop r s c h
      (inr (inr (known, (rs, shown, answers, ids, inr (e, sent, (done, posts, out)))))) =
    finished-After t s c (r.out ++ shown) "error" r.usage_accumulator done out
      (NoneFinal-append r.out shown h (shown-NoneFinal shown stop.event_ids ids))

on_requires_action-After :
    (t : Turn) (stop : StopReason) (r : Run)
    → NoneFinal r.out
    → After t (on_requires_action t stop r)
on_requires_action-After t stop r h =
    answered-After t stop r (on_requires_action t stop r).0 (on_requires_action t stop r).1 h
      (on_requires_action-Cases t stop r)

on_stop_type-After :
    (t : Turn) (stop : StopReason) (r : Run) (o : Option String)
    → NoneFinal r.out
    → After t (on_stop_type t stop r o)
unfolding on_stop_type
on_stop_type-After t stop r none h = emit_finish-After t "unknown" r h
on_stop_type-After t stop r (some stop_type) h =
    elim (Bool-cases (stop_type == "requires_action")) [
      | inl q ↦ rw q (on_requires_action-After t stop r h)
      | inr q ↦ rw q (elim (Bool-cases (stop_type == "end_turn")) [
        | inl p ↦ rw p (emit_finish-After t "end_turn" r h)
        | inr p ↦ rw p (emit_finish-After t stop_type r h)
      ])
    ]

on_idle-After :
    (t : Turn) (r : Run) (o : Option StopReason) → NoneFinal r.out → After t (on_idle t r o)
unfolding on_idle
on_idle-After t r none h = emit_finish-After t "unknown" r h
on_idle-After t r (some stop) h = on_stop_type-After t stop r (nonempty stop.type) h

count_usage-NoneFinal :
    (r : Run) (o : Option (Dict ℕ)) → NoneFinal r.out → NoneFinal (count_usage r o).out
unfolding count_usage
count_usage-NoneFinal r none h = h
count_usage-NoneFinal r (some counted) h = h

note_type-NoneFinal :
    (r : Run) (o : Option String) → NoneFinal r.out → NoneFinal (note_type r o).out
unfolding note_type
note_type-NoneFinal r none h = h
note_type-NoneFinal r (some name) h = h

handle-After :
    (t : Turn) (k : Kind) (ev : SdkEvent) (r : Run) → NoneFinal r.out → After t (handle t k ev r)
unfolding handle
handle-After t message ev r h = emit_texts-NoneFinal r ev.content h
handle-After t (tool_use e) ev r h = on_tool_use-After t e ev r (nonempty ev.id) h
handle-After t idle ev r h = on_idle-After t r ev.stop_reason h
handle-After t terminated ev r h = emit_finish-After t "terminated" r h
handle-After t session_error ev r h = emit_finish-After t "error" r h
handle-After t model_request_end ev r h = count_usage-NoneFinal r ev.model_usage h
handle-After t noop ev r h = h
handle-After t unknown ev r h = note_type-NoneFinal r (nonempty ev.type) h

proceed-EndsWell :
    (t : Turn) (feed : Feed) (rest : Run → Ended) (r : Run) (c : Control)
    → ((s : Run) → NoneFinal s.out → EndsWell t feed (rest s))
    → After t (r, c)
    → EndsWell t feed (proceed rest r c)
unfolding proceed
proceed-EndsWell t feed rest r going f h = f r h
proceed-EndsWell t feed rest r finished f h = inl h
proceed-EndsWell t feed rest r (crashed e) f h = h

drive-EndsWell :
    (t : Turn) (feed : Feed) (r : Run) → NoneFinal r.out → EndsWell t feed (drive t feed r)
unfolding drive closes
drive-EndsWell t closed r h = inr (refl, h)
drive-EndsWell t (broken e) r h = h
drive-EndsWell t (next ev feed) r h =
    let p = handle t (kind_of ev.type) ev r in
    proceed-EndsWell t feed (drive t feed) p.0 p.1 (λ s k. drive-EndsWell t feed s k)
      (handle-After t (kind_of ev.type) ev r h)

-- Whatever events the provider sends, whatever the session's log holds, whatever is answered and
-- whatever the tools do: a turn of the first backend that returns has yielded exactly one final
-- event, as its last, or none at all, and the second only if the stream ended without a break; a turn
-- that raises has yielded none.
pub drive_new-EndsWell : (t : Turn) (feed : Feed) → EndsWell t feed (drive t feed new_run)
drive_new-EndsWell t feed = drive-EndsWell t feed new_run tt
