-- ===== src/Managed/Stream/Bounds.antt =====
-- How often a turn replies: never more often than the policy's `max_cycles`.
use copass.Prelude.{
  ℕ, suc, ◌+◌, ◌≤◌, String, ◌≡◌, refl, ap, Option, none, some, List, [], ◌∷◌, ◌++◌, map, arith,
  Bool-cases, inl, inr, leb, leb→gt, ◌==◌,
}
use copass.Dict.{Dict}
use copass.Managed.Call.{reply_to_call, Reply}
use copass.Managed.Cycle.{
  RequiresActionCycle, Calls, resolved, missing_pending, key_error, Sent, sent, out_of_cycle_reply,
  refused, post_failed, send_replies,
}
use copass.Managed.Sdk.{
  Block, StopReason, SdkEvent, Envelope, Kind, message, tool_use, idle, terminated, session_error,
  model_request_end, noop, unknown, kind_of, nonempty,
}
use copass.Managed.Turn.{
  Batch, user_messages, replies, interrupt, Turn, Run, new_run, Control, going, finished, crashed,
  emit, log_post, send_interrupt_soft, finish_with,
}
use copass.Managed.Stream.{
  buffer_call, on_tool_use, settle, serve_cycle, on_calls, open_cycle, on_requires_action, on_stop,
  on_stop_type, on_stop_reason, on_idle, count_usage, note_type, handle, step, Feed, closed, broken,
  next, Ended, run_of, proceed, drive,
}
use copass.Managed.Emit.{text_of, emit_text, emit_texts, emit_call, announce, emit_results}
use copass.Managed.Stream.Cycles.{Frame, served-Frame}

-- The number of batches of replies that a turn has posted.
unfoldable pub reply_batches : List Batch → ℕ
reply_batches [] = 0
reply_batches (replies rs ∷ bs) = suc (reply_batches bs)
reply_batches (user_messages ms ∷ bs) = reply_batches bs
reply_batches (interrupt ∷ bs) = reply_batches bs

-- The weight of one more batch.
abbrev weight : Batch → ℕ
weight (replies rs) = 1
weight _ = 0

reply_batches-snoc :
    (bs : List Batch) (b : Batch) → reply_batches (bs ++ b ∷ []) ≡ reply_batches bs + weight b
unfolding reply_batches
reply_batches-snoc [] (replies rs) = refl
reply_batches-snoc [] (user_messages ms) = refl
reply_batches-snoc [] interrupt = refl
reply_batches-snoc (replies rs ∷ bs) b = omega (arith, reply_batches-snoc bs b)
reply_batches-snoc (user_messages ms ∷ bs) b = reply_batches-snoc bs b
reply_batches-snoc (interrupt ∷ bs) b = reply_batches-snoc bs b

-- A turn has replied at most once for each cycle that it opened, and opened at most `max_cycles`.
pub record IsBounded (t : Turn) (r : Run) : Type 0 where
  pub counted : reply_batches r.posts ≤ r.cycle_count
  pub within : r.cycle_count ≤ t.policy.max_cycles

module _ (t : Turn) where
  Frame-IsBounded : {r s : Run} → Frame r s → IsBounded t r → IsBounded t s
  Frame-IsBounded f h = omega (arith, ap reply_batches f.posts, f.cycles, h.counted, h.within)

  finish_with-IsBounded :
      (reason : String) (r : Run) → IsBounded t r → IsBounded t (finish_with t reason r).0
  unfolding finish_with emit
  finish_with-IsBounded reason r h = record { counted = h.counted; within = h.within }

  interrupted-IsBounded :
      (reason : String) (r : Run)
      → IsBounded t r
      → IsBounded t (finish_with t reason (send_interrupt_soft r)).0
  unfolding finish_with emit send_interrupt_soft log_post
  interrupted-IsBounded reason r h = record {
    counted = omega (arith, reply_batches-snoc r.posts interrupt, h.counted);
    within = h.within;
  }

  -- A run that has a reply left for the cycle that it has opened.
  record IsReady (r : Run) : Type 0 where
    counted : suc (reply_batches r.posts) ≤ r.cycle_count
    within : r.cycle_count ≤ t.policy.max_cycles

  replied-IsBounded :
      (r : Run) (rs : List Reply) → IsReady r → IsBounded t (log_post r (replies rs))
  unfolding log_post
  replied-IsBounded r rs h = record {
    counted = omega (arith, reply_batches-snoc r.posts (replies rs), h.counted);
    within = h.within;
  }

  settle-IsBounded :
      (r : Run) (rs : List Reply) (s : Sent) → IsReady r → IsBounded t (settle t r rs s).0
  unfolding settle
  settle-IsBounded r rs (sent cycle) h =
      let k : IsBounded t (log_post r (replies rs)) = replied-IsBounded r rs h in
      record { counted = k.counted; within = k.within }
  settle-IsBounded r rs refused h = interrupted-IsBounded "bad_request" _ (replied-IsBounded r rs h)
  settle-IsBounded r rs (out_of_cycle_reply rid) h =
      interrupted-IsBounded "out_of_cycle_reply" r
        (record { counted = omega (arith, h.counted); within = h.within })
  settle-IsBounded r rs (post_failed e) h = replied-IsBounded r rs h

  on_calls-IsBounded :
      (r : Run) (cycle : RequiresActionCycle) (c : Calls)
      → IsReady r
      → IsBounded t (on_calls t r cycle c).0
  unfolding on_calls serve_cycle
  on_calls-IsBounded r cycle (resolved cs) h =
      let s : Run = emit_results t (announce r cs) cs in
      let rs : List Reply = map (reply_to_call t.tools t.context) cs in
      let f : Frame r s = served-Frame t r cs in
      settle-IsBounded s rs (send_replies (λ batch. t.server s.posts (replies batch)) cycle rs)
        (record {
          counted = omega (arith, ap reply_batches f.posts, f.cycles, h.counted);
          within = omega (arith, f.cycles, h.within);
        })
  on_calls-IsBounded r cycle (missing_pending missing known) h = record {
    counted = omega (arith, h.counted);
    within = h.within;
  }
  on_calls-IsBounded r cycle key_error h = record {
    counted = omega (arith, h.counted);
    within = h.within;
  }

  on_requires_action-IsBounded :
      (stop : StopReason) (r : Run) → IsBounded t r → IsBounded t (on_requires_action t stop r).0
  unfolding on_requires_action open_cycle
  on_requires_action-IsBounded stop r h =
      elim (Bool-cases (leb t.policy.max_cycles r.cycle_count)) [
        | inl q ↦ rw q (interrupted-IsBounded "policy_max_cycles_exhausted" r h)
        | inr q ↦ rw q (
            on_calls-IsBounded (record r { cycle_count = suc r.cycle_count }) _ _
              (record { counted = omega (arith, h.counted); within = leb→gt _ _ q }))
      ]

  on_stop-IsBounded :
      (stop : StopReason) (stop_type : String) (r : Run)
      → IsBounded t r
      → IsBounded t (on_stop t stop stop_type r).0
  unfolding on_stop
  on_stop-IsBounded stop stop_type r h = elim (Bool-cases (stop_type == "requires_action")) [
    | inl q ↦ rw q (on_requires_action-IsBounded stop r h)
    | inr q ↦ rw q (elim (Bool-cases (stop_type == "end_turn")) [
      | inl p ↦ rw p (finish_with-IsBounded "end_turn" r h)
      | inr p ↦ rw p (finish_with-IsBounded stop_type r h)
    ])
  ]

  on_stop_type-IsBounded :
      (stop : StopReason) (r : Run) (o : Option String)
      → IsBounded t r
      → IsBounded t (on_stop_type t stop r o).0
  unfolding on_stop_type
  on_stop_type-IsBounded stop r none h = finish_with-IsBounded "unknown" r h
  on_stop_type-IsBounded stop r (some stop_type) h = on_stop-IsBounded stop stop_type r h

  on_stop_reason-IsBounded :
      (r : Run) (o : Option StopReason) → IsBounded t r → IsBounded t (on_stop_reason t r o).0
  unfolding on_stop_reason
  on_stop_reason-IsBounded r none h = finish_with-IsBounded "unknown" r h
  on_stop_reason-IsBounded r (some stop) h = on_stop_type-IsBounded stop r (nonempty stop.type) h

  buffer_call-IsBounded :
      (e : Envelope) (ev : SdkEvent) (r : Run) (o : Option String)
      → IsBounded t r
      → IsBounded t (buffer_call e ev r o).0
  unfolding buffer_call emit_call emit
  buffer_call-IsBounded e ev r none h = h
  buffer_call-IsBounded e ev r (some id) h = record { counted = h.counted; within = h.within }

  emit_text-IsBounded : (r : Run) (o : Option String) → IsBounded t r → IsBounded t (emit_text r o)
  unfolding emit_text emit
  emit_text-IsBounded r none h = h
  emit_text-IsBounded r (some text) h = record { counted = h.counted; within = h.within }

  emit_texts-IsBounded : (r : Run) (bs : List Block) → IsBounded t r → IsBounded t (emit_texts r bs)
  unfolding emit_texts
  emit_texts-IsBounded r [] h = h
  emit_texts-IsBounded r (b ∷ bs) h =
      emit_texts-IsBounded (emit_text r (text_of b)) bs (emit_text-IsBounded r (text_of b) h)

  count_usage-IsBounded :
      (r : Run) (o : Option (Dict ℕ)) → IsBounded t r → IsBounded t (count_usage r o)
  unfolding count_usage
  count_usage-IsBounded r none h = h
  count_usage-IsBounded r (some c) h = record { counted = h.counted; within = h.within }

  note_type-IsBounded : (r : Run) (o : Option String) → IsBounded t r → IsBounded t (note_type r o)
  unfolding note_type
  note_type-IsBounded r none h = h
  note_type-IsBounded r (some name) h = record { counted = h.counted; within = h.within }

  handle-IsBounded :
      (k : Kind) (ev : SdkEvent) (r : Run) → IsBounded t r → IsBounded t (handle t k ev r).0
  unfolding handle on_tool_use on_idle
  handle-IsBounded message ev r h = emit_texts-IsBounded r ev.content h
  handle-IsBounded (tool_use e) ev r h = buffer_call-IsBounded e ev r (nonempty ev.id) h
  handle-IsBounded idle ev r h = on_stop_reason-IsBounded r ev.stop_reason h
  handle-IsBounded terminated ev r h = finish_with-IsBounded "terminated" r h
  handle-IsBounded session_error ev r h = finish_with-IsBounded "error" r h
  handle-IsBounded model_request_end ev r h = count_usage-IsBounded r ev.model_usage h
  handle-IsBounded noop ev r h = h
  handle-IsBounded unknown ev r h = note_type-IsBounded r (nonempty ev.type) h

  proceed-IsBounded :
      (rest : Run → Ended) (r : Run) (c : Control)
      → ((s : Run) → IsBounded t s → IsBounded t (run_of (rest s)))
      → IsBounded t r
      → IsBounded t (run_of (proceed rest r c))
  unfolding proceed
  proceed-IsBounded rest r going f h = f r h
  proceed-IsBounded rest r finished f h = h
  proceed-IsBounded rest r (crashed e) f h = h

  drive-IsBounded : (feed : Feed) (r : Run) → IsBounded t r → IsBounded t (run_of (drive t feed r))
  unfolding drive step
  drive-IsBounded closed r h = finish_with-IsBounded "end_turn" r h
  drive-IsBounded (broken e) r h = h
  drive-IsBounded (next ev feed) r h =
      proceed-IsBounded (drive t feed) _ _ (λ s k. drive-IsBounded feed s k)
        (handle-IsBounded (kind_of ev.type) ev r h)

-- However a turn ends, and whatever the provider and the tools do, it has opened at most
-- `max_cycles` cycles, and has posted at most one batch of replies for each of them.
pub drive-new_run-IsBounded :
    (t : Turn) (feed : Feed)
    → let r = run_of (drive t feed new_run) in
      (reply_batches r.posts ≤ r.cycle_count) × (r.cycle_count ≤ t.policy.max_cycles)
unfolding reply_batches
drive-new_run-IsBounded t feed =
    let h =
      drive-IsBounded t feed new_run (record { counted = omega arith; within = omega arith }) in
    (h.counted, h.within)
