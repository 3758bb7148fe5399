-- ===== src/ManagedV1/Answer/Cases/Outcome.antt =====
-- managed_agent_backend.py: that each `requires_action` event has one of the outcomes.
use copass.Prelude.{
  String, ◌≡◌, refl, ap, sym, ◌∙◌, true, false, Option, none, some, List, [], ◌∷◌, ◌++◌, map, arith,
  eq_iff, contains, inl, inr, ◌⊎◌,
}
use copass.Dict.{Dict, get, has}
use copass.Managed.Call.{Reply}
use copass.Managed.Sdk.{SdkEvent, StopReason}
use copass.Managed.Turn.{going, finished}
use copass.ManagedV1.{Yielded, Batch, replies, interrupt, Turn, Run, emit, log_post, emit_finish}
use copass.ManagedV1.Answer.{
  missing_ids, ToolReply, execute_pending_tools, reply_event, emit_results, pop_all, after_send,
  answer, answer_or_interrupt, recover, on_requires_action,
}
use copass.ManagedV1.Answer.Recovers.{Frame, rehydrate-Frame, rehydrate_lem}
use copass.ManagedV1.Answer.Replies.{
  Answers, call_id-execute_pending_tools, execute_pending_tools-Answers, emit_results_lem,
  get-pop_all, pop_all-Frame,
}
use copass.ManagedV1.Answer.Cases.{
  contains-missing_ids, is_known, known_envelope, recovered-has, recovered-envelope, IsTaken,
  IsRejected, IsAnswered, Cases,
}

missing_ids-nil :
    (pending : Dict SdkEvent) (ids : List String) (k : String)
    → missing_ids pending ids ≡ []
    → contains ids k ≡ true
    → has pending k ≡ true
missing_ids-nil pending ids k e asked =
    ground (arith, contains-missing_ids pending ids k, ap (λ (l : List String). contains l k) e)

missing_ids-cons :
    (pending : Dict SdkEvent) (ids : List String) (k : String) (ks : List String)
    → missing_ids pending ids ≡ k ∷ ks
    → (contains ids k ≡ true) × (has pending k ≡ false)
missing_ids-cons pending ids k ks e =
    let listed : contains (missing_ids pending ids) k ≡ true =
      ap (λ (l : List String). contains l k) e ∙ ground (arith, eq_iff k k) in
    ground (arith, contains-missing_ids pending ids k)

after_send-cases :
    (t : Turn) (u : Run) (results : List ToolReply) (o : Option String)
    → ((o ≡ none) × (after_send t u results o ≡ (pop_all u results, going)))
      ⊎ ((e : String) × (o ≡ some e)
          × (after_send t u results o ≡ (emit_finish t "error" (log_post u interrupt), finished)))
unfolding after_send
after_send-cases t u results none = inl (refl, refl)
after_send-cases t u results (some e) = inr (e, refl, refl)

recover-Frame : (t : Turn) (r : Run) (ids : List String) → Frame r (recover t r ids)
unfolding recover
recover-Frame t r ids = rehydrate-Frame (t.session.log r.posts) r (missing_ids r.pending ids)

recovered-get :
    (t : Turn) (r : Run) (ids : List String) (k : String)
    → contains ids k ≡ false
    → get (recover t r ids).pending k ≡ get r.pending k
unfolding recover
recovered-get t r ids k other = ground (
  arith,
  (rehydrate_lem (t.session.log r.posts) r (missing_ids r.pending ids) k).0,
  contains-missing_ids r.pending ids k,
)

-- The run when the replies have been sent: its results are yielded and its batch is logged.
record Sent (r : Run) (shown : List Yielded) (batch : Batch) (s u : Run) : Type 0 where
  posts : u.posts ≡ r.posts ++ batch ∷ []
  out : u.out ≡ r.out ++ shown
  pending : u.pending ≡ s.pending
  usage : u.usage_accumulator ≡ r.usage_accumulator

sent_lem :
    (r s : Run) (results : List ToolReply) (shown : List Yielded) (batch : Batch)
    → Frame r s
    → emit_results s results ≡ record s { out = s.out ++ shown }
    → Sent r shown batch s (log_post (emit_results s results) batch)
unfolding log_post
sent_lem r s results shown batch f same = record {
  posts =
      ap (λ (u : Run). u.posts ++ batch ∷ []) same
      ∙ ap (λ (l : List Batch). l ++ batch ∷ []) f.posts;
  out = ap (λ (u : Run). u.out) same ∙ ap (λ (l : List Yielded). l ++ shown) f.out;
  pending = ap (λ (u : Run). u.pending) same;
  usage = ap (λ (u : Run). u.usage_accumulator) same ∙ f.usage;
}

module _ (t : Turn) (r : Run) (ids : List String) where
  pop_all-IsTaken :
      (rs : List Reply) (shown : List Yielded) (u : Run) (results : List ToolReply)
      → Sent r shown (replies rs) (recover t r ids) u
      → map (λ (reply : ToolReply). reply.call_id) results ≡ ids
      → IsTaken t ids rs shown r (pop_all u results, going)
  pop_all-IsTaken rs shown u results h called =
      let f = pop_all-Frame u results in
      (
        refl,
        f.posts ∙ h.posts,
        f.out ∙ h.out,
        λ k. ground (
          arith,
          get-pop_all u results k,
          ap (λ (l : List String). contains l k) called,
          ap (λ (d : Dict SdkEvent). get d k) h.pending,
          recovered-get t r ids k,
        ),
      )

  emit_finish-IsRejected :
      (rs : List Reply) (shown : List Yielded) (u : Run)
      → Sent r shown (replies rs) (recover t r ids) u
      → IsRejected t rs shown r (emit_finish t "error" (log_post u interrupt), finished)
  unfolding emit_finish emit log_post
  emit_finish-IsRejected rs shown u h =
      (refl, ap (λ (l : List Batch). l ++ interrupt ∷ []) h.posts, cc (h.out, h.usage))

  after_send-IsAnswered :
      (results : List ToolReply)
      → ((k : String) → contains ids k ≡ true → is_known t r k ≡ true)
      → map (λ (reply : ToolReply). reply.call_id) results ≡ ids
      → Answers (known_envelope t r) ids (map reply_event results)
      → let s = recover t r ids in
        let batch = replies (map reply_event results) in
        let yielded = emit_results s results in
        IsAnswered t ids r
          (after_send t (log_post yielded batch) results (t.session.send yielded.posts batch))
  after_send-IsAnswered results known called answers =
      let s = recover t r ids in
      let rs = map reply_event results in
      let (shown, same, ids_shown) = emit_results_lem s results in
      let u = log_post (emit_results s results) (replies rs) in
      let h = sent_lem r s results shown (replies rs) (recover-Frame t r ids) same in
      let before : (emit_results s results).posts ≡ r.posts =
        ap (λ (v : Run). v.posts) same ∙ (recover-Frame t r ids).posts in
      let asked : t.session.send (emit_results s results).posts (replies rs)
          ≡ t.session.send r.posts (replies rs) =
        ap (λ (l : List Batch). t.session.send l (replies rs)) before in
      let ids_listed = ids_shown ∙ ap (λ (l : List String). map some l) called in
      (
        known,
        (
          rs,
          shown,
          answers,
          ids_listed,
          elim (after_send-cases t u results
              (t.session.send (emit_results s results).posts (replies rs))) [
                | inl (o, e) ↦
                    inl (sym asked ∙ o, rw e (pop_all-IsTaken rs shown u results h called))
                | inr (x, o, e) ↦ inr (x, sym asked ∙ o, rw e (emit_finish-IsRejected rs shown u h))
              ],
        ),
      )

answer-Cases :
    (t : Turn) (r : Run) (ids : List String)
    → ((k : String) → contains ids k ≡ true → is_known t r k ≡ true)
    → Cases t ids r (answer t (recover t r ids) (execute_pending_tools t (recover t r ids) ids))
unfolding answer execute_pending_tools
answer-Cases t r [] known =
    inr (inl (refl, refl, (recover-Frame t r []).posts, (recover-Frame t r []).out))
answer-Cases t r (id ∷ ids) known =
    let s = recover t r (id ∷ ids) in
    inr (
      inr (
        after_send-IsAnswered t r (id ∷ ids) (execute_pending_tools t s (id ∷ ids)) known
          (call_id-execute_pending_tools t s (id ∷ ids))
          (execute_pending_tools-Answers t s (known_envelope t r) (id ∷ ids)
            (λ k asked. recovered-envelope t r (id ∷ ids) k asked))))

answer_or_interrupt-Cases :
    (t : Turn) (r : Run) (ids missing : List String)
    → missing_ids (recover t r ids).pending ids ≡ missing
    → Cases t ids r (answer_or_interrupt t (recover t r ids) ids missing)
unfolding answer_or_interrupt emit_finish emit log_post
answer_or_interrupt-Cases t r ids [] e = answer-Cases t r ids (λ k asked.
    sym (recovered-has t r ids k asked) ∙ missing_ids-nil (recover t r ids).pending ids k e asked)
answer_or_interrupt-Cases t r ids (k ∷ ks) e =
    let (asked, gone) = missing_ids-cons (recover t r ids).pending ids k ks e in
    let f = recover-Frame t r ids in
    inl (
      (k, asked, sym (recovered-has t r ids k asked) ∙ gone),
      refl,
      ap (λ (l : List Batch). l ++ interrupt ∷ []) f.posts,
      cc (f.out, f.usage),
    )

-- A `requires_action` event has one of four outcomes. A requested id may be neither buffered nor in
-- the session's log: then the session is interrupted and the turn finishes with an error. With no id
-- requested nothing happens. Otherwise each requested id is answered once, in the order of the
-- request, by a reply of the kind that the envelope of its event wants, and one result is yielded for
-- each. If the provider takes the batch, exactly the requested ids leave the buffer and the turn goes
-- on; if it raises, the session is interrupted and the turn finishes with an error.
pub on_requires_action-Cases :
    (t : Turn) (stop : StopReason) (r : Run)
    → Cases t stop.event_ids r (on_requires_action t stop r)
unfolding on_requires_action
on_requires_action-Cases t stop r =
    answer_or_interrupt-Cases t r stop.event_ids
      (missing_ids (recover t r stop.event_ids).pending stop.event_ids) refl
