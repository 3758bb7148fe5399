-- ===== src/Managed/Cycle/Complete.antt =====
-- requires_action_cycle.py with pending_tool_call.py: the replies built from the calls of a cycle
-- complete it.
use copass.Prelude.{
  String, ◌≡◌, refl, ap, sym, ◌∙◌, true, none, List, [], ◌∷◌, map, arith, eq_iff, contains, All,
}
use copass.Dict.{Dict}
use copass.Sorted.{contains-sorted}
use copass.Agents.Events.{AgentInvocationContext}
use copass.Agents.Tools.{AgentToolRegistry}
use copass.Managed.Call.{PendingToolCall, event_id, Reply, reply_to_call, reply_id-reply_to_call}
use copass.Managed.Cycle.{
  RequiresActionCycle, resolved, calls, foreign_reply, Posted, sent, send_replies, after_post,
  covers, is_cycle_complete,
}
use copass.Managed.Cycle.Resolve.{IsBuffer, calls-resolved}
use copass.Managed.Cycle.Replies.{IsTo, foreign_reply_of_All, is_answered, send_replies-sent}

-- The replies to some calls are to some ids, if the calls' own ids are among these.
pub replies-IsTo :
    (tools : AgentToolRegistry) (context : AgentInvocationContext) (ids : List String)
    (cs : List PendingToolCall)
    → ((k : String) → contains (map event_id cs) k ≡ true → contains ids k ≡ true)
    → All (IsTo ids) (map (reply_to_call tools context) cs)
replies-IsTo tools context ids [] h = tt
replies-IsTo tools context ids (c ∷ cs) h = (
  (
    event_id c,
    reply_id-reply_to_call tools context c,
    h (event_id c) (ground (arith, eq_iff (event_id c) (event_id c))),
  ),
  replies-IsTo tools context ids cs (λ k q. h k (ground arith)),
)

pub is_answered-replies :
    (tools : AgentToolRegistry) (context : AgentInvocationContext) (cs : List PendingToolCall)
    (k : String)
    → is_answered (map (reply_to_call tools context) cs) k ≡ contains (map event_id cs) k
is_answered-replies tools context [] k = refl
is_answered-replies tools context (c ∷ cs) k =
    ground (arith, is_answered-replies tools context cs k, reply_id-reply_to_call tools context c)

covers_of_contains :
    (xs ks : List String)
    → ((k : String) → contains ks k ≡ true → contains xs k ≡ true)
    → covers xs ks ≡ true
unfolding covers
covers_of_contains xs [] h = refl
covers_of_contains xs (k ∷ ks) h =
    ground (
      arith,
      h k (ground (arith, eq_iff k k)),
      covers_of_contains xs ks (λ j q. h j (ground arith)),
    )

module _ (tools : AgentToolRegistry) (context : AgentInvocationContext)
    (cycle : RequiresActionCycle) (events : Dict PendingToolCall) (cs : List PendingToolCall)
    (b : IsBuffer events) (e : calls cycle events ≡ resolved cs) where
  abbrev rs : List Reply
  rs = map (reply_to_call tools context) cs

  pub contains-call_ids :
      (k : String) → contains (map event_id cs) k ≡ contains cycle.requested_ids k
  contains-call_ids k =
      ap (λ ids. contains ids k) (calls-resolved cycle events cs b e)
      ∙ contains-sorted cycle.requested_ids k

  foreign_reply-calls : foreign_reply cycle.requested_ids rs ≡ none
  foreign_reply-calls =
      foreign_reply_of_All cycle.requested_ids rs
        (replies-IsTo tools context cycle.requested_ids cs (λ k q. sym (contains-call_ids k) ∙ q))

  -- When a cycle resolves its calls, the replies built from them pass the barrier, whatever the
  -- tools do and whatever the server then answers.
  pub send_replies-calls :
      (post : List Reply → Posted) → send_replies post cycle rs ≡ after_post cycle rs (post rs)
  unfolding send_replies
  send_replies-calls post = rw (foreign_reply-calls, send_replies)

  -- When a cycle resolves its calls, and the server accepts the batch of their replies, the cycle is
  -- complete.
  pub is_cycle_complete-calls :
      (post : List Reply → Posted) (c : RequiresActionCycle)
      → send_replies post cycle rs ≡ sent c
      → is_cycle_complete c ≡ true
  unfolding is_cycle_complete
  is_cycle_complete-calls post c q =
      let (to, ok, same, executed) = send_replies-sent post cycle c rs q in
      covers_of_contains c.executed_ids c.requested_ids λ k h. ground (
        arith,
        executed k,
        is_answered-replies tools context cs k,
        contains-call_ids k,
        ap (λ ids. contains ids k) same,
      )
