-- ===== src/Managed/Cycle/Replies.antt =====
-- requires_action_cycle.py: which replies leave a cycle.
use copass.Prelude.{
  String, ◌≡◌, refl, ap, sym, ◌∙◌, Bool, true, false, ◌||◌, none, some, List, [], ◌∷◌, arith, ◌==◌,
  eq_iff, contains, add, All, inl, inr, Option-cases,
}
use copass.Managed.Call.{Reply, reply_id}
use copass.Managed.Cycle.{
  RequiresActionCycle, foreign_reply, record_executed, Posted, accepted, bad_request, failed, sent,
  send_replies, after_post,
}

-- A reply to one of some ids.
abbrev pub IsTo : List String → Reply → Type 0
IsTo ids r = (k : String) × (reply_id r ≡ some k) × (contains ids k ≡ true)

foreign_reply-none :
    (ids : List String) (rs : List Reply) → foreign_reply ids rs ≡ none → All (IsTo ids) rs
unfolding foreign_reply
foreign_reply-none ids [] e = tt
foreign_reply-none ids (r ∷ rs) e = elim (Option-cases (reply_id r)) [
  | inl q ↦ absurd (ground arith)
  | inr (k, q) ↦ ((k, q, ground arith), foreign_reply-none ids rs (ground arith))
]

pub foreign_reply_of_All :
    (ids : List String) (rs : List Reply) → All (IsTo ids) rs → foreign_reply ids rs ≡ none
unfolding foreign_reply
foreign_reply_of_All ids [] h = refl
foreign_reply_of_All ids (r ∷ rs) h = ground (arith, foreign_reply_of_All ids rs h.1)

abbrev pub is_reply_to : String → Reply → Bool
is_reply_to k r = elim (reply_id r) [ none ↦ false | some j ↦ j == k ]

abbrev pub is_answered : List Reply → String → Bool
is_answered [] k = false
is_answered (r ∷ rs) k = is_reply_to k r || is_answered rs k

pub contains-add :
    (ids : List String) (j k : String) → contains (add ids j) k ≡ (contains ids k || j == k)
contains-add [] j k = ground arith
contains-add (i ∷ ids) j k =
    ground (arith, contains-add ids j k, eq_iff i j, eq_iff i k, eq_iff j k)

pub contains-record_executed :
    (ids : List String) (rs : List Reply) (k : String)
    → contains (record_executed ids rs) k ≡ (contains ids k || is_answered rs k)
unfolding record_executed
contains-record_executed ids [] k = ground arith
contains-record_executed ids (r ∷ rs) k = elim (Option-cases (reply_id r)) [
  | inl q ↦ ground (arith, contains-record_executed ids rs k)
  | inr (j, q) ↦ ground (arith, contains-record_executed (add ids j) rs k, contains-add ids j k)
]

after_post-sent :
    (cycle c : RequiresActionCycle) (rs : List Reply) (p : Posted)
    → after_post cycle rs p ≡ sent c
    → (p ≡ accepted) × (record cycle { executed_ids = record_executed cycle.executed_ids rs } ≡ c)
unfolding after_post
after_post-sent cycle c rs accepted e = (refl, ground arith)
after_post-sent cycle c rs bad_request e = cc
after_post-sent cycle c rs (failed m) e = cc

send_replies-inv :
    (post : List Reply → Posted) (cycle c : RequiresActionCycle) (rs : List Reply)
    → send_replies post cycle rs ≡ sent c
    → (foreign_reply cycle.requested_ids rs ≡ none) × (after_post cycle rs (post rs) ≡ sent c)
unfolding send_replies
send_replies-inv post cycle c rs e = ground arith

-- If a batch goes out, then every reply of it answers an id that the cycle requested, the server
-- accepted it, and the executed ids have grown by exactly the answered ones.
pub send_replies-sent :
    (post : List Reply → Posted) (cycle c : RequiresActionCycle) (rs : List Reply)
    → send_replies post cycle rs ≡ sent c
    → All (IsTo cycle.requested_ids) rs
      × (post rs ≡ accepted)
      × (c.requested_ids ≡ cycle.requested_ids)
      × ((k : String)
          → contains c.executed_ids k ≡ (contains cycle.executed_ids k || is_answered rs k))
send_replies-sent post cycle c rs e =
    let (clear, after) = send_replies-inv post cycle c rs e in
    let (ok, q) = after_post-sent cycle c rs (post rs) after in
    (
      foreign_reply-none cycle.requested_ids rs clear,
      ok,
      sym (ap (λ (x : RequiresActionCycle). x.requested_ids) q),
      λ k.
          ap (λ (x : RequiresActionCycle). contains x.executed_ids k) (sym q)
          ∙ contains-record_executed cycle.executed_ids rs k,
    )
