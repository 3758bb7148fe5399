-- ===== src/Managed/Cycle/Resolve.antt =====
-- requires_action_cycle.py: which calls a cycle resolves.
use copass.Prelude.{
  String, ◌≡◌, refl, ap, sym, ◌∙◌, true, false, some, List, [], ◌∷◌, map, arith, ◌==◌, eq_iff,
  contains, ◌⊎◌, inl, inr, Option-cases, Bool-cases,
}
use copass.Dict.{Dict, get, has, keys}
use copass.Dict.Laws.{has-get}
use copass.Sorted.{sorted, contains-sorted}
use copass.Managed.Call.{PendingToolCall, event_id}
use copass.Managed.Cycle.{
  RequiresActionCycle, missing_ids, resolve, Calls, resolved, missing_pending, calls_of, calls,
}

-- A buffer holds each call under the call's own event id.
pub record IsBuffer (events : Dict PendingToolCall) : Type 0 where
  pub at_id : (k : String) (c : PendingToolCall) → get events k ≡ some c → event_id c ≡ k

missing_ids-nil :
    (events : Dict PendingToolCall) (ids : List String) (k : String)
    → missing_ids events ids ≡ []
    → contains ids k ≡ true
    → has events k ≡ true
unfolding missing_ids
missing_ids-nil events [] k e h = cc
missing_ids-nil events (j ∷ ids) k e h = elim (Bool-cases (j == k)) [
  | inl q ↦ ground (arith, ap (has events) ((eq_iff j k).0 q))
  | inr q ↦ ground (arith, missing_ids-nil events ids k)
]

missing_ids-cons :
    (events : Dict PendingToolCall) (ids : List String) (k : String) (ks : List String)
    → missing_ids events ids ≡ k ∷ ks
    → (contains ids k ≡ true) × (has events k ≡ false)
unfolding missing_ids
missing_ids-cons events [] k ks e = cc
missing_ids-cons events (j ∷ ids) k ks e = elim (Bool-cases (has events j)) [
  | inl q ↦ ground (arith, missing_ids-cons events ids k ks)
  | inr q ↦
      let same : j ≡ k = ground arith in
      (ground (arith, eq_iff j k), ap (has events) (sym same) ∙ q)
]

resolve-cons :
    (events : Dict PendingToolCall) (k : String) (ks : List String) (c : PendingToolCall)
    (cs : List PendingToolCall)
    → get events k ≡ some c
    → resolve events ks ≡ some cs
    → resolve events (k ∷ ks) ≡ some (c ∷ cs)
unfolding resolve
resolve-cons events k ks c cs q e = ground arith

resolve-total :
    (events : Dict PendingToolCall) (ks : List String)
    → IsBuffer events
    → ((k : String) → contains ks k ≡ true → has events k ≡ true)
    → (cs : List PendingToolCall) × (resolve events ks ≡ some cs) × (map event_id cs ≡ ks)
unfolding resolve
resolve-total events [] b h = ([], refl, refl)
resolve-total events (k ∷ ks) b h =
    let (cs, e, m) = resolve-total events ks b (λ j q. h j (ground arith)) in
    elim (Option-cases (get events k)) [
      | inl q ↦ absurd (ground (arith, h k (ground (arith, eq_iff k k)), has-get events k))
      | inr (c, q) ↦ (c ∷ cs, resolve-cons events k ks c cs q e, cc (b.at_id k c q, m))
    ]

-- Every requested id is buffered, and the calls come in the sorted order of the ids.
abbrev pub Resolves : RequiresActionCycle → Dict PendingToolCall → Calls → Type 0
Resolves cycle events r =
    (cs : List PendingToolCall) × (r ≡ resolved cs)
    × (map event_id cs ≡ sorted cycle.requested_ids)
    × ((k : String) → contains cycle.requested_ids k ≡ true → has events k ≡ true)

-- Some requested id is not buffered.
abbrev pub Misses : RequiresActionCycle → Dict PendingToolCall → Calls → Type 0
Misses cycle events r =
    (k : String) × (ks : List String) × (r ≡ missing_pending (k ∷ ks) (keys events))
    × (contains cycle.requested_ids k ≡ true)
    × (has events k ≡ false)

calls_of-cases :
    (cycle : RequiresActionCycle) (events : Dict PendingToolCall) (missing : List String)
    → IsBuffer events
    → missing_ids events cycle.requested_ids ≡ missing
    → Resolves cycle events (calls_of missing events cycle.requested_ids)
      ⊎ Misses cycle events (calls_of missing events cycle.requested_ids)
unfolding calls_of
calls_of-cases cycle events [] b e =
    let buffered : (k : String) → contains cycle.requested_ids k ≡ true → has events k ≡ true =
      λ k. missing_ids-nil events cycle.requested_ids k e in
    let (cs, r, m) =
      resolve-total events (sorted cycle.requested_ids) b
        (λ k h. buffered k (sym (contains-sorted cycle.requested_ids k) ∙ h)) in
    inl (cs, rw r, m, buffered)
calls_of-cases cycle events (k ∷ ks) b e =
    let (asked, absent) = missing_ids-cons events cycle.requested_ids k ks e in
    inr (k, ks, refl, asked, absent)

-- From a buffer that holds each call under its own id, `calls` either resolves every requested id,
-- in the sorted order of the ids, or reports a requested id that is not buffered. The lookup that
-- follows the check never fails.
pub calls-cases :
    (cycle : RequiresActionCycle) (events : Dict PendingToolCall)
    → IsBuffer events
    → Resolves cycle events (calls cycle events) ⊎ Misses cycle events (calls cycle events)
unfolding calls
calls-cases cycle events b = calls_of-cases cycle events _ b refl

pub calls-resolved :
    (cycle : RequiresActionCycle) (events : Dict PendingToolCall) (cs : List PendingToolCall)
    → IsBuffer events
    → calls cycle events ≡ resolved cs
    → map event_id cs ≡ sorted cycle.requested_ids
calls-resolved cycle events cs b e = elim (calls-cases cycle events b) [
  | inl (ds, r, m, h) ↦ let same : cs ≡ ds = ground arith in ap (map event_id) same ∙ m
  | inr (k, ks, r, _, _) ↦ cc
]
