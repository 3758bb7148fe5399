-- ===== src/Managed/Cycle.antt =====
-- requires_action_cycle.py: one round in which the session waits for replies to some ids. The
-- cycle's own id, which only log lines read, is left out.
pub mod Resolve
pub mod Replies
pub mod Complete
use copass.Prelude.{
  String, Bool, true, false, ◌&&◌, Option, none, some, List, [], ◌∷◌, ◌==◌, if◌then◌else◌, contains,
  add,
}
use copass.Dict.{Dict, get, has, keys}
use copass.Sorted.{sorted}
use copass.Managed.Call.{PendingToolCall, Reply, reply_id}

-- `frozenset(ids)`, as the list of its members.
unfoldable pub add_all : List String → List String → List String
add_all xs [] = xs
add_all xs (k ∷ ks) = add_all (add xs k) ks

unfoldable pub frozenset : List String → List String
unfolding add_all
frozenset ids = add_all [] ids

pub record RequiresActionCycle : Type 0 where
  pub requested_ids : List String
  pub executed_ids : List String

unfoldable pub new_cycle : List String → RequiresActionCycle
unfolding frozenset
new_cycle event_ids = record { requested_ids = frozenset event_ids; executed_ids = [] }

unfoldable pub missing_ids : Dict PendingToolCall → List String → List String
missing_ids events [] = []
missing_ids events (k ∷ ks) =
    let rest = missing_ids events ks in if has events k then rest else k ∷ rest

-- `[events_by_id[k] for k in ks]`; `none` is a `KeyError`.
unfoldable pub resolve : Dict PendingToolCall → List String → Option (List PendingToolCall)
resolve events [] = some []
resolve events (k ∷ ks) =
    let rest = resolve events ks in
    elim (get events k) [
      | none ↦ none
      | some c ↦ elim rest [ none ↦ none | some cs ↦ some (c ∷ cs) ]
    ]

pub data Calls : Type 0 where
  resolved : List PendingToolCall → Calls
  missing_pending : (missing known : List String) → Calls
  key_error : Calls

abbrev pub or_key_error : Option (List PendingToolCall) → Calls
or_key_error none = key_error
or_key_error (some cs) = resolved cs

unfoldable pub calls_of : List String → Dict PendingToolCall → List String → Calls
calls_of [] events ids = or_key_error (resolve events (sorted ids))
calls_of (k ∷ ks) events ids = missing_pending (k ∷ ks) (keys events)

-- `calls`
unfoldable pub calls : RequiresActionCycle → Dict PendingToolCall → Calls
unfolding missing_ids resolve calls_of
calls cycle events = calls_of (missing_ids events cycle.requested_ids) events cycle.requested_ids

-- The first loop of `send_replies`: the id of a reply that is not of this cycle.
unfoldable pub foreign_reply : List String → List Reply → Option String
foreign_reply ids [] = none
foreign_reply ids (r ∷ rs) =
    let rest = foreign_reply ids rs in
    elim (reply_id r) [
      | none ↦ some "None"
      | some rid ↦ if contains ids rid then rest else some rid
    ]

-- Its second loop.
unfoldable pub record_executed : List String → List Reply → List String
record_executed ids [] = ids
record_executed ids (r ∷ rs) = elim (reply_id r) [
  | none ↦ record_executed ids rs
  | some rid ↦ record_executed (add ids rid) rs
]

-- What `events.send` answers: it accepts the batch, refuses it as malformed, or fails otherwise.
pub data Posted : Type 0 where
  accepted bad_request : Posted
  failed : String → Posted

pub data Sent : Type 0 where
  sent : RequiresActionCycle → Sent
  out_of_cycle_reply : String → Sent
  refused : Sent
  post_failed : String → Sent

unfoldable pub after_post : RequiresActionCycle → List Reply → Posted → Sent
unfolding record_executed
after_post cycle replies accepted =
    sent (record cycle { executed_ids = record_executed cycle.executed_ids replies })
after_post cycle replies bad_request = refused
after_post cycle replies (failed e) = post_failed e

-- `send_replies`, over what the server answers to this batch.
unfoldable pub send_replies : (List Reply → Posted) → RequiresActionCycle → List Reply → Sent
unfolding foreign_reply after_post
send_replies post cycle replies = elim (foreign_reply cycle.requested_ids replies) [
  | some rid ↦ out_of_cycle_reply rid
  | none ↦ after_post cycle replies (post replies)
]

unfoldable pub covers : List String → List String → Bool
covers xs [] = true
covers xs (k ∷ ks) = contains xs k && covers xs ks

unfoldable pub is_cycle_complete : RequiresActionCycle → Bool
unfolding covers
is_cycle_complete cycle = covers cycle.executed_ids cycle.requested_ids
