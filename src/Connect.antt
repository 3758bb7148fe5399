-- ===== src/Connect.antt =====
-- python/copass-agent-router/src/copass_agent_router/connect_flow.py: the flow that connects an
-- integration, and polls until a new connection appears. Time is in milliseconds. The API, the
-- browser and the redirect listener are parameters: a round has what they give in it.
pub mod Polling
mod Examples
use copass.Prelude.{
  ℕ, zero, suc, ◌+◌, ◌*◌, String, Bool, true, false, ◌&&◌, ◌||◌, not, Option, none, some, List, [],
  ◌∷◌, ◌==◌, ltb, if◌then◌else◌, is_some, contains, add,
}
use Prim.Native.Nat.{◌/◌}
use copass.Json.{Fields}

-- A connection of the API; without a `source_id`, looking it up raises.
pub record Connection : Type 0 where
  pub source_id : Option String
  pub fields : Fields

abbrev pub with_id : Option String → Option (List String) → Option (List String)
with_id none ids = none
with_id (some id) none = none
with_id (some id) (some ids) = some (add ids id)

-- `{c["source_id"] for c in items}`; `none` is a `KeyError`.
unfoldable pub source_ids : List Connection → Option (List String)
source_ids [] = some []
source_ids (c ∷ cs) = with_id c.source_id (source_ids cs)

-- The snapshot before the flow; one that raises counts as an empty one.
unfoldable pub known_before : Option (List Connection) → List String
unfolding source_ids
known_before none = []
known_before (some items) = elim (source_ids items) [ none ↦ [] | some ids ↦ ids ]

-- The listener is started unless the caller has both redirect addresses.
abbrev pub listens : Option String → Option String → Bool
listens success_uri error_uri = not (is_some success_uri) || not (is_some error_uri)

-- What a round of the loop meets: the answer of `reconcile`, none if it raises, the result of the
-- redirect task if that is done, and the time it takes beside the sleep.
pub record Round : Type 0 where
  pub connections : Option (List Connection)
  pub redirect : Option String
  pub took : ℕ

-- The first connection that is not known; a missing id ends the search, as its exception does.
unfoldable pub first_new : List String → List Connection → Option Connection
first_new known [] = none
first_new known (c ∷ cs) =
    let rest = first_new known cs in
    elim c.source_id [ none ↦ none | some id ↦ if contains known id then rest else some c ]

pub data Verdict : Type 0 where
  found : Connection → Verdict
  denied again : Verdict

abbrev pub or_redirect : Bool → Option String → Option Connection → Verdict
or_redirect listening redirect (some c) = found c
or_redirect listening none none = again
or_redirect listening (some outcome) none =
    if listening && outcome == "error" then denied else again

unfoldable pub poll : List String → Bool → Round → Verdict
unfolding first_new
poll known listening r = elim r.connections [
  | none ↦ or_redirect listening r.redirect none
  | some cs ↦ or_redirect listening r.redirect (first_new known cs)
]

pub data FlowEnd : Type 0 where
  connected : Connection → FlowEnd
  authorization_denied timed_out out_of_fuel : FlowEnd

abbrev pub conclude : Verdict → FlowEnd → FlowEnd
conclude (found c) rest = connected c
conclude denied rest = authorization_denied
conclude again rest = rest

-- The loop from a round on, at a time; each round sleeps for two seconds.
unfoldable pub poll_loop : List String → Bool → (ℕ → Round) → ℕ → ℕ → ℕ → ℕ → FlowEnd
unfolding poll
poll_loop known listening rounds deadline zero i now =
    if ltb now deadline then out_of_fuel else timed_out
poll_loop known listening rounds deadline (suc fuel) i now =
    let later =
      poll_loop known listening rounds deadline fuel (suc i) (now + (rounds i).took + 2000) in
    if ltb now deadline then conclude (poll known listening (rounds i)) later else timed_out

-- The loop of `run_connect_flow`, which starts at time 0.
unfoldable pub run_connect_flow :
    Option (List Connection) → Option String → Option String → (ℕ → Round) → ℕ → FlowEnd
unfolding known_before poll_loop
run_connect_flow snapshot success_uri error_uri rounds timeout_ms =
    poll_loop (known_before snapshot) (listens success_uri error_uri) rounds timeout_ms
      (suc (timeout_ms / 2000)) 0 0
