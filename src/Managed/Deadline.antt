-- ===== src/Managed/Deadline.antt =====
-- `ManagedAgentBackendV2.stream`: the total timeout around the generator of the turn. Time is in
-- the units of the policy; an event that arrives at the very end of the remaining time is delivered.
use copass.Prelude.{
  ℕ, ◌+◌, ◌-◌, ◌≤◌, String, ◌≡◌, refl, ap, Bool, false, none, List, [], ◌∷◌, ◌++◌, map, arith,
  if◌then◌else◌, leb, All, ◌⊎◌, inl, inr, Bool-cases,
}
use copass.Agents.Events.{AgentEvent, finish}

-- The inner generator and its caller: `pause` passes before the next event is asked for, and `took`
-- until the generator yields it, stops or raises.
pub data Inner : Type 0 where
  yields : (pause took : ℕ) → AgentEvent → Inner → Inner
  stops : (pause took : ℕ) → Inner
  raises : (pause took : ℕ) → String → Inner

pub data Close : Type 0 where
  complete timed_out : Close
  raised : String → Close

-- What came through: the events with their times, and how the loop was left.
pub record Through : Type 0 where
  pub delivered : List (ℕ × AgentEvent)
  pub close : Close

-- `wait_for(..., timeout=remaining)` at a time: the answer comes in time or not.
abbrev pub in_time : ℕ → ℕ → ℕ → Bool
in_time deadline now took = if leb deadline now then false else leb took (deadline - now)

abbrev pub deliver : ℕ → AgentEvent → Through → Through
deliver time e through = record through { delivered = (time, e) ∷ through.delivered }

abbrev pub cut : Through
cut = record { delivered = []; close = timed_out }

-- The loop, from a time.
unfoldable pub timed : ℕ → ℕ → Inner → Through
timed deadline now (yields pause took e rest) =
    let later : Through = timed deadline (now + pause + took) rest in
    if in_time deadline (now + pause) took then deliver (now + pause + took) e later else cut
timed deadline now (stops pause took) =
    if in_time deadline (now + pause) took then record { delivered = []; close = complete } else cut
timed deadline now (raises pause took error) =
    if in_time deadline (now + pause) took
    then record { delivered = []; close = raised error }
    else cut

abbrev pub times_out : Close → List AgentEvent
times_out timed_out = finish "policy_total_timeout" [] none ∷ []
times_out _ = []

-- What the caller gets, for a generator started at time 0.
unfoldable pub stream : ℕ → Inner → List AgentEvent
unfolding timed
stream total_timeout_s inner =
    let through : Through = timed total_timeout_s 0 inner in
    map (λ p. p.1) through.delivered ++ times_out through.close

unfoldable pub events_of : Inner → List AgentEvent
events_of (yields pause took e rest) = e ∷ events_of rest
events_of (stops pause took) = []
events_of (raises pause took error) = []

-- Nothing is delivered after the deadline.
pub timed-in_time :
    (deadline now : ℕ) (inner : Inner)
    → All (λ p. p.0 ≤ deadline) (timed deadline now inner).delivered
unfolding timed
timed-in_time deadline now (yields pause took e rest) =
    elim (Bool-cases (in_time deadline (now + pause) took)) [
      | inl q ↦ rw q (ground arith, timed-in_time deadline (now + pause + took) rest)
      | inr q ↦ rw q tt
    ]
timed-in_time deadline now (stops pause took) =
    elim (Bool-cases (in_time deadline (now + pause) took)) [ inl q ↦ rw q tt | inr q ↦ rw q tt ]
timed-in_time deadline now (raises pause took error) =
    elim (Bool-cases (in_time deadline (now + pause) took)) [ inl q ↦ rw q tt | inr q ↦ rw q tt ]

-- Whatever was delivered is a beginning of what the generator yields, and all of it unless cut.
abbrev pub IsBeginning : List AgentEvent → Through → Type 0
IsBeginning all through =
    (rest : List AgentEvent) × (all ≡ map (λ p. p.1) through.delivered ++ rest)
    × ((through.close ≡ timed_out) ⊎ (rest ≡ []))

timed-IsBeginning :
    (deadline now : ℕ) (inner : Inner) → IsBeginning (events_of inner) (timed deadline now inner)
unfolding timed events_of
timed-IsBeginning deadline now (yields pause took e rest) =
    elim (Bool-cases (in_time deadline (now + pause) took)) [
      | inl q ↦
          let (others, eq, c) = timed-IsBeginning deadline (now + pause + took) rest in
          rw q (others, ap (λ l. e ∷ l) eq, c)
      | inr q ↦ rw q (e ∷ events_of rest, refl, inl refl)
    ]
timed-IsBeginning deadline now (stops pause took) =
    elim (Bool-cases (in_time deadline (now + pause) took)) [
      | inl q ↦ rw q ([], refl, inr refl)
      | inr q ↦ rw q ([], refl, inl refl)
    ]
timed-IsBeginning deadline now (raises pause took error) =
    elim (Bool-cases (in_time deadline (now + pause) took)) [
      | inl q ↦ rw q ([], refl, inr refl)
      | inr q ↦ rw q ([], refl, inl refl)
    ]

abbrev timeout_event : AgentEvent
timeout_event = finish "policy_total_timeout" [] none

ending :
    (all es : List AgentEvent) (c : Close) (rest : List AgentEvent)
    → all ≡ es ++ rest
    → (c ≡ timed_out) ⊎ (rest ≡ [])
    → (es ++ times_out c ≡ all) ⊎ ((c ≡ timed_out) × (es ++ times_out c ≡ es ++ timeout_event ∷ []))
ending all es timed_out rest e h = inr (refl, refl)
ending all es complete rest e (inl q) = cc
ending all es complete rest e (inr q) = inl (rw (e, q))
ending all es (raised m) rest e (inl q) = cc
ending all es (raised m) rest e (inr q) = inl (rw (e, q))

-- No event reaches the caller after the deadline. The caller gets either all that the generator
-- yields, unchanged, or a beginning of it and then one final event that reports the timeout.
pub stream-cases :
    (total_timeout_s : ℕ) (inner : Inner)
    → let through = timed total_timeout_s 0 inner in
      let es = map (λ p. p.1) through.delivered in
      All (λ p. p.0 ≤ total_timeout_s) through.delivered
      × ((stream total_timeout_s inner ≡ events_of inner)
          ⊎ ((through.close ≡ timed_out)
              × (stream total_timeout_s inner ≡ es ++ finish "policy_total_timeout" [] none ∷ [])))
      × ((rest : List AgentEvent) × (events_of inner ≡ es ++ rest))
unfolding stream
stream-cases total inner =
    let (rest, e, h) = timed-IsBeginning total 0 inner in
    (timed-in_time total 0 inner, ending (events_of inner) _ _ rest e h, (rest, e))
