-- ===== src/Managed/Examples/Ending.antt =====
-- Results and timeouts of concrete turns, and the theorems at them.
use copass.Prelude.{◌≡◌, refl, none, some, List, [], ◌∷◌, ◌++◌, map, All, ◌⊎◌, ◌≤◌}
use copass.Agents.Events.{AgentEvent, text_delta, tool_call, finish}
use copass.Managed.Stream.Order.{called}
use copass.Managed.Result.{run, run-lem, texts, join}
use copass.Managed.Deadline.{
  Inner, yields, stops, timed, timed_out, stream, events_of, stream-cases,
}
use copass.Managed.Examples.{arguments}

abbrev events : List AgentEvent
events = tool_call "b" "echo" arguments ∷ text_delta "do" ∷ text_delta "ne" ∷ []

run-lem_example :
    ((run (events ++ finish "end_turn" [] (some "s") ∷ [])).final_text ≡ join (texts events))
    × (map (λ e. e.call_id) (run (events ++ finish "end_turn" [] (some "s") ∷ [])).tool_calls
        ≡ called events)
    × ((run (events ++ finish "end_turn" [] (some "s") ∷ [])).stop_reason ≡ "end_turn")
    × ((run (events ++ finish "end_turn" [] (some "s") ∷ [])).usage ≡ [])
    × ((run (events ++ finish "end_turn" [] (some "s") ∷ [])).session_id ≡ some "s")
run-lem_example = run-lem events "end_turn" [] (some "s")

-- A turn that has yielded its final event at time 2, and is still closing at time 5.
abbrev late : Inner
late = yields 0 1 (text_delta "hi") (yields 0 1 (finish "end_turn" [] (some "s")) (stops 0 4))

stream-late :
    stream 5 late
    ≡ text_delta "hi" ∷ finish "end_turn" [] (some "s") ∷ finish "policy_total_timeout" [] none ∷ []
unfolding stream
stream-late = refl

stream-cases_example :
    All (λ p. p.0 ≤ 5) (timed 5 0 late).delivered
    × ((stream 5 late ≡ events_of late)
        ⊎ (((timed 5 0 late).close ≡ timed_out)
            × (stream 5 late
                ≡ map (λ p. p.1) (timed 5 0 late).delivered
                  ++ finish "policy_total_timeout" [] none ∷ [])))
    × ((rest : List AgentEvent) × (events_of late
          ≡ map (λ p. p.1) (timed 5 0 late).delivered ++ rest))
stream-cases_example = stream-cases 5 late
