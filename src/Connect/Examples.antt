-- ===== src/Connect/Examples.antt =====
-- A flow whose connection appears in its second round, and the theorem at it.
use copass.Prelude.{ℕ, zero, suc, ◌≡◌, refl, none, some, [], ◌∷◌}
use copass.Json.{end}
use copass.Connect.{
  Connection, known_before, listens, Round, connected, authorization_denied, timed_out,
  run_connect_flow,
}
use copass.Connect.Polling.{EndsWell, run_connect_flow-EndsWell}

abbrev old : Connection
old = record { source_id = some "old"; fields = end }

abbrev fresh : Connection
fresh = record { source_id = some "new"; fields = end }

abbrev rounds : ℕ → Round
rounds zero = record { connections = some (old ∷ []); redirect = none; took = 10 }
rounds (suc i) = record {
  connections = some (old ∷ fresh ∷ []);
  redirect = some "success";
  took = 10;
}

flow_finds : run_connect_flow (some (old ∷ [])) none none rounds 4000 ≡ connected fresh
unfolding run_connect_flow
flow_finds = refl

-- If the snapshot raises, a connection that was there before is taken for a new one.
flow_without_snapshot : run_connect_flow none none none rounds 4000 ≡ connected old
unfolding run_connect_flow
flow_without_snapshot = refl

abbrev refusing : ℕ → Round
refusing i = record { connections = none; redirect = some "error"; took = 0 }

flow_denied : run_connect_flow (some []) none (some "e") refusing 4000 ≡ authorization_denied
unfolding run_connect_flow
flow_denied = refl

-- With both addresses from the caller there is no listener, and the flow polls to its deadline.
flow_deaf : run_connect_flow (some []) (some "s") (some "e") refusing 4000 ≡ timed_out
unfolding run_connect_flow
flow_deaf = refl

run_connect_flow-EndsWell_example :
    EndsWell
      (known_before (some (old ∷ [])))
      (listens none none)
      rounds
      (run_connect_flow (some (old ∷ [])) none none rounds 4000)
run_connect_flow-EndsWell_example =
    run_connect_flow-EndsWell (some (old ∷ [])) none none rounds 4000
