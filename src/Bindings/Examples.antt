-- ===== src/Bindings/Examples.antt =====
-- Two tasks that ask for one key at once, and the theorem at them.
use copass.Prelude.{ℕ, ◌≤◌, ◌≡◌, refl, none, some, List, [], ◌∷◌, arith, Option, false, is_some}
use copass.Bindings.{
  step, ProviderBinding, Key, same_key, Phase, idle, provisioning, returned, Registry, new_registry,
  Action, call, wake, provisioned, steps, get_binding,
}
use copass.Bindings.Once.{steps-new_registry}

abbrev key : Key
key = record { user_id = "u"; agent_id = "a"; provider = "p" }

abbrev made_by_one : ProviderBinding
made_by_one = record {
  agent_id = "agent_1";
  environment_id = "env_1";
  for_version = 1;
  provisioned_at = "2026-01-01T00:00:00Z";
}

-- The first task provisions while the second waits; the second then finds the binding.
abbrev race : List Action
race = call 1 key 1 ∷ call 2 key 1 ∷ provisioned 1 made_by_one ∷ wake 2 ∷ []

abbrev after_race : Option Registry
after_race = steps new_registry race

abbrev phase_in : Option Registry → ℕ → Phase
phase_in none i = idle
phase_in (some s) i = s.phase i

race_result : phase_in after_race 2 ≡ returned key 1 made_by_one
unfolding steps step same_key get_binding
race_result = refl

abbrev registry_of : Option Registry → Registry
registry_of none = new_registry
registry_of (some s) = s

race-steps : steps new_registry race ≡ some (registry_of after_race)
unfolding steps step same_key get_binding
race-steps = refl

steps-new_registry_example :
    ((i j : ℕ) (k : Key) (w x : ℕ)
      → (registry_of after_race).phase i ≡ provisioning k w
      → (registry_of after_race).phase j ≡ provisioning k x
      → i ≡ j)
    × ((k : Key) → (registry_of after_race).made k ≤ 1)
    × ((i j : ℕ) (k : Key) (w x : ℕ) (b c : ProviderBinding)
        → (registry_of after_race).phase i ≡ returned k w b
        → (registry_of after_race).phase j ≡ returned k x c
        → b ≡ c)
steps-new_registry_example =
    steps-new_registry 1 race (registry_of after_race) (refl, (refl, (omega arith, (tt, tt))))
      race-steps

-- A waiting task that is woken while the lock is held cannot go on.
no_step : is_some (steps new_registry (call 1 key 1 ∷ call 2 key 1 ∷ wake 2 ∷ [])) ≡ false
unfolding steps step same_key get_binding
no_step = refl
