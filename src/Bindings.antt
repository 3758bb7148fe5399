-- ===== src/Bindings.antt =====
-- python/copass-anthropic-agents/src/copass_anthropic_agents/backends, provider_binding_registry.py
-- and in_memory_provider_binding_registry.py: the registry that keeps one provider binding per user,
-- agent and provider, under one lock per key. A task runs without a break between two awaits, so a
-- step is what one task does from one await to the next. Making a lock never suspends, as the guard
-- around it is free whenever a task asks for it. Which waiting task gets a free lock is left open.
pub mod Consistent
pub mod Once
mod Examples
use copass.Prelude.{
  ℕ, suc, String, Bool, ◌&&◌, Option, none, some, List, [], ◌∷◌, ◌==◌, eqb, leb, if◌then◌else◌,
  is_some,
}

pub record ProviderBinding : Type 0 where
  pub agent_id : String
  pub environment_id : String
  pub for_version : ℕ
  pub provisioned_at : String

pub record Key : Type 0 where
  pub user_id : String
  pub agent_id : String
  pub provider : String

unfoldable pub same_key : Key → Key → Bool
same_key a b = a.user_id == b.user_id && (a.agent_id == b.agent_id && a.provider == b.provider)

-- Where a task is in `get_or_provision`.
pub data Phase : Type 0 where
  idle : Phase
  waiting provisioning : (key : Key) (for_version : ℕ) → Phase
  returned : (key : Key) (for_version : ℕ) (binding : ProviderBinding) → Phase
  raised : (key : Key) (error : String) → Phase

-- The registry with its locks, the tasks that use it, and the number of bindings made for a key.
pub record Registry : Type 0 where
  pub bindings : Key → Option ProviderBinding
  pub holder : Key → Option ℕ
  pub phase : ℕ → Phase
  pub made : Key → ℕ

abbrev pub new_registry : Registry
new_registry = record { bindings = λ k. none; holder = λ k. none; phase = λ i. idle; made = λ k. 0 }

abbrev pub at_key {ℓ} : {A : Type ℓ} → (Key → A) → Key → A → Key → A
at_key f k a j = if same_key k j then a else f j

abbrev pub at_task : (ℕ → Phase) → ℕ → Phase → ℕ → Phase
at_task f i p j = if eqb i j then p else f j

-- `get_binding`: a binding of an older version is a miss.
unfoldable pub get_binding : Registry → Key → ℕ → Option ProviderBinding
get_binding s k for_version = elim (s.bindings k) [
  | none ↦ none
  | some b ↦ if leb for_version b.for_version then some b else none
]

-- With the lock: the stored binding is returned, and the lock given back, or provisioning begins.
unfoldable pub under_lock : Registry → ℕ → Key → ℕ → Registry
unfolding get_binding
under_lock s i k v = elim (get_binding s k v) [
  | some b ↦ record s { phase = at_task s.phase i (returned k v b) }
  | none ↦ record s {
    holder = at_key s.holder k (some i);
    phase = at_task s.phase i (provisioning k v);
  }
]

unfoldable pub wait : Registry → ℕ → Key → ℕ → Registry
wait s i k v = record s { phase = at_task s.phase i (waiting k v) }

-- A call of `get_or_provision` up to its first suspension.
unfoldable pub begin_call : Registry → ℕ → Key → ℕ → Phase → Option Registry
unfolding under_lock wait
begin_call s i k v idle = some (if is_some (s.holder k) then wait s i k v else under_lock s i k v)
begin_call s i k v _ = none

-- A waiting task gets the lock.
unfoldable pub acquire : Registry → ℕ → Phase → Option Registry
unfolding under_lock
acquire s i (waiting k v) = if is_some (s.holder k) then none else some (under_lock s i k v)
acquire s i _ = none

-- `provision` returns: its binding is stored, and the lock given back.
unfoldable pub store : Registry → ℕ → ProviderBinding → Phase → Option Registry
store s i b (provisioning k v) = some (record {
  bindings = at_key s.bindings k (some b);
  holder = at_key s.holder k none;
  phase = at_task s.phase i (returned k v b);
  made = at_key s.made k (suc (s.made k));
})
store s i b _ = none

-- `provision` raises, or the task is cancelled there or while it waits.
unfoldable pub give_up : Registry → ℕ → String → Phase → Option Registry
give_up s i e (provisioning k v) =
    some (record s { holder = at_key s.holder k none; phase = at_task s.phase i (raised k e) })
give_up s i e (waiting k v) = some (record s { phase = at_task s.phase i (raised k e) })
give_up s i e _ = none

pub data Action : Type 0 where
  call : (task : ℕ) (key : Key) (for_version : ℕ) → Action
  wake : (task : ℕ) → Action
  provisioned : (task : ℕ) → ProviderBinding → Action
  failed : (task : ℕ) → String → Action

-- One step, if the task can do it.
unfoldable pub step : Registry → Action → Option Registry
unfolding begin_call acquire store give_up
step s (call i k v) = begin_call s i k v (s.phase i)
step s (wake i) = acquire s i (s.phase i)
step s (provisioned i b) = store s i b (s.phase i)
step s (failed i e) = give_up s i e (s.phase i)

-- Steps in a row, in whatever order the tasks take them.
unfoldable pub steps : Registry → List Action → Option Registry
steps s [] = some s
steps s (a ∷ later) = elim (step s a) [ none ↦ none | some t ↦ steps t later ]
