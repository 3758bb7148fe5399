-- ===== src/Bindings/Once.antt =====
-- in_memory_provider_binding_registry.py: a key is provisioned once, whatever the interleaving.
use mathlib.Core.Path.{subst}
use copass.Prelude.{
  ℕ, ◌≤◌, String, ◌≡◌, refl, ap, sym, ◌∙◌, some, List, [], ◌∷◌, arith, All, inl, inr, Option-cases,
}
use copass.Bindings.{
  ProviderBinding, Key, Phase, idle, waiting, provisioning, returned, Registry, new_registry,
  under_lock, wait, begin_call, acquire, store, give_up, Action, call, wake, provisioned, failed,
  step, steps,
}
use copass.Bindings.Consistent.{
  IsConsistent, new_registry-IsConsistent, under_lock-IsConsistent, waits_in_line, stores_binding,
  gives_up, leaves_line,
}

-- The version that the tasks of a registry ask for.
module _ (v : ℕ) where
  -- All calls ask for the version, and what is provisioned for a call is of that version or later.
  abbrev pub IsHonest : Action → Type 0
  IsHonest (call i k w) = w ≡ v
  IsHonest (provisioned i b) = v ≤ b.for_version
  IsHonest (wake i) = Unit
  IsHonest (failed i e) = Unit

  begin_call-IsConsistent :
      (s t : Registry) (i : ℕ) (k : Key) (p : Phase)
      → IsConsistent v s
      → begin_call s i k v p ≡ some t
      → IsConsistent v t
  unfolding begin_call
  begin_call-IsConsistent s t i k idle h e = elim (Option-cases (s.holder k)) [
    | inl q ↦
        let same : under_lock s i k v ≡ t = ground arith in
        subst (IsConsistent v) same (under_lock-IsConsistent v s i k h q)
    | inr (j, q) ↦
        let same : wait s i k v ≡ t = ground arith in
        subst (IsConsistent v) same (waits_in_line v s i k h)
  ]
  begin_call-IsConsistent s t i k _ h e = cc

  acquire-IsConsistent :
      (s t : Registry) (i : ℕ) (p : Phase)
      → IsConsistent v s
      → s.phase i ≡ p
      → acquire s i p ≡ some t
      → IsConsistent v t
  unfolding acquire
  acquire-IsConsistent s t i (waiting k w) h at e = elim (Option-cases (s.holder k)) [
    | inl q ↦
        let same : under_lock s i k v ≡ t = ground (arith, h.asked i k w at) in
        subst (IsConsistent v) same (under_lock-IsConsistent v s i k h q)
    | inr (j, q) ↦ absurd (ground arith)
  ]
  acquire-IsConsistent s t i _ h at e = cc

  store-IsConsistent :
      (s t : Registry) (i : ℕ) (b : ProviderBinding) (p : Phase)
      → IsConsistent v s
      → v ≤ b.for_version
      → s.phase i ≡ p
      → store s i b p ≡ some t
      → IsConsistent v t
  unfolding store
  store-IsConsistent s t i b (provisioning k w) h honest at e =
      subst (IsConsistent v) (cc e) (stores_binding v s i b k w h at honest)
  store-IsConsistent s t i b _ h honest at e = cc

  give_up-IsConsistent :
      (s t : Registry) (i : ℕ) (m : String) (p : Phase)
      → IsConsistent v s
      → s.phase i ≡ p
      → give_up s i m p ≡ some t
      → IsConsistent v t
  unfolding give_up
  give_up-IsConsistent s t i m (provisioning k w) h at e =
      subst (IsConsistent v) (cc e) (gives_up v s i m k w h at)
  give_up-IsConsistent s t i m (waiting k w) h at e =
      subst (IsConsistent v) (cc e) (leaves_line v s i m k h)
  give_up-IsConsistent s t i m _ h at e = cc

  step-IsConsistent :
      (s t : Registry) (a : Action)
      → IsConsistent v s
      → IsHonest a
      → step s a ≡ some t
      → IsConsistent v t
  unfolding step
  step-IsConsistent s t (call i k w) h honest e =
      begin_call-IsConsistent s t i k (s.phase i) h
        (ap (λ (x : ℕ). begin_call s i k x (s.phase i)) (sym honest) ∙ e)
  step-IsConsistent s t (wake i) h honest e = acquire-IsConsistent s t i (s.phase i) h refl e
  step-IsConsistent s t (provisioned i b) h honest e =
      store-IsConsistent s t i b (s.phase i) h honest refl e
  step-IsConsistent s t (failed i m) h honest e = give_up-IsConsistent s t i m (s.phase i) h refl e

  steps-IsConsistent :
      (s t : Registry) (actions : List Action)
      → IsConsistent v s
      → All IsHonest actions
      → steps s actions ≡ some t
      → IsConsistent v t
  unfolding steps
  steps-IsConsistent s t [] h honest e = subst (IsConsistent v) (cc e) h
  steps-IsConsistent s t (a ∷ later) h honest e = elim (Option-cases (step s a)) [
    | inl q ↦ absurd (ground arith)
    | inr (u, q) ↦
        steps-IsConsistent u t later (step-IsConsistent s u a h honest.0 q) honest.1 (ground arith)
  ]

  -- From a new registry, if all calls ask for one version and provisioning gives bindings of that
  -- version or later, then in every interleaving of the tasks and at every moment: two tasks that
  -- provision the same key are the same task; at most one binding is ever made for a key; and all
  -- calls for a key that have returned have returned the same binding.
  pub steps-new_registry :
      (actions : List Action) (t : Registry)
      → All IsHonest actions
      → steps new_registry actions ≡ some t
      → ((i j : ℕ) (k : Key) (w x : ℕ)
          → t.phase i ≡ provisioning k w
          → t.phase j ≡ provisioning k x
          → i ≡ j)
        × ((k : Key) → t.made k ≤ 1)
        × ((i j : ℕ) (k : Key) (w x : ℕ) (b c : ProviderBinding)
            → t.phase i ≡ returned k w b
            → t.phase j ≡ returned k x c
            → b ≡ c)
  steps-new_registry actions t honest e =
      let h : IsConsistent v t =
        steps-IsConsistent new_registry t actions (new_registry-IsConsistent v) honest e in
      (
        λ i j k w x p q. ground (arith, h.holds i k w p, h.holds j k x q),
        λ k. ground (arith, h.counted k),
        λ i j k w x b c p q. ground (arith, h.result i k w b p, h.result j k x c q),
      )
