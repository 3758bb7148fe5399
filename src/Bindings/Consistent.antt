-- ===== src/Bindings/Consistent.antt =====
-- in_memory_provider_binding_registry.py: what holds of the registry at every moment, and the changes
-- that keep it.
use copass.Prelude.{
  ℕ, suc, ◌≤◌, String, ◌≡◌, refl, ap, true, false, none, some, arith, eq_iff, leb, if◌then◌else◌,
  is_some, ◌⊎◌, inl, inr, Bool-cases, Option-cases,
}
use copass.Bindings.{
  ProviderBinding, Key, same_key, waiting, provisioning, returned, raised, Registry, new_registry,
  at_key, at_task, get_binding, under_lock, wait,
}

same_key-eq : (a b : Key) → same_key a b ≡ true → a ≡ b
unfolding same_key
same_key-eq a b h =
    let user : a.user_id ≡ b.user_id = ground (arith, eq_iff a.user_id b.user_id) in
    let agent : a.agent_id ≡ b.agent_id = ground (arith, eq_iff a.agent_id b.agent_id) in
    let provider : a.provider ≡ b.provider = ground (arith, eq_iff a.provider b.provider) in
    cc (user, agent, provider)

same_key_self : (a : Key) → same_key a a ≡ true
unfolding same_key
same_key_self a =
    ground (
      arith,
      eq_iff a.user_id a.user_id,
      eq_iff a.agent_id a.agent_id,
      eq_iff a.provider a.provider,
    )

same_key_cases :
    (a b : Key) → ((same_key a b ≡ true) × (a ≡ b)) ⊎ ((same_key a b ≡ false) × ¬ (a ≡ b))
same_key_cases a b = elim (Bool-cases (same_key a b)) [
  | inl q ↦ inl (q, same_key-eq a b q)
  | inr q ↦ inr (q, λ e. absurd (cc (q, same_key_self a, ap (same_key a) e)))
]

-- The version that the tasks of a registry ask for.
module _ (v : ℕ) where
  -- What holds at every moment, if all calls ask for the version: who provisions a key holds its
  -- lock, and the key has no binding; a stored binding is current, and is the only one ever made
  -- for its key; and whatever a call returned is what is stored.
  pub record IsConsistent (s : Registry) : Type 0 where
    pub holds : (i : ℕ) (k : Key) (w : ℕ) → s.phase i ≡ provisioning k w → s.holder k ≡ some i
    pub fresh : (i : ℕ) (k : Key) (w : ℕ) → s.phase i ≡ provisioning k w → s.bindings k ≡ none
    pub asked : (i : ℕ) (k : Key) (w : ℕ) → s.phase i ≡ waiting k w → w ≡ v
    pub current : (k : Key) (b : ProviderBinding) → s.bindings k ≡ some b → v ≤ b.for_version
    pub counted : (k : Key) → s.made k ≡ (if is_some (s.bindings k) then 1 else 0)
    pub result :
        (i : ℕ) (k : Key) (w : ℕ) (b : ProviderBinding)
        → s.phase i ≡ returned k w b
        → s.bindings k ≡ some b

  pub new_registry-IsConsistent : IsConsistent new_registry
  new_registry-IsConsistent = record {
    holds = λ i k w e. cc;
    fresh = λ i k w e. cc;
    asked = λ i k w e. cc;
    current = λ k b e. cc;
    counted = λ k. refl;
    result = λ i k w b e. cc;
  }

  -- A phase that is new for one task and the same for the others.
  returns_stored :
      (s : Registry) (i : ℕ) (k : Key) (b : ProviderBinding)
      → IsConsistent s
      → s.bindings k ≡ some b
      → IsConsistent (record s { phase = at_task s.phase i (returned k v b) })
  returns_stored s i k b h stored = record {
    holds = λ j l w e. ground (arith, h.holds j l w);
    fresh = λ j l w e. ground (arith, h.fresh j l w);
    asked = λ j l w e. ground (arith, h.asked j l w);
    current = h.current;
    counted = h.counted;
    result = λ j l w c e. ground (arith, h.result j l w c, ap s.bindings);
  }

  pub waits_in_line :
      (s : Registry) (i : ℕ) (k : Key) → IsConsistent s → IsConsistent (wait s i k v)
  unfolding wait
  waits_in_line s i k h = record {
    holds = λ j l w e. ground (arith, h.holds j l w);
    fresh = λ j l w e. ground (arith, h.fresh j l w);
    asked = λ j l w e. ground (arith, h.asked j l w);
    current = h.current;
    counted = h.counted;
    result = λ j l w c e. ground (arith, h.result j l w c);
  }

  begins_provisioning :
      (s : Registry) (i : ℕ) (k : Key)
      → IsConsistent s
      → s.holder k ≡ none
      → s.bindings k ≡ none
      → IsConsistent (record s {
        holder = at_key s.holder k (some i);
        phase = at_task s.phase i (provisioning k v);
      })
  begins_provisioning s i k h free missing = record {
    holds = λ j l w e. elim (same_key_cases k l) [
      | inl (q, same) ↦ ground (arith, h.holds j l w, ap s.holder same)
      | inr (q, other) ↦ ground (arith, h.holds j l w)
    ];
    fresh = λ j l w e. elim (same_key_cases k l) [
      | inl (q, same) ↦ ground (arith, h.fresh j l w, ap s.bindings same)
      | inr (q, other) ↦ ground (arith, h.fresh j l w)
    ];
    asked = λ j l w e. ground (arith, h.asked j l w);
    current = h.current;
    counted = h.counted;
    result = λ j l w c e. ground (arith, h.result j l w c);
  }

  pub under_lock-IsConsistent :
      (s : Registry) (i : ℕ) (k : Key)
      → IsConsistent s
      → s.holder k ≡ none
      → IsConsistent (under_lock s i k v)
  unfolding under_lock get_binding
  under_lock-IsConsistent s i k h free = elim (Option-cases (s.bindings k)) [
    | inl e ↦ rw (e, under_lock) (begins_provisioning s i k h free e)
    | inr (b, e) ↦
        let current : leb v b.for_version ≡ true = ground (arith, h.current k b e) in
        rw (e, under_lock) (rw current (returns_stored s i k b h e))
  ]

  pub stores_binding :
      (s : Registry) (i : ℕ) (b : ProviderBinding) (k : Key) (w : ℕ)
      → IsConsistent s
      → s.phase i ≡ provisioning k w
      → v ≤ b.for_version
      → IsConsistent (record {
        bindings = at_key s.bindings k (some b);
        holder = at_key s.holder k none;
        phase = at_task s.phase i (returned k w b);
        made = at_key s.made k (suc (s.made k));
      })
  stores_binding s i b k w h at honest =
      let empty : s.bindings k ≡ none = h.fresh i k w at in
      let mine : s.holder k ≡ some i = h.holds i k w at in
      record {
        holds = λ j l u e. elim (same_key_cases k l) [
          | inl (q, same) ↦ absurd (ground (arith, h.holds j l u, ap s.holder same))
          | inr (q, other) ↦ ground (arith, h.holds j l u)
        ];
        fresh = λ j l u e. elim (same_key_cases k l) [
          | inl (q, same) ↦ absurd (ground (arith, h.holds j l u, ap s.holder same))
          | inr (q, other) ↦ ground (arith, h.fresh j l u)
        ];
        asked = λ j l u e. ground (arith, h.asked j l u);
        current = λ l c e. ground (arith, h.current l c);
        counted = λ l. elim (same_key_cases k l) [
          | inl (q, same) ↦ ground (arith, h.counted k, h.counted l)
          | inr (q, other) ↦ ground (arith, h.counted l)
        ];
        result = λ j l u c e. elim (same_key_cases k l) [
          | inl (q, same) ↦ ground (arith, h.result j l u c, ap s.bindings same)
          | inr (q, other) ↦ ground (arith, h.result j l u c)
        ];
      }

  pub gives_up :
      (s : Registry) (i : ℕ) (e : String) (k : Key) (w : ℕ)
      → IsConsistent s
      → s.phase i ≡ provisioning k w
      → IsConsistent
          (record s { holder = at_key s.holder k none; phase = at_task s.phase i (raised k e) })
  gives_up s i e k w h at =
      let mine : s.holder k ≡ some i = h.holds i k w at in
      record {
        holds = λ j l u q. elim (same_key_cases k l) [
          | inl (p, same) ↦ absurd (ground (arith, h.holds j l u, ap s.holder same))
          | inr (p, other) ↦ ground (arith, h.holds j l u)
        ];
        fresh = λ j l u q. ground (arith, h.fresh j l u);
        asked = λ j l u q. ground (arith, h.asked j l u);
        current = h.current;
        counted = h.counted;
        result = λ j l u c q. ground (arith, h.result j l u c);
      }

  pub leaves_line :
      (s : Registry) (i : ℕ) (e : String) (k : Key)
      → IsConsistent s
      → IsConsistent (record s { phase = at_task s.phase i (raised k e) })
  leaves_line s i e k h = record {
    holds = λ j l u q. ground (arith, h.holds j l u);
    fresh = λ j l u q. ground (arith, h.fresh j l u);
    asked = λ j l u q. ground (arith, h.asked j l u);
    current = h.current;
    counted = h.counted;
    result = λ j l u c q. ground (arith, h.result j l u c);
  }
