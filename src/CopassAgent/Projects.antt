-- ===== src/CopassAgent/Projects.antt =====
-- managed_agent.py: the projects of an agent and of its window.
pub mod Made
use copass.Prelude.{
  ◌&&◌, ◌||◌, is_some, true, Bool, if◌then◌else◌, String, false, ◌≡◌, refl, ◌⊎◌, inl, inr, Option,
  none, some, ◌==◌, arith, Bool-cases, ap, eq_iff,
}
use copass.Recorder.{nonempty, ContextWindow}
use copass.Agents.Build.{BaseAgent, base_agent}
use copass.CopassAgent.{AgentWindow, Arguments, Agent, is_set, unify_projects, wire, new_agent}

abbrev pub first_set : Option String → Option String → Option String
first_set (some p) q = some p
first_set none q = q

-- The agent and the window have one project, which is that of the agent if it is given one, and else
-- that of the window, and the log stays.
pub record AreUnified (w : AgentWindow) (project kept : Option String) (v : AgentWindow)
    : Type 0 where
  pub agree : nonempty v.project_id ≡ nonempty kept
  pub of_one : nonempty kept ≡ first_set (nonempty project) (nonempty w.project_id)
  pub same_log : v.window ≡ w.window

-- The projects are both given, and are two.
abbrev pub AreTwo : AgentWindow → Option String → Type 0
AreTwo w project =
    (p : String) × (q : String) × (nonempty w.project_id ≡ some p)
    × (nonempty project ≡ some q)
    × (p == q ≡ false)

abbrev Cases : AgentWindow → Option String → Type 0
Cases w project =
    ((unify_projects (some w) project ≡ none) × AreTwo w project)
    ⊎ ((kept : Option String) × (v : AgentWindow) × (unify_projects (some w) project
          ≡ some (kept, some v))
        × AreUnified w project kept v)

cases :
    (given : Option String) (log : ContextWindow) (project : Option String)
    → Cases (record { project_id = given; window = log }) project
unfolding unify_projects
cases none log none = inr (_, _, refl, record { agree = refl; of_one = refl; same_log = refl })
cases none log (some q) = elim (Bool-cases (q == "")) [
  | inl e ↦ rw e (
      inr (
        _,
        _,
        refl,
        record { agree = ground (arith, e); of_one = ground (arith, e); same_log = refl },
      ))
  | inr e ↦
      rw e (inr (_, _, refl, record { agree = refl; of_one = ground (arith, e); same_log = refl }))
]
cases (some p) log none = elim (Bool-cases (p == "")) [
  | inl d ↦ rw d (
      inr (
        _,
        _,
        refl,
        record { agree = ground (arith, d); of_one = ground (arith, d); same_log = refl },
      ))
  | inr d ↦
      rw d (inr (_, _, refl, record { agree = refl; of_one = ground (arith, d); same_log = refl }))
]
cases (some p) log (some q) = elim (Bool-cases (p == "")) [
  | inl d ↦ elim (Bool-cases (q == "")) [
    | inl e ↦ rw d (
        rw e (
          inr (
            _,
            _,
            refl,
            record { agree = ground (arith, d, e); of_one = ground (arith, d, e); same_log = refl },
          )))
    | inr e ↦ rw d (
        rw e (
          inr
            (_, _, refl, record { agree = refl; of_one = ground (arith, d, e); same_log = refl })))
  ]
  | inr d ↦ elim (Bool-cases (q == "")) [
    | inl e ↦ rw d (
        rw e (
          inr
            (_, _, refl, record { agree = refl; of_one = ground (arith, d, e); same_log = refl })))
    | inr e ↦ elim (Bool-cases (p == q)) [
      | inl same ↦ rw d (
          rw e (
            rw same (
              inr (
                _,
                _,
                refl,
                record {
                  agree = ap (λ t. nonempty (some t)) ((eq_iff p q).0 same);
                  of_one = ground (arith, d, e);
                  same_log = refl;
                },
              ))))
      | inr two ↦
          rw d (rw e (rw two (inl (refl, (p, q, ground (arith, d), ground (arith, e), two)))))
    ]
  ]
]

-- Of the projects that an agent and its window are given, one that is there is kept for both, and
-- the log of the window stays as it is; it is refused exactly where two projects are given.
-- An empty text counts as no project.
pub unify_projects-Cases :
    (w : AgentWindow) (project : Option String)
    → ((unify_projects (some w) project ≡ none) × AreTwo w project)
      ⊎ ((kept : Option String) × (v : AgentWindow) × (unify_projects (some w) project
            ≡ some (kept, some v))
          × AreUnified w project kept v)
unify_projects-Cases w project = cases w.project_id w.window project
