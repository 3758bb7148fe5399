-- ===== src/Connect/Polling.antt =====
-- connect_flow.py: how the polling ends, and that it does.
use Prim.Native.Nat.{◌/◌}
use copass.Prelude.{
  ℕ, zero, suc, ◌+◌, ◌*◌, ◌≤◌, String, ◌≡◌, refl, ap, sym, ◌∙◌, Bool, true, false, Option, none,
  some, List, [], ◌∷◌, ◌++◌, arith, ltb, contains, ◌⊎◌, inl, inr, Bool-cases, Option-cases, eq_iff,
}
use copass.Connect.{
  Connection, known_before, listens, Round, first_new, Verdict, found, denied, again, or_redirect,
  poll, FlowEnd, connected, authorization_denied, timed_out, conclude, poll_loop, run_connect_flow,
}

-- A connection of a list whose id is not known.
abbrev pub IsNew : List String → List Connection → Connection → Type 0
IsNew known cs c =
    ((before : List Connection) × (after : List Connection) × (cs ≡ before ++ c ∷ after))
    × ((id : String) × (c.source_id ≡ some id) × (contains known id ≡ false))

first_new-IsNew :
    (known : List String) (cs : List Connection) (c : Connection)
    → first_new known cs ≡ some c
    → IsNew known cs c
unfolding first_new
first_new-IsNew known [] c e = cc
first_new-IsNew known (d ∷ cs) c e = elim (Option-cases d.source_id) [
  | inl q ↦ absurd (ground arith)
  | inr (id, q) ↦ elim (Bool-cases (contains known id)) [
    | inl p ↦
        let ((before, after, s), new) = first_new-IsNew known cs c (ground arith) in
        ((d ∷ before, after, ap (λ l. d ∷ l) s), new)
    | inr p ↦
        let same : d ≡ c = ground arith in
        (
          ([], cs, ap (λ x. x ∷ cs) same),
          (id, ap (λ (x : Connection). x.source_id) (sym same) ∙ q, p),
        )
  ]
]

-- What the loop ended with, seen from the rounds it went through.
abbrev pub EndsWell : List String → Bool → (ℕ → Round) → FlowEnd → Type 0
EndsWell known listening rounds end =
    ((k : ℕ) × (cs : List Connection) × (c : Connection) × (end ≡ connected c)
      × ((rounds k).connections ≡ some cs)
      × IsNew known cs c)
    ⊎ ((k : ℕ) × (end ≡ authorization_denied)
        × (listening ≡ true)
        × ((rounds k).redirect ≡ some "error"))
    ⊎ (end ≡ timed_out)

or_redirect-denied :
    (listening : Bool) (redirect : Option String) (o : Option Connection)
    → or_redirect listening redirect o ≡ denied
    → (listening ≡ true) × (redirect ≡ some "error")
or_redirect-denied listening redirect (some c) e = cc
or_redirect-denied listening none none e = cc
or_redirect-denied listening (some outcome) none e =
    (ground arith, ap some (ground (arith, eq_iff outcome "error")))

or_redirect-found :
    (listening : Bool) (redirect : Option String) (o : Option Connection) (c : Connection)
    → or_redirect listening redirect o ≡ found c
    → o ≡ some c
or_redirect-found listening redirect (some d) c e = ap some (ground arith)
or_redirect-found listening none none c e = cc
or_redirect-found listening (some outcome) none c e = absurd (ground arith)

poll-found :
    (known : List String) (listening : Bool) (r : Round) (c : Connection)
    → poll known listening r ≡ found c
    → (cs : List Connection) × (r.connections ≡ some cs) × IsNew known cs c
unfolding poll
poll-found known listening r c e = elim (Option-cases r.connections) [
  | inl q ↦ absurd (cc (or_redirect-found listening r.redirect none c (ground arith)))
  | inr (cs, q) ↦ (
    cs,
    q,
    first_new-IsNew known cs c
        (or_redirect-found listening r.redirect (first_new known cs) c (ground arith)),
  )
]

poll-denied :
    (known : List String) (listening : Bool) (r : Round)
    → poll known listening r ≡ denied
    → (listening ≡ true) × (r.redirect ≡ some "error")
unfolding poll
poll-denied known listening r e = elim (Option-cases r.connections) [
  | inl q ↦ or_redirect-denied listening r.redirect none (ground arith)
  | inr (cs, q) ↦ or_redirect-denied listening r.redirect (first_new known cs) (ground arith)
]

concludes :
    (known : List String) (listening : Bool) (rounds : ℕ → Round) (i : ℕ) (v : Verdict)
    (rest : FlowEnd)
    → poll known listening (rounds i) ≡ v
    → EndsWell known listening rounds rest
    → EndsWell known listening rounds (conclude v rest)
concludes known listening rounds i (found c) rest e h =
    let (cs, q, new) = poll-found known listening (rounds i) c e in inl (i, cs, c, refl, q, new)
concludes known listening rounds i denied rest e h =
    let (l, q) = poll-denied known listening (rounds i) e in inr (inl (i, refl, l, q))
concludes known listening rounds i again rest e h = h

poll_loop-EndsWell :
    (known : List String) (listening : Bool) (rounds : ℕ → Round) (deadline fuel i now : ℕ)
    → deadline ≤ now + 2000 * fuel
    → EndsWell known listening rounds (poll_loop known listening rounds deadline fuel i now)
unfolding poll_loop
poll_loop-EndsWell known listening rounds deadline zero i now h =
    let late : ltb now deadline ≡ false = ground arith in rw late (inr (inr refl))
poll_loop-EndsWell known listening rounds deadline (suc fuel) i now h =
    elim (Bool-cases (ltb now deadline)) [
      | inl q ↦ rw q (
          concludes known listening rounds i _ _ refl (
            poll_loop-EndsWell known listening rounds deadline fuel (suc i)
              (now + (rounds i).took + 2000) (omega arith)))
      | inr q ↦ rw q (inr (inr refl))
    ]

-- The polling always comes to an end: with a connection that the answer of some round contains and
-- whose id is not in the snapshot, with a denial, which only a listening flow reports and only after
-- the redirect to the error address, or with a timeout.
pub run_connect_flow-EndsWell :
    (snapshot : Option (List Connection)) (success_uri error_uri : Option String)
    (rounds : ℕ → Round) (timeout_ms : ℕ)
    → EndsWell
        (known_before snapshot)
        (listens success_uri error_uri)
        rounds
        (run_connect_flow snapshot success_uri error_uri rounds timeout_ms)
unfolding run_connect_flow
run_connect_flow-EndsWell snapshot success_uri error_uri rounds timeout_ms =
    poll_loop-EndsWell (known_before snapshot) (listens success_uri error_uri) rounds timeout_ms
      (suc (timeout_ms / 2000)) 0 0 (omega arith)
