-- ===== src/Hermes/Stream/Retries.antt =====
-- hermes_agent_backend.py: which attempts `stream` makes, and what becomes of what they yield.
use mathlib.Core.Path.{subst}
use mathlib.Core.List.{append_assoc}
use copass.Prelude.{
  String, ℕ, zero, suc, ◌+◌, ◌≤◌, ◌≡◌, refl, ap, sym, ◌∙◌, true, false, Option, none, some, List,
  [], ◌∷◌, ◌++◌, arith, Bool-cases, Option-cases, inl, inr, ◌⊎◌, All, All,
}
use copass.Json.{Value}
use copass.Text.{Text}
use copass.Agents.Events.{AgentEvent}
use copass.Hermes.{HermesError, Response}
use copass.Hermes.Stream.{
  Ending, stream_once, is_retryable, max_retries, max_delay_ms, delay_ms, Streamed, stop,
  after_attempt, attempts, stream,
}

module _ (once : ℕ → Ending) where
  -- Some attempts in a row failed with errors that are retried.
  abbrev pub Failed : ℕ → ℕ → Type 0
  Failed attempt zero = Unit
  Failed attempt (suc k) =
      ((e : HermesError) × ((once attempt).1 ≡ some e) × (is_retryable e ≡ true))
      × Failed (suc attempt) k

  -- What these attempts have yielded.
  unfoldable pub yielded : ℕ → ℕ → List AgentEvent
  yielded attempt zero = []
  yielded attempt (suc k) = (once attempt).0.out ++ yielded (suc attempt) k

  unfoldable pub delays : ℕ → ℕ → List ℕ
  delays attempt zero = []
  delays attempt (suc k) = delay_ms attempt ∷ delays (suc attempt) k

  -- The attempt that decides ended without an error, or with one that is not retried, or was the last.
  abbrev pub Decides : ℕ → ℕ → Type 0
  Decides left last =
      ((once last).1 ≡ none)
      ⊎ ((e : HermesError) × ((once last).1 ≡ some e) × (is_retryable e ≡ false))
      ⊎ ((e : HermesError) × ((once last).1 ≡ some e) × (left ≡ 0))

  -- `k` failed attempts and one that decides; `left` is the number of retries left at the latter.
  abbrev pub Spec : ℕ → ℕ → Streamed → Type 0
  Spec retries attempt r =
      (k : ℕ) × (left : ℕ) × (last : ℕ) × (last ≡ attempt + k)
      × (k + left ≡ retries)
      × Failed attempt k
      × Decides left last
      × (r.requests ≡ suc k)
      × (r.error ≡ (once last).1)
      × (r.out ≡ yielded attempt k ++ (once last).0.out)
      × (r.delays ≡ delays attempt k)

  last-Decides : (attempt : ℕ) → Decides 0 attempt
  last-Decides attempt = elim (Option-cases (once attempt).1) [
    | inl q ↦ inl q
    | inr (e, q) ↦ inr (inr (e, q, refl))
  ]

  stop-Spec :
      (retries attempt : ℕ) → Decides retries attempt → Spec retries attempt (stop (once attempt))
  unfolding yielded delays
  stop-Spec retries attempt d =
      (0, retries, attempt, omega arith, omega arith, tt, d, refl, refl, refl, refl)

  after_attempt-Spec :
      (left attempt : ℕ) (o : Option HermesError)
      → (once attempt).1 ≡ o
      → Spec left (suc attempt) (attempts once left (suc attempt))
      → Spec
          (suc left)
          attempt
          (after_attempt attempt ((once attempt).0, o) (attempts once left (suc attempt)))
  unfolding after_attempt yielded delays
  after_attempt-Spec left attempt none q rest =
      (0, suc left, attempt, omega arith, omega arith, tt, inl q, refl, sym q, refl, refl)
  after_attempt-Spec left attempt (some e) q rest = elim (Bool-cases (is_retryable e)) [
    | inl p ↦
        let (k, l, last, sum, budget, failed, decides, made, error, out, waited) = rest in
        rw p (
          suc k,
          l,
          last,
          omega (arith, sum),
          omega (arith, budget),
          ((e, q, p), failed),
          decides,
          ap suc made,
          error,
          ap (λ es. (once attempt).0.out ++ es) out ∙ sym (append_assoc (once attempt).0.out _ _),
          ap (λ ds. delay_ms attempt ∷ ds) waited,
        )
    | inr p ↦ rw p (
      0,
      suc left,
      attempt,
      omega arith,
      omega arith,
      tt,
      inr (inl (e, q, p)),
      refl,
      sym q,
      refl,
      refl,
    )
  ]

  attempts-Spec : (retries attempt : ℕ) → Spec retries attempt (attempts once retries attempt)
  unfolding attempts
  attempts-Spec zero attempt = stop-Spec 0 attempt (last-Decides attempt)
  attempts-Spec (suc left) attempt =
      after_attempt-Spec left attempt (once attempt).1 refl (attempts-Spec left (suc attempt))

  delays-bounded : (attempt k : ℕ) → All (λ d. d ≤ max_delay_ms) (delays attempt k)
  unfolding delays delay_ms
  delays-bounded attempt zero = tt
  delays-bounded attempt (suc k) = (ground arith, delays-bounded (suc attempt) k)

-- Whatever the server gives in each attempt: `stream` makes some attempts that fail with errors that
-- are retried, at most two of them, and then one that ends without an error, or with one that is not
-- retried, or is the third; the error of that one is the error of `stream`. It yields all that each
-- attempt has yielded, the failed ones included, one behind the other, and waits behind each failed
-- attempt for at most a bound that doubles with the attempt and is two seconds at most.
pub stream-Spec :
    (loads : Text → Option Value) (print : Value → String) (responses : ℕ → Response)
    → let once : ℕ → Ending = λ n. stream_once loads print (responses n) in
      let r = stream loads print responses in
      Spec once max_retries 0 r × All (λ d. d ≤ max_delay_ms) r.delays
unfolding stream
stream-Spec loads print responses =
    let once : ℕ → Ending = λ n. stream_once loads print (responses n) in
    let spec = attempts-Spec once max_retries 0 in
    let (k, l, last, sum, budget, failed, decides, made, error, out, waited) = spec in
    (spec, subst (All (λ d. d ≤ max_delay_ms)) (sym waited) (delays-bounded once 0 k))
