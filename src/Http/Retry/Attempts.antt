-- ===== src/Http/Retry/Attempts.antt =====
-- What `retry_with_backoff` promises: how many calls, which waits, and whose outcome.
use copass.Prelude.{
  ℕ, zero, suc, ◌+◌, ◌<◌, ◌≡◌, refl, ap, true, false, ◌&&◌, List, [], ◌∷◌, arith, ltb, ◌⊎◌, inl,
  inr, Bool-cases,
}
use copass.Http.Retry.{
  Message, is_retryable, RetryConfig, compute_delay_ms, Outcome, returns, raises, Ended, value,
  Retried, reraise, round, retry_loop, retry_with_backoff,
}

-- The waits after some failed attempts.
unfoldable pub waits : RetryConfig → ℕ → ℕ → List ℕ
waits cfg attempt zero = []
waits cfg attempt (suc k) =
    compute_delay_ms attempt cfg.backoff_strategy cfg.backoff_base_ms ∷ waits cfg (suc attempt) k

-- Where a round does not go on, its error is not retried, or its attempt is the last one.
is_last :
    (message : Message) (left attempt max : ℕ)
    → suc left + attempt ≡ max
    → (is_retryable message && ltb (attempt + 1) max) ≡ false
    → (is_retryable message ≡ false) ⊎ (suc attempt ≡ max)
is_last message left attempt max m q = ground arith

module _ {ℓ} {E A : Type ℓ} (text : E → Message) where
  -- Some attempts in a row raised errors that are retried.
  abbrev pub Failed : (ℕ → Outcome E A) → ℕ → ℕ → Type ℓ
  Failed fn attempt zero = Unit
  Failed fn attempt (suc k) =
      ((e : E) × (fn attempt ≡ raises e) × (is_retryable (text e) ≡ true))
      × Failed fn (suc attempt) k

  -- The attempt that ends the loop returned a value, or raised an error that is not retried, or was
  -- the last one.
  abbrev pub Decides : RetryConfig → ℕ → Outcome E A → Ended E A → Type ℓ
  Decides cfg attempt outcome ended =
      ((a : A) × (outcome ≡ returns a) × (ended ≡ value a))
      ⊎ ((e : E) × (outcome ≡ raises e)
          × ((is_retryable (text e) ≡ false) ⊎ (suc attempt ≡ cfg.max_attempts))
          × (ended ≡ reraise text e))

  abbrev pub Spec : RetryConfig → (ℕ → Outcome E A) → ℕ → Retried E A → Type ℓ
  Spec cfg fn attempt r =
      (k : ℕ) × (last : ℕ) × (last ≡ attempt + k)
      × (last < cfg.max_attempts)
      × Failed fn attempt k
      × (r.calls ≡ suc k)
      × (r.delays ≡ waits cfg attempt k)
      × Decides cfg last (fn last) r.ended

  round-Spec :
      (cfg : RetryConfig) (fn : ℕ → Outcome E A) (left attempt : ℕ) (o : Outcome E A)
      → fn attempt ≡ o
      → suc left + attempt ≡ cfg.max_attempts
      → (suc attempt < cfg.max_attempts
          → Spec cfg fn (suc attempt) (retry_loop text cfg fn left (suc attempt)))
      → Spec cfg fn attempt (round text cfg attempt o (retry_loop text cfg fn left (suc attempt)))
  unfolding round waits
  round-Spec cfg fn left attempt (returns a) e m rest =
      (0, attempt, omega arith, omega arith, tt, refl, refl, inl (a, e, refl))
  round-Spec cfg fn left attempt (raises x) e m rest =
      elim (Bool-cases (is_retryable (text x) && ltb (attempt + 1) cfg.max_attempts)) [
        | inl q ↦
            let (k, last, sum, within, failed, called, waited, decides) = rest (ground arith) in
            rw q (
              suc k,
              last,
              omega (arith, sum),
              within,
              ((x, e, ground arith), failed),
              ap suc called,
              ap (λ ds. compute_delay_ms attempt cfg.backoff_strategy cfg.backoff_base_ms ∷ ds)
                  waited,
              decides,
            )
        | inr q ↦ rw q (
          0,
          attempt,
          omega arith,
          omega arith,
          tt,
          refl,
          refl,
          inr (x, e, is_last (text x) left attempt cfg.max_attempts m q, refl),
        )
      ]

  retry_loop-Spec :
      (cfg : RetryConfig) (fn : ℕ → Outcome E A) (left attempt : ℕ)
      → suc left + attempt ≡ cfg.max_attempts
      → Spec cfg fn attempt (retry_loop text cfg fn (suc left) attempt)
  unfolding retry_loop
  retry_loop-Spec cfg fn zero attempt m =
      round-Spec cfg fn zero attempt (fn attempt) refl m (λ h. absurd (omega arith))
  retry_loop-Spec cfg fn (suc left) attempt m =
      round-Spec cfg fn (suc left) attempt (fn attempt) refl m
        (λ h. retry_loop-Spec cfg fn left (suc attempt) (omega arith))

  allowed :
      (cfg : RetryConfig) (fn : ℕ → Outcome E A) (n : ℕ)
      → n ≡ cfg.max_attempts
      → 0 < n
      → Spec cfg fn 0 (retry_loop text cfg fn n 0)
  allowed cfg fn zero e h = absurd (omega arith)
  allowed cfg fn (suc n) e h = retry_loop-Spec cfg fn n 0 (omega arith)

  -- With at least one attempt allowed, the loop makes between one and `max_attempts` calls. Every
  -- call before the last raised an error that is retried, the waits between the calls are the
  -- strategy's delays in order, and the last call decides: its value is returned, or its error,
  -- which is not retried or came in the last attempt, leaves the loop, as a network error exactly
  -- if its message says so. The assertion behind the loop is never reached.
  pub retry_with_backoff-Spec :
      (cfg : RetryConfig) (fn : ℕ → Outcome E A)
      → 0 < cfg.max_attempts
      → Spec cfg fn 0 (retry_with_backoff text cfg fn)
  unfolding retry_with_backoff
  retry_with_backoff-Spec cfg fn h = allowed cfg fn cfg.max_attempts refl h
