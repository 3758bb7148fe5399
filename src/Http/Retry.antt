-- ===== src/Http/Retry.antt =====
-- retry.py (and `RetryConfig` of types.py): which errors are retried, and when. A message is the
-- list of its code points, and is taken to be ASCII, where the two patterns need no Unicode tables.
pub mod Attempts
use copass.Text.{codes}
use copass.Prelude.{
  ℕ, zero, suc, ◌+◌, ◌*◌, ◌^◌, ◌-◌, String, Bool, true, false, ◌&&◌, ◌||◌, List, [], ◌∷◌, ltb, leb,
  eqb, if◌then◌else◌,
}

abbrev pub Message : Type 0
Message = List ℕ

unfoldable pub is_digit : ℕ → Bool
is_digit c = leb 48 c && leb c 57

-- `re.IGNORECASE` on ASCII.
unfoldable pub lower : ℕ → ℕ
lower c = if leb 65 c && leb c 90 then c + 32 else c

-- A token, in lower case, at the start of a message.
unfoldable pub matches_token : Message → Message → Bool
unfolding lower
matches_token [] s = true
matches_token (t ∷ ts) [] = false
matches_token (t ∷ ts) (c ∷ s) = eqb t (lower c) && matches_token ts s

-- `5\d{2}` at the start of a message.
unfoldable pub matches_5xx : Message → Bool
unfolding is_digit
matches_5xx (a ∷ b ∷ c ∷ s) = eqb a 53 && (is_digit b && is_digit c)
matches_5xx _ = false

unfoldable pub matches_any : List Message → Message → Bool
unfolding matches_token
matches_any [] s = false
matches_any (t ∷ ts) s = matches_token t s || matches_any ts s

abbrev pub network_tokens : List Message
network_tokens =
    codes "fetch failed"
    ∷ codes "econnrefused"
    ∷ codes "enotfound"
    ∷ codes "etimedout"
    ∷ codes "econnreset"
    ∷ codes "connection"
    ∷ []

-- `pattern.search(message)`: a match somewhere in the message.
unfoldable pub search_in : (Message → Bool) → Message → Bool
search_in p [] = p []
search_in p (c ∷ s) = p (c ∷ s) || search_in p s

-- `_NETWORK_ERROR_PATTERN` and `_RETRYABLE_PATTERN`
unfoldable pub is_network_error : Message → Bool
unfolding search_in matches_any
is_network_error message = search_in (matches_any network_tokens) message

unfoldable pub is_retryable : Message → Bool
unfolding search_in matches_any matches_5xx
is_retryable message = search_in (λ s. matches_5xx s || matches_any network_tokens s) message

pub data BackoffStrategy : Type 0 where
  exponential linear fixed : BackoffStrategy

pub record RetryConfig : Type 0 where
  pub max_attempts : ℕ
  pub backoff_base_ms : ℕ
  pub backoff_strategy : BackoffStrategy

abbrev pub default_config : RetryConfig
default_config = record { max_attempts = 3; backoff_base_ms = 1000; backoff_strategy = exponential }

-- `_compute_delay_ms`
unfoldable pub compute_delay_ms : ℕ → BackoffStrategy → ℕ → ℕ
compute_delay_ms attempt exponential base_ms = 2 ^ attempt * base_ms
compute_delay_ms attempt linear base_ms = (attempt + 1) * base_ms
compute_delay_ms attempt fixed base_ms = base_ms

-- What one call of `fn` gives.
pub data Outcome {ℓ} (E A : Type ℓ) : Type ℓ where
  returns : A → Outcome E A
  raises : E → Outcome E A

-- How `retry_with_backoff` ends: with a value, with the exception of the last call, with a
-- `CopassNetworkError` whose cause it is, or on the assertion behind the loop.
pub data Ended {ℓ} (E A : Type ℓ) : Type ℓ where
  value : A → Ended E A
  raised : E → Ended E A
  network_error : E → Ended E A
  assertion_failed : Ended E A

pub record Retried {ℓ} (E A : Type ℓ) : Type ℓ where
  pub ended : Ended E A
  pub delays : List ℕ
  pub calls : ℕ

-- `text` is `str` on the exceptions.
module _ {ℓ} {E A : Type ℓ} (text : E → Message) where
  -- The exception that leaves the loop.
  unfoldable pub reraise : E → Ended E A
  unfolding is_network_error
  reraise e = if is_network_error (text e) then network_error e else raised e

  unfoldable pub stop_with : Ended E A → Retried E A
  stop_with e = record { ended = e; delays = []; calls = 1 }

  -- One round: `rest` is the loop from the next attempt on.
  unfoldable pub round : RetryConfig → ℕ → Outcome E A → Retried E A → Retried E A
  unfolding reraise stop_with compute_delay_ms is_retryable
  round cfg attempt (returns a) rest = stop_with (value a)
  round cfg attempt (raises e) rest =
      if is_retryable (text e) && ltb (attempt + 1) cfg.max_attempts
      then record {
        ended = rest.ended;
        delays = compute_delay_ms attempt cfg.backoff_strategy cfg.backoff_base_ms ∷ rest.delays;
        calls = suc rest.calls;
      }
      else stop_with (reraise e)

  -- The loop with some attempts left; `fn` gives what its call in each attempt gives.
  unfoldable pub retry_loop : RetryConfig → (ℕ → Outcome E A) → ℕ → ℕ → Retried E A
  unfolding round
  retry_loop cfg fn zero attempt = record { ended = assertion_failed; delays = []; calls = 0 }
  retry_loop cfg fn (suc left) attempt =
      let rest : Retried E A = retry_loop cfg fn left (suc attempt) in
      round cfg attempt (fn attempt) rest

  unfoldable pub retry_with_backoff : RetryConfig → (ℕ → Outcome E A) → Retried E A
  unfolding retry_loop
  retry_with_backoff cfg fn = retry_loop cfg fn cfg.max_attempts 0
