-- ===== src/Http/Examples.antt =====
-- Concrete retries and requests, and the theorems at them.
use copass.Prelude.{
  ℕ, zero, suc, String, ◌≡◌, refl, true, false, none, some, [], ◌∷◌, ◌||◌, ◌==◌, or_else, arith,
}
use Prim.Native.String.{◌++◌ as text_append}
use copass.Dict.{get, has, put}
use copass.Http.Retry.{
  Message, default_config, is_network_error, Outcome, returns, raises, value, retry_with_backoff,
}
use copass.Text.{codes}
use copass.Http.Retry.Attempts.{Spec, retry_with_backoff-Spec, waits}
use copass.Http.Client.{
  SessionContext, RequestOptions, HttpClient, Wire, Response, build_headers, request,
}
use copass.Http.Client.Laws.{last_of, build_headers-lem, request-server_error}

-- Fails twice with an error that is retried, then returns.
abbrev flaky : ℕ → Outcome Message ℕ
flaky zero = raises (codes "API request failed: 503 busy")
flaky (suc zero) = raises (codes "ECONNRESET by peer")
flaky _ = returns 7

retry_flaky :
    retry_with_backoff (λ m. m) default_config flaky
    ≡ record { ended = value 7; delays = 1000 ∷ 2000 ∷ []; calls = 3 }
unfolding retry_with_backoff
retry_flaky = refl

-- A client error is not retried, and the text of a reset connection is a network error.
retry_refused :
    (retry_with_backoff {A = ℕ}
      (λ m. m)
      default_config
      (λ k. raises (codes "API request failed: 404 none"))).calls
    ≡ 1
unfolding retry_with_backoff
retry_refused = refl

reset_is_network_error : is_network_error (codes "ECONNRESET by peer") ≡ true
unfolding is_network_error
reset_is_network_error = refl

retry_with_backoff-Spec_example :
    Spec (λ m. m) default_config flaky 0 (retry_with_backoff (λ m. m) default_config flaky)
retry_with_backoff-Spec_example =
    retry_with_backoff-Spec (λ m. m) default_config flaky (omega arith)

abbrev session : SessionContext
session = record { access_token = "t"; session_token = some "k" }

abbrev opts : RequestOptions
opts = record {
  method = "GET";
  body = none;
  query = [];
  headers = ("X-Trace", "1") ∷ [];
  raw_body = none;
  raw_response = false;
}

abbrev client : HttpClient
client = record {
  api_url = "https://host";
  retry = default_config;
  on_request = [];
  on_response = [];
  query_text = λ q. "";
}

headers_out :
    (get (build_headers session opts) "Authorization" ≡ some (text_append "Bearer " "t"))
    × (get (build_headers session opts) "Content-Type" ≡ some "application/json")
unfolding build_headers get has put
headers_out = (refl, refl)

build_headers-lem_example :
    (get (build_headers session opts) "Authorization"
      ≡ some (or_else (last_of opts.headers "Authorization") (text_append "Bearer " "t")))
    × ((t : String)
        → some "k" ≡ some t
        → (t == "") ≡ false
        → get (build_headers session opts) "X-Encryption-Token" ≡ some t)
    × ((has (build_headers session opts) "Content-Type"
          || has (build_headers session opts) "content-type")
        ≡ true)
build_headers-lem_example = build_headers-lem session opts

abbrev busy : Response
busy = record { status_code = 503; reason_phrase = codes "busy"; content = []; parsed = none }

abbrev always_busy : ℕ → Wire → Outcome Message Response
always_busy attempt wire = returns busy

request-server_error_example :
    (k : ℕ) × (suc k ≡ 3)
    × ((request client session always_busy "/x" opts).calls ≡ 3)
    × ((request client session always_busy "/x" opts).delays ≡ waits default_config 0 k)
request-server_error_example =
    request-server_error client session always_busy "/x" opts (omega arith)
      (λ attempt wire. (busy, refl, omega arith, omega arith))
