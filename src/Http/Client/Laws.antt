-- ===== src/Http/Client/Laws.antt =====
-- What a request carries, and when a response is an error that is retried.
use Prim.Native.String.{◌++◌ as text_append}
use copass.Prelude.{
  ℕ, suc, ◌≤◌, leb, sym, inl, inr, ◌<◌, String, ◌≡◌, refl, ◌∙◌, Bool, true, false, ◌||◌, Option,
  none, some, [], ◌∷◌, ◌++◌, ◌==◌, arith, if◌then◌else◌, or_else,
}
use Prim.Native.Nat.{◌/◌, ◌%◌}
use copass.Dict.{Dict, get, has, put}
use copass.Dict.Laws.{get-put, has-get}
use copass.Http.Retry.{
  Message, Outcome, returns, raises, is_digit, matches_5xx, matches_any, network_tokens, search_in,
  is_retryable,
}
use copass.Text.{codes}
use copass.Http.Retry.Attempts.{retry_with_backoff-Spec, waits}
use copass.Http.Client.{
  SessionContext, RequestOptions, content_type_of, with_content_type, with_session_token, update,
  build_headers, api_error, error_text, decimal, Error, HttpClient, Wire, Response, RequestContext,
  Result, build_context, wire_of, do_request, read_response, request,
}

-- The last value that a dictionary literal with two parts gives a key, over what was there before.
abbrev pub or_before : Option String → Option String → Option String
or_before (some v) o = some v
or_before none o = o

unfoldable pub last_of : Dict String → String → Option String
last_of [] k = none
last_of ((j, v) ∷ d) k = or_before (last_of d k) (if j == k then some v else none)

or_before-some : (o : Option String) (x : String) → or_before o (some x) ≡ some (or_else o x)
or_before-some (some v) x = refl
or_before-some none x = refl

get-update :
    (d e : Dict String) (k : String) → get (update d e) k ≡ or_before (last_of e k) (get d k)
unfolding update last_of
get-update d [] k = refl
get-update d ((j, v) ∷ e) k = ground (arith, get-update (put d j v) e k, get-put d j v k)

get-with_content_type :
    (opts : RequestOptions) (d : Dict String) (k : String)
    → ("Content-Type" == k) ≡ false
    → get (with_content_type opts d) k ≡ get d k
unfolding with_content_type
get-with_content_type opts d k h = ground (arith, get-put d "Content-Type" (content_type_of opts) k)

get-with_session_token :
    (o : Option String) (d : Dict String) (k : String)
    → ("X-Encryption-Token" == k) ≡ false
    → get (with_session_token o d) k ≡ get d k
unfolding with_session_token
get-with_session_token none d k h = refl
get-with_session_token (some t) d k h = ground (arith, get-put d "X-Encryption-Token" t k)

get-with_session_token-own :
    (o : Option String) (d : Dict String) (t : String)
    → o ≡ some t
    → (t == "") ≡ false
    → get (with_session_token o d) "X-Encryption-Token" ≡ some t
unfolding with_session_token
get-with_session_token-own none d t e h = absurd (cc)
get-with_session_token-own (some x) d t e h =
    ground (arith, get-put d "X-Encryption-Token" x "X-Encryption-Token")

abbrev has_type : Dict String → Bool
has_type d = has d "Content-Type" || has d "content-type"

has_type-with_content_type :
    (opts : RequestOptions) (d : Dict String) → has_type (with_content_type opts d) ≡ true
unfolding with_content_type
has_type-with_content_type opts d = ground (
  arith,
  has-get (put d "Content-Type" (content_type_of opts)) "Content-Type",
  get-put d "Content-Type" (content_type_of opts) "Content-Type",
)

has_type-with_session_token :
    (o : Option String) (d : Dict String)
    → has_type d ≡ true
    → has_type (with_session_token o d) ≡ true
unfolding with_session_token
has_type-with_session_token none d h = h
has_type-with_session_token (some t) d h = ground (
  arith,
  has-get (put d "X-Encryption-Token" t) "Content-Type",
  has-get (put d "X-Encryption-Token" t) "content-type",
  has-get d "Content-Type",
  has-get d "content-type",
  get-put d "X-Encryption-Token" t "Content-Type",
  get-put d "X-Encryption-Token" t "content-type",
)

-- The session's credentials in the headers: the bearer token, unless the caller's own headers set
-- `Authorization`; the session token, if it is there and not empty, whatever the caller's headers
-- say; and always a content type, in one of two spellings.
pub build_headers-lem :
    (session : SessionContext) (opts : RequestOptions)
    → let headers = build_headers session opts in
      (get headers "Authorization"
        ≡ some (
            or_else
              (last_of opts.headers "Authorization")
              (text_append "Bearer " session.access_token)))
      × ((t : String)
          → session.session_token ≡ some t
          → (t == "") ≡ false
          → get headers "X-Encryption-Token" ≡ some t)
      × ((has headers "Content-Type" || has headers "content-type") ≡ true)
unfolding build_headers get
build_headers-lem session opts =
    let start : Dict String = ("Authorization", text_append "Bearer " session.access_token) ∷ [] in
    let base : Dict String = update start opts.headers in
    let typed : Dict String = with_content_type opts base in
    (
      get-with_session_token session.session_token typed "Authorization" refl
          ∙ (get-with_content_type opts base "Authorization" refl
              ∙ (get-update start opts.headers "Authorization"
                  ∙ or_before-some (last_of opts.headers "Authorization")
                      (text_append "Bearer " session.access_token))),
      λ t e h. get-with_session_token-own session.session_token typed t e h,
      has_type-with_session_token session.session_token typed
          (has_type-with_content_type opts base),
    )

search_in-head : (p : Message → Bool) (s : Message) → p s ≡ true → search_in p s ≡ true
unfolding search_in
search_in-head p [] h = h
search_in-head p (c ∷ s) h = rw h refl

search_in-append :
    (p : Message → Bool) (s t : Message) → search_in p t ≡ true → search_in p (s ++ t) ≡ true
unfolding search_in
search_in-append p [] t h = h
search_in-append p (c ∷ s) t h = ground (arith, search_in-append p s t h)

starts_5xx :
    (status : ℕ) (rest : Message)
    → 500 ≤ status
    → status < 600
    → matches_5xx (decimal status ++ rest) ≡ true
unfolding matches_5xx is_digit
starts_5xx status rest lo hi =
    let first : status / 100 % 10 ≡ 5 = omega arith in
    let second : status / 10 % 10 < 10 = omega arith in
    let third : status % 10 < 10 = omega arith in ground arith

-- A status of 500 to 599 is an error that is retried, whatever the reason phrase is.
pub server_error-is_retryable :
    (status : ℕ) (reason : Message)
    → 500 ≤ status
    → status < 600
    → is_retryable (error_text (api_error status reason)) ≡ true
unfolding is_retryable error_text
server_error-is_retryable status reason lo hi =
    let p : Message → Bool = λ s. matches_5xx s || matches_any network_tokens s in
    let rest : Message = decimal status ++ (32 ∷ reason) in
    search_in-append p (codes "API request failed: ") rest
      (search_in-head p rest (rw (starts_5xx status (32 ∷ reason) lo hi) refl))

do_request-server_error :
    (client : HttpClient) (ctx : RequestContext) (opts : RequestOptions)
    (o : Outcome Message Response) (r : Response)
    → o ≡ returns r
    → 500 ≤ r.status_code
    → do_request client ctx opts o ≡ raises (api_error r.status_code r.reason_phrase)
unfolding do_request read_response
do_request-server_error client ctx opts (raises m) r e lo = absurd (cc)
do_request-server_error client ctx opts (returns x) r e lo =
    let same : x ≡ r = cc in
    let large : leb 400 r.status_code ≡ true = ground arith in rw same (rw large refl)

returned_no_error :
    {o : Outcome Error Result} {status : ℕ} {reason : Message}
    → o ≡ raises (api_error status reason)
    → (a : Result) → ¬ (o ≡ returns a)
returned_no_error e a q = absurd (cc)

retried_error :
    {o : Outcome Error Result} {status : ℕ} {reason : Message}
    → o ≡ raises (api_error status reason)
    → 500 ≤ status
    → status < 600
    → (x : Error) → o ≡ raises x
    → ¬ (is_retryable (error_text x) ≡ false)
retried_error {o} {status} {reason} e lo hi x q n =
    let same : api_error status reason ≡ x = cc in
    let retried : is_retryable (error_text x) ≡ true =
      rw (sym same) (server_error-is_retryable status reason lo hi) in
    absurd (cc)

-- A server that answers every attempt with a status of 500 to 599 is asked as often as the
-- configuration allows, if it allows one attempt at all, with the strategy's delays in between.
pub request-server_error :
    (client : HttpClient) (session : SessionContext)
    (transport : ℕ → Wire → Outcome Message Response) (path : String) (opts : RequestOptions)
    → 0 < client.retry.max_attempts
    → ((attempt : ℕ) (wire : Wire)
        → (r : Response) × (transport attempt wire ≡ returns r)
          × (500 ≤ r.status_code)
          × (r.status_code < 600))
    → let sent = request client session transport path opts in
      (k : ℕ) × (suc k ≡ client.retry.max_attempts)
      × (sent.calls ≡ client.retry.max_attempts)
      × (sent.delays ≡ waits client.retry 0 k)
unfolding request
request-server_error client session transport path opts some_attempt fails =
    let ctx : RequestContext = build_context client session path opts in
    let wire : Wire = wire_of ctx opts in
    let fn : ℕ → Outcome Error Result =
      λ attempt. do_request client ctx opts (transport attempt wire) in
    let (k, last, sum, within, failed, called, waited, decides) =
      retry_with_backoff-Spec error_text client.retry fn some_attempt in
    let (r, answered, lo, hi) = fails last wire in
    let error : fn last ≡ raises (api_error r.status_code r.reason_phrase) =
      do_request-server_error client ctx opts (transport last wire) r answered lo in
    elim decides [
      | inl (a, q, v) ↦ absurd (returned_no_error error a q)
      | inr (x, q, inl n, v) ↦ absurd (retried_error error lo hi x q n)
      | inr (x, q, inr n, v) ↦ (k, omega (arith, n, sum), omega (arith, called, n, sum), waited)
    ]
