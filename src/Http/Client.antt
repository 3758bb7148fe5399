-- ===== src/Http/Client.antt =====
-- http_client.py (with auth/types.py and errors.py): how a request is put together, sent and read.
-- `httpx` is the function `transport`, from the number of the attempt and what is sent to what comes
-- back, and `query_text`, which prints query parameters. Timings are left out.
pub mod Laws
use Prim.Native.String.{◌++◌ as text_append}
use copass.Prelude.{
  ℕ, ◌+◌, ◌-◌, ◌*◌, String, Bool, true, false, not, ◌&&◌, ◌||◌, Option, none, some, List, [], ◌∷◌,
  ◌++◌, ◌==◌, leb, eqb, if◌then◌else◌, or_else, is_some,
}
use Prim.Native.Nat.{◌/◌, ◌%◌}
use copass.Dict.{Dict, get, has, put}
use copass.Json.{Value}
use copass.Http.Retry.{
  Message, RetryConfig, default_config, Outcome, returns, raises, Retried, retry_with_backoff,
}
use copass.Text.{codes}

pub record SessionContext : Type 0 where
  pub access_token : String
  pub session_token : Option String

pub record RequestOptions : Type 0 where
  pub method : String
  pub body : Option Value
  pub query : Dict (Option String)
  pub headers : Dict String
  pub raw_body : Option (List ℕ)
  pub raw_response : Bool

-- The text of a body, `"<binary>"`, or none: what a middleware sees as the body.
pub data Shown : Type 0 where
  no_body binary : Shown
  json_text : Value → Shown

-- What is sent as the content: raw bytes, the JSON text of a value, or nothing.
pub data Content : Type 0 where
  nothing : Content
  bytes : List ℕ → Content
  json : Value → Content

pub record RequestContext : Type 0 where
  pub method : String
  pub path : String
  pub url : String
  pub headers : Dict String
  pub body : Shown

-- `{**d, **e}`
unfoldable pub update : Dict String → Dict String → Dict String
update d [] = d
update d ((k, v) ∷ e) = update (put d k v) e

abbrev pub content_type_of : RequestOptions → String
content_type_of opts =
    if is_some opts.raw_body then "application/octet-stream" else "application/json"

unfoldable pub with_content_type : RequestOptions → Dict String → Dict String
with_content_type opts headers =
    if not (has headers "Content-Type") && not (has headers "content-type")
    then put headers "Content-Type" (content_type_of opts)
    else headers

unfoldable pub with_session_token : Option String → Dict String → Dict String
with_session_token none headers = headers
with_session_token (some token) headers =
    if token == "" then headers else put headers "X-Encryption-Token" token

unfoldable pub build_headers : SessionContext → RequestOptions → Dict String
unfolding update with_content_type with_session_token
build_headers session opts = with_session_token session.session_token (
    with_content_type opts
      (update (("Authorization", text_append "Bearer " session.access_token) ∷ []) opts.headers))

unfoldable pub non_null : Dict (Option String) → Dict String
non_null [] = []
non_null ((k, v) ∷ q) = let rest = non_null q in elim v [ none ↦ rest | some s ↦ (k, s) ∷ rest ]

unfoldable pub build_url : (Dict String → String) → String → String → Dict (Option String) → String
unfolding non_null
build_url query_text api_url path query = elim (non_null query) [
  | [] ↦ text_append api_url path
  | p ∷ ps ↦ text_append (text_append api_url path) (text_append "?" (query_text (p ∷ ps)))
]

unfoldable pub content_of : RequestOptions → Content
content_of opts = elim opts.raw_body [
  | some raw ↦ bytes raw
  | none ↦ elim opts.body [ none ↦ nothing | some v ↦ json v ]
]

unfoldable pub shown_body : RequestOptions → Shown
shown_body opts = elim opts.raw_body [
  | some raw ↦ binary
  | none ↦ elim opts.body [ none ↦ no_body | some v ↦ json_text v ]
]

-- The request middlewares run in order, and each may change the context.
unfoldable pub run_middlewares :
    List (RequestContext → RequestContext) → RequestContext → RequestContext
run_middlewares [] ctx = ctx
run_middlewares (m ∷ ms) ctx = run_middlewares ms (m ctx)

-- What `httpx` is asked to send.
pub record Wire : Type 0 where
  pub method : String
  pub url : String
  pub headers : Dict String
  pub content : Content

pub record HttpClient : Type 0 where
  pub api_url : String
  pub retry : RetryConfig
  pub on_request : List (RequestContext → RequestContext)
  pub on_response : List (RequestContext → ℕ → Option Message)
  pub query_text : Dict String → String

unfoldable pub build_context :
    HttpClient → SessionContext → String → RequestOptions → RequestContext
unfolding build_headers build_url shown_body run_middlewares
build_context client session path opts = run_middlewares client.on_request (record {
  method = opts.method;
  path = path;
  url = build_url client.query_text client.api_url path opts.query;
  headers = build_headers session opts;
  body = shown_body opts;
})

unfoldable pub wire_of : RequestContext → RequestOptions → Wire
unfolding content_of
wire_of ctx opts = record {
  method = ctx.method;
  url = ctx.url;
  headers = ctx.headers;
  content = content_of opts;
}

-- A response. The body is empty or not, and is JSON or not.
pub record Response : Type 0 where
  pub status_code : ℕ
  pub reason_phrase : Message
  pub content : List ℕ
  pub parsed : Option Value

-- A `CopassApiError` with its status, and any other exception with its text.
pub data Error : Type 0 where
  api_error : (status : ℕ) (reason : Message) → Error
  other : Message → Error

-- Three decimal digits, as every status code has.
abbrev pub decimal : ℕ → Message
decimal n = (48 + n / 100 % 10) ∷ (48 + n / 10 % 10) ∷ (48 + n % 10) ∷ []

unfoldable pub error_text : Error → Message
error_text (api_error status reason) =
    codes "API request failed: " ++ (decimal status ++ (32 ∷ reason))
error_text (other message) = message

pub data Result : Type 0 where
  no_content : Result
  raw : List ℕ → Result
  parsed_json : Value → Result

unfoldable pub run_response_middlewares :
    List (RequestContext → ℕ → Option Message) → RequestContext → ℕ → Option Message
run_response_middlewares [] ctx status = none
run_response_middlewares (m ∷ ms) ctx status = elim (m ctx status) [
  | some message ↦ some message
  | none ↦ run_response_middlewares ms ctx status
]

abbrev pub is_empty : List ℕ → Bool
is_empty [] = true
is_empty (c ∷ cs) = false

unfoldable pub read_result : Bool → Response → Outcome Error Result
read_result raw_response r =
    if raw_response
    then returns (raw r.content)
    else if eqb r.status_code 204 || is_empty r.content
    then returns no_content
    else elim r.parsed [
      | none ↦ raises (other (codes "response is not JSON"))
      | some v ↦ returns (parsed_json v)
    ]

unfoldable pub read_response :
    HttpClient → RequestContext → RequestOptions → Response → Outcome Error Result
unfolding run_response_middlewares read_result
read_response client ctx opts r =
    if leb 400 r.status_code
    then raises (api_error r.status_code r.reason_phrase)
    else elim (run_response_middlewares client.on_response ctx r.status_code) [
      | some message ↦ raises (other message)
      | none ↦ read_result opts.raw_response r
    ]

-- `_do_request` in one attempt, from what `httpx` gives.
unfoldable pub do_request :
    HttpClient → RequestContext → RequestOptions → Outcome Message Response → Outcome Error Result
unfolding read_response
do_request client ctx opts (raises message) = raises (other message)
do_request client ctx opts (returns r) = read_response client ctx opts r

-- `request`
unfoldable pub request :
    HttpClient
    → SessionContext
    → (ℕ → Wire → Outcome Message Response)
    → String
    → RequestOptions
    → Retried Error Result
unfolding build_context wire_of do_request error_text
request client session transport path opts =
    let ctx : RequestContext = build_context client session path opts in
    retry_with_backoff error_text client.retry
      λ attempt. do_request client ctx opts (transport attempt (wire_of ctx opts))
