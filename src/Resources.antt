-- ===== src/Resources.antt =====
-- python/copass-core/src/copass_core/resources: what the methods of the API's resources ask the HTTP
-- client for. A method is a function to a `Call`; a keyword argument with the default `None` is an
-- `Option`, and a number is its literal. base.py makes of a call the request of Http.Client.
pub mod Paths
pub mod Agents
pub mod Triggers
pub mod Retrieval
pub mod Compute
pub mod Sources
pub mod Sandboxes
pub mod Projects
pub mod Ingest
pub mod Integrations
pub mod Account
pub mod Scoped
pub mod Routes
pub mod Same
mod Examples
use Prim.Native.String.{◌++◌ as text_append}
use copass.Prelude.{ℕ, String, Bool, true, false, Option, none, some, List, [], ◌∷◌}
use copass.Dict.{Dict}
use copass.Json.{Value, bool, str, arr, obj, Items, no_items, item, Fields, field}
use copass.Http.Retry.{Message, Outcome, Retried}
use copass.Http.Client.{
  SessionContext, RequestOptions, HttpClient, Wire, Response, Error, Result, request,
}

pub record Call : Type 0 where
  pub method : String
  pub path : String
  pub body : Option Value
  pub query : Dict (Option String)

abbrev pub Query : Type 0
Query = Dict (Option String)

-- `_get`
abbrev pub get_call : String → Query → Call
get_call path query = record { method = "GET"; path = path; body = none; query = query }

-- `_post`
abbrev pub post_call : String → Option Value → Query → Call
post_call path body query = record { method = "POST"; path = path; body = body; query = query }

-- `_patch`
abbrev pub patch_call : String → Option Value → Query → Call
patch_call path body query = record { method = "PATCH"; path = path; body = body; query = query }

-- `_delete`
abbrev pub delete_call : String → Call
delete_call path = record { method = "DELETE"; path = path; body = none; query = [] }

abbrev pub options_of : Call → RequestOptions
options_of c = record {
  method = c.method;
  body = c.body;
  query = c.query;
  headers = [];
  raw_body = none;
  raw_response = false;
}

-- What a method returns or raises: that of the request of its call.
unfoldable pub perform :
    HttpClient
    → SessionContext
    → (ℕ → Wire → Outcome Message Response)
    → Call
    → Retried Error Result
perform client session transport c = request client session transport c.path (options_of c)

-- `f"{path}/{segment}"`
abbrev pub slash : String → String → String
slash path segment = text_append path (text_append "/" segment)

-- `f"{path}/{a}/{b}"`, and so on
unfoldable pub path_of : String → List String → String
path_of path [] = path
path_of path (segment ∷ segments) = path_of (slash path segment) segments

abbrev pub storage_base : String
storage_base = "/api/v1/storage/sandboxes"

abbrev pub query_base : String
query_base = "/api/v1/query/sandboxes"

-- `if x is not None: body[key] = x`, in front of what is set later
unfoldable pub optional {ℓ} : {A : Type ℓ} → String → (A → Value) → Option A → Fields → Fields
optional key json none rest = rest
optional key json (some x) rest = field key (json x) rest

-- `if x: body[key] = True`
abbrev pub flag : String → Bool → Fields → Fields
flag key true rest = field key (bool true) rest
flag key false rest = rest

-- `if x is not None: query[key] = x`
abbrev pub given : String → Option String → Query → Query
given key none rest = rest
given key (some x) rest = (key, some x) ∷ rest

-- `if x: query[key] = "true"`
abbrev pub when : Bool → String → Query → Query
when true key rest = (key, some "true") ∷ rest
when false key rest = rest

abbrev pub string_items : List String → Items
string_items [] = no_items
string_items (s ∷ ss) = item (str s) (string_items ss)

abbrev pub strings : List String → Value
strings ss = arr (string_items ss)

abbrev pub list_items : List (List String) → Items
list_items [] = no_items
list_items (l ∷ ls) = item (strings l) (list_items ls)

abbrev pub lists : List (List String) → Value
lists ls = arr (list_items ls)

abbrev pub object_items : List Fields → Items
object_items [] = no_items
object_items (o ∷ os) = item (obj o) (object_items os)

abbrev pub objects : List Fields → Value
objects os = arr (object_items os)
