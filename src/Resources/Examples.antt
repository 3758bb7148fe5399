-- ===== src/Resources/Examples.antt =====
-- Calls of some methods, and the theorems at them.
use copass.Prelude.{String, true, ◌≡◌, refl, some, none, List, [], ◌∷◌}
use copass.Json.{Value, str, obj, arr, item, no_items, end, field}
use copass.Resources.{path_of}
use copass.Resources.Agents
use copass.Resources.Triggers
use copass.Resources.Sources
use copass.Resources.Ingest
use copass.Resources.Retrieval
use copass.Resources.Retrieval.{discover, chat_message, other}
use copass.Resources.Paths.{behind}
use copass.Resources.Scoped.{IsOnIfAny, retrieval, call_of as scoped_call_of, call_of-IsOnIfAny}
use copass.Resources.Routes.{IsName, on_triggers, call_of, endpoint_of, route}
use copass.Resources.Routes.Reaches.{route-call_of}
use copass.Resources.Same.{IsSameCall, ingest-text_in_sandbox}
use copass.Resources.Compute.Gateway.{proxy_url, websocket_url}
use copass.Resources.Compute.Filled.{
  Piece, plain, hole, render, filled, parts, path as path_hole, base_url as base_url_hole,
  port as port_hole, session_id as session_id_hole,
}
use copass.Resources.Compute.Filled.Url.{proxy_url-filled}
use copass.Text.{codes}

-- A slug with a slash makes the call of another method.
retrieve_of_runs : Agents.retrieve "sb" "a/runs" ≡ Agents.list_runs "sb" "a" none none
unfolding Agents.retrieve Agents.list_runs path_of
retrieve_of_runs = refl

-- So does a slug that is the name of an endpoint.
retrieve_of_tools : Agents.retrieve "sb" "tools" ≡ Agents.list_tools "sb"
unfolding Agents.retrieve Agents.list_tools path_of
retrieve_of_tools = refl

abbrev print : Value → String
print v = "{}"

discover_with_history :
    discover print "sb" "q" none (some (chat_message "user" "hi" ∷ [])) (some "p") none none
    ≡ some (record {
      method = "POST";
      path = "/api/v1/query/sandboxes/sb/discover";
      body = some (
          obj (
            field "query" (str "q") (
              field "history"
                (arr (
                  item (obj (field "role" (str "user") (field "content" (str "hi") end))) no_items))
                (field "project_id" (str "p") end))));
      query = [];
    })
unfolding discover
discover_with_history = refl

discover_with_other : discover print "sb" "q" (some (other ∷ [])) none none none none ≡ none
unfolding discover
discover_with_other = refl

abbrev origins : Retrieval.Operation
origins = Retrieval.on_get_origin ("a/../b" ∷ []) none

call_of-IsOnIfAny_example : IsOnIfAny "sb" refl (scoped_call_of print "sb" (retrieval origins))
call_of-IsOnIfAny_example = call_of-IsOnIfAny print "sb" (retrieval origins) refl

bot-IsName : IsName "bot"
bot-IsName = record { segment = refl; not_tools = refl; not_runs = refl; not_triggers = refl }

t1-IsName : IsName "t1"
t1-IsName = record { segment = refl; not_tools = refl; not_runs = refl; not_triggers = refl }

route-call_of_example :
    route
      (call_of "sb" (on_triggers (Triggers.on_retrieve "bot" "t1"))).method
      (behind (call_of "sb" (on_triggers (Triggers.on_retrieve "bot" "t1"))).path)
    ≡ some (endpoint_of (on_triggers (Triggers.on_retrieve "bot" "t1")))
route-call_of_example =
    route-call_of "sb" (on_triggers (Triggers.on_retrieve "bot" "t1")) refl
      (bot-IsName, (t1-IsName, tt))

ingest-text_in_sandbox_example :
    IsSameCall (Sources.ingest "sb" "ds" "x" none (some true) (some "p") none (some "me") none) (
      Ingest.text_in_sandbox "sb" "x" none (some true) (some "p") (some "ds") none (some "me") none)
ingest-text_in_sandbox_example =
    ingest-text_in_sandbox "sb" "ds" "x" none (some true) (some "p") none (some "me") none

abbrev template : List Piece
template =
    hole base_url_hole
    ∷ plain (codes "/s/")
    ∷ hole session_id_hole
    ∷ plain (codes "/p/")
    ∷ hole port_hole
    ∷ hole path_hole
    ∷ []

proxy_url-filled_example :
    proxy_url
      (record {
        session_id = codes "s1";
        gateway = some (record { base_url = codes "https://g"; url_template = render template });
      })
      (codes "3000")
      (codes "/{port}")
    ≡ some
        (filled (parts (codes "https://g") (codes "s1") (codes "3000") (codes "/{port}")) template)
proxy_url-filled_example =
    proxy_url-filled (codes "s1") (codes "https://g") (codes "3000") (codes "/{port}") template
      (refl, (refl, tt)) refl refl refl

websocket_of_port :
    websocket_url
      (record {
        session_id = codes "s1";
        gateway = some (record { base_url = codes "https://g"; url_template = render template });
      })
      (codes "3000")
      (codes "/{port}")
    ≡ some (codes "wss://g/s/s1/p/3000/{port}")
unfolding websocket_url
websocket_of_port = refl
