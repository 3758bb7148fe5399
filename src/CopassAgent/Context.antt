-- ===== src/CopassAgent/Context.antt =====
-- managed_agent.py: the context that is put in front of a new conversation. `discover` is the API:
-- it answers with items, or raises; of its answer, the fields that are read are typed as the API
-- documents them. `print` is `str` on dictionaries and lists, `two_digits` is `f"{x:.2f}"` on a
-- number or a Boolean, and `print_list` is `repr` on a list.
use copass.Prelude.{
  ℕ, suc, String, Bool, false, ◌&&◌, not, Option, none, some, List, [], ◌∷◌, ◌++◌, if◌then◌else◌,
  or_else, ◌+◌,
}
use copass.Dict.{get}
use copass.Json.{Value, bool, num, Items, no_items, item, Fields}
use copass.Json.Truth.{truthy}
use copass.Managed.Messages.{str_of}
use copass.Agents.Events.{AgentInvocationContext}
use copass.Recorder.{ChatMessage}
use copass.CopassAgent.{Flavor, Agent, AgentWindow}
use copass.CopassAgent.Messages.{Messages, normalize_messages, user_contents}
use copass.Text.{Text, codes, strip, is_empty, join_lines}

pub record DiscoverItem : Type 0 where
  pub score : Option Value
  pub summary : Option String
  pub canonical_ids : Items

pub record DiscoverResponse : Type 0 where
  pub items : List DiscoverItem
  pub next_steps : Option Value

-- The functions of Python and of the API that a call uses; `discover` takes the query, the project
-- and the turns of the window, if there is one.
pub record World : Type 0 where
  pub print : Value → String
  pub two_digits : Value → Text
  pub print_list : Items → Text
  pub discover : Text → Option String → Option (List ChatMessage) → Option DiscoverResponse

-- `_PREFETCH_TOP_K`
abbrev pub prefetch_top_k : ℕ
prefetch_top_k = 5

unfoldable pub first_items : ℕ → List DiscoverItem → List DiscoverItem
first_items n [] = []
first_items ℕ.zero (i ∷ is) = []
first_items (ℕ.suc n) (i ∷ is) = i ∷ first_items n is

abbrev pub print_if_truthy : World → Value → Text
print_if_truthy w v = if truthy v then codes (str_of w.print v) else codes "-"

unfoldable pub score_text : World → Option Value → Text
score_text w none = codes "-"
score_text w (some (num n)) = w.two_digits (num n)
score_text w (some (bool b)) = w.two_digits (bool b)
score_text w (some v) = print_if_truthy w v

abbrev pub or_text : Text → Text → Text
or_text [] default = default
or_text (c ∷ s) default = c ∷ s

abbrev pub summary_text : Option String → Text
summary_text summary = or_text (strip (codes (or_else summary ""))) (codes "(no summary)")

abbrev pub id_lines : World → Items → List Text
id_lines w no_items = []
id_lines w (item v vs) = (codes "   canonical_ids: " ++ w.print_list (item v vs)) ∷ []

-- The lines of an item with a number of one digit.
unfoldable pub item_lines : World → ℕ → DiscoverItem → List Text
unfolding score_text
item_lines w n i =
    (((48 + n) ∷ [])
      ++ (codes ". (score: " ++ (score_text w i.score ++ (codes ") " ++ summary_text i.summary))))
    ∷ id_lines w i.canonical_ids

unfoldable pub numbered_lines : World → ℕ → List DiscoverItem → List Text
unfolding item_lines
numbered_lines w n [] = []
numbered_lines w n (i ∷ is) = item_lines w n i ++ numbered_lines w (suc n) is

abbrev pub steps_text : Flavor → World → Option Value → Text
steps_text flavor w none = flavor.hint
steps_text flavor w (some v) = if truthy v then codes (str_of w.print v) else flavor.hint

unfoldable pub block_lines : Flavor → World → Text → List DiscoverItem → Option Value → List Text
unfolding numbered_lines
block_lines flavor w query items next_steps =
    codes "<copass_context>"
    ∷ codes "Pre-fetched from the sandbox knowledge graph based on the user's question."
    ∷ (codes "Query: " ++ query)
    ∷ []
    ∷ (numbered_lines w 1 items
        ++ ([] ∷ steps_text flavor w next_steps ∷ codes "</copass_context>" ∷ []))

-- `_format_context_block`
unfoldable pub format_context_block : Flavor → World → Text → DiscoverResponse → Option Text
unfolding first_items block_lines
format_context_block flavor w query response = elim (first_items prefetch_top_k response.items) [
  | [] ↦ none
  | i ∷ is ↦ some (join_lines (block_lines flavor w query (i ∷ is) response.next_steps))
]

abbrev pub turns_of : Option AgentWindow → Option (List ChatMessage)
turns_of none = none
turns_of (some w) = some w.window.turns

-- `_fetch_context_block`: no context where the call raises.
unfoldable pub fetch_context_block : Flavor → World → Agent → Text → Option Text
unfolding format_context_block
fetch_context_block flavor w a query = elim (w.discover query a.project_id (turns_of a.window)) [
  | none ↦ none
  | some response ↦ format_context_block flavor w query response
]

-- A conversation goes on if the context has the handle of a session.
unfoldable pub continues : Flavor → AgentInvocationContext → Bool
continues flavor context = elim flavor.session_handle [
  | none ↦ false
  | some key ↦ elim (get context.handles key) [ none ↦ false | some v ↦ truthy v ]
]

-- `_should_prefetch`
unfoldable pub should_prefetch : Flavor → Agent → AgentInvocationContext → Option Text → Bool
unfolding continues
should_prefetch flavor a context none = false
should_prefetch flavor a context (some content) =
    a.prefetch_discover && (not (is_empty content) && not (continues flavor context))

abbrev pub last_content : List Text → Option Text
last_content [] = none
last_content (t ∷ []) = some t
last_content (t ∷ ts) = last_content ts

-- The messages for the backend: the context as a message of the user, if there is one, in front of
-- the caller's.
pub record Prepared : Type 0 where
  pub context_block : Option Text
  pub messages : List Fields

unfoldable pub prefetched :
    Flavor → World → Agent → AgentInvocationContext → Option Text → Option Text
unfolding should_prefetch fetch_context_block
prefetched flavor w a context last =
    if should_prefetch flavor a context last
    then fetch_context_block flavor w a (or_else last [])
    else none

-- `_prepare_messages`
unfoldable pub prepare_messages :
    Flavor → World → Agent → Messages → AgentInvocationContext → Prepared × List Text
unfolding prefetched
prepare_messages flavor w a messages context =
    let normalized = normalize_messages messages in
    let contents = user_contents w.print normalized in
    (
      record {
        context_block = prefetched flavor w a context (last_content contents);
        messages = normalized;
      },
      contents,
    )
