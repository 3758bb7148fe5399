-- ===== src/CopassAgent/Examples.antt =====
-- A short conversation with an agent, and the theorems at it.
use copass.Prelude.{String, true, false, ◌≡◌, refl, none, some, List, [], ◌∷◌, if◌then◌else◌, eqb}
use copass.Dict.{get}
use copass.Json.{str, no_items, item, field_at}
use copass.Agents.Events.{text_delta, finish, AgentInvocationContext}
use copass.Agents.Build.{static_wins}
use copass.Managed.Messages.{normalize_messages as to_events}
use copass.Recorder.{Settings}
use copass.CopassAgent.{managed, AgentWindow, Agent, Arguments}
use copass.CopassAgent.Messages.{text, normalize_messages, user_contents, content_text}
use copass.CopassAgent.Context.{World, prepare_messages}
use copass.CopassAgent.Stream.{new_session, Turn, Backend, converse}
use copass.CopassAgent.Forwarded.{blank_messages}
use copass.CopassAgent.Conversation.{said, IsSession, converse-IsSession}
use copass.Text.{Text, codes, lstrip, rstrip}

abbrev world : World
world = record {
  print = λ v. "{}";
  two_digits = λ v. codes "0.50";
  print_list = λ is. codes "['a']";
  discover = λ query project turns. some (record {
    items =
        record {
          score = none;
          summary = some " a person ";
          canonical_ids = item (str "a") no_items;
        }
        ∷ [];
    next_steps = none;
  });
}

abbrev window : AgentWindow
window = record { project_id = none; window = record { turns = []; participants = none } }

abbrev agent : Agent
agent = record {
  base = record {
    identity = "a";
    model = "m";
    system_prompt = "p";
    tools = [];
    tool_resolver = none;
    on_conflict = static_wins;
  };
  sandbox_id = some "sb";
  window = some window;
  author = some "bot";
  project_id = none;
  prefetch_discover = true;
  auto_record = true;
}

abbrev context : AgentInvocationContext
context = record {
  scope = record { user_id = "u"; sandbox_id = none; project_id = none };
  trace_id = none;
  dek = none;
  handles = [];
}

abbrev later : AgentInvocationContext
later = record context { handles = ("managed_agent_session_id", str "s1") ∷ [] }

-- Only a new conversation gets a context in front.
first_has_context :
    (prepare_messages managed world agent (text "who?") context).0.context_block
    ≡ some (
        codes
          "<copass_context>\nPre-fetched from the sandbox knowledge graph based on the user's question.\nQuery: who?\n\n1. (score: -) a person\n   canonical_ids: ['a']\n\nCall `interpret` with any canonical_ids tuple above for a deeper brief, or `discover` again for more items.\n</copass_context>")
unfolding prepare_messages normalize_messages user_contents field_at rstrip lstrip get
first_has_context = refl

later_has_none : (prepare_messages managed world agent (text "who?") later).0.context_block ≡ none
unfolding prepare_messages normalize_messages user_contents field_at rstrip lstrip get
later_has_none = refl

abbrev backend : Backend
backend a prepared c = (text_delta "yes" ∷ finish "end_turn" [] (some "s1") ∷ [], false)

-- A backend that raises in the middle of an answer.
abbrev breaking : Backend
breaking a prepared c = (text_delta "ye" ∷ [], true)

abbrev turns : List Turn
turns =
    record { messages = text "who?"; context = context; backend = backend }
    ∷ record { messages = text "h"; context = later; backend = breaking }
    ∷ []

abbrev first_letter : Text → String
first_letter [] = ""
first_letter (c ∷ s) = if eqb c 119 then "w" else if eqb c 104 then "h" else "x"

abbrev settings : Settings
settings = record {
  include_tool_events = false;
  author = none;
  include_author_prefix = false;
  participants = none;
  user_speaker = "User";
  digest = first_letter;
  print_call = λ n a. codes n;
  print_result = λ n v. codes n;
  ingest = λ push. true;
}

converse-IsSession_example :
    IsSession managed world settings [] agent
      (said world turns)
      (converse managed world settings (new_session settings agent) turns)
converse-IsSession_example = converse-IsSession managed world settings agent window turns refl refl

-- A message of spaces is sent, and not recorded.
blank_is_sent : blank_messages world.print (normalize_messages (text " ")) ≡ 1
unfolding blank_messages normalize_messages field_at rstrip lstrip content_text
blank_is_sent = refl

abbrev arguments : Arguments
arguments = record {
  identity = "a";
  system_prompt = "p";
  model = "m";
  has_backend = true;
  anthropic_api_key = none;
  has_anthropic_client = false;
  tools = some [];
  tool_resolver = none;
  on_conflict = "static_wins";
  has_copass_client = true;
  sandbox_id = some "sb";
  window = some window;
  prefetch_discover = true;
  auto_record = true;
  author = some "bot";
  project_id = some "p";
}
