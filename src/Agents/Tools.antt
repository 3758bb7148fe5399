-- ===== src/Agents/Tools.antt =====
-- base_tool.py and tool_registry.py: tools, and the registry that holds them by name.
use copass.Prelude.{
  String, ◌≡◌, refl, Option, none, some, List, [], ◌∷◌, map, arith, ◌==◌, eq_iff, if◌then◌else◌,
  contains, Option-cases, inl, inr, eq_iff,
}
use copass.Dict.{Dict, get, put, keys}
use copass.Dict.Laws.{get-put, has-get, contains-keys}
use copass.Json.{Value, Fields}
use copass.Sorted.{sorted, contains-sorted}
use copass.Agents.Events.{AgentInvocationContext}

pub record ToolSpec : Type 0 where
  pub name : String
  pub description : String
  pub input_schema : Value

-- What an `invoke` gives: a value that is JSON, one that `json.dumps` raises on even with
-- `default=str`, or an exception with its text.
pub data Outcome : Type 0 where
  returned : Value → Outcome
  unserializable : Outcome
  raised : String → Outcome

-- Tools are stateless across calls (the contract of `AgentTool`), so a call is a function.
pub record AgentTool : Type 0 where
  pub spec : ToolSpec
  pub invoke : Fields → AgentInvocationContext → Outcome

abbrev pub name_of : AgentTool → String
name_of t = t.spec.name

abbrev pub AgentToolRegistry : Type 0
AgentToolRegistry = Dict AgentTool

-- `add`: a tool of the same name is overwritten.
unfoldable pub add_tool : AgentToolRegistry → AgentTool → AgentToolRegistry
add_tool r t = put r t.spec.name t

unfoldable pub extend : AgentToolRegistry → List AgentTool → AgentToolRegistry
extend r [] = r
extend r (t ∷ ts) = extend (add_tool r t) ts

unfoldable pub try_get : AgentToolRegistry → String → Option AgentTool
try_get r name = get r name

-- The tools under some names, in the order of the names.
unfoldable pub tools_at : AgentToolRegistry → List String → List AgentTool
tools_at r [] = []
tools_at r (k ∷ ks) = let rest = tools_at r ks in elim (get r k) [ none ↦ rest | some t ↦ t ∷ rest ]

-- `__iter__`: the tools in the order of their names.
unfoldable pub iterate : AgentToolRegistry → List AgentTool
iterate r = tools_at r (sorted (keys r))

unfoldable pub list_specs : AgentToolRegistry → List ToolSpec
list_specs r = map (λ t. t.spec) (iterate r)

-- A registry holds each tool under its own name: `add` is the only way in.
pub record IsKeyed (r : AgentToolRegistry) : Type 0 where
  pub at_name : (k : String) (t : AgentTool) → get r k ≡ some t → name_of t ≡ k

pub empty-IsKeyed : IsKeyed []
unfolding get
empty-IsKeyed = record { at_name = λ k t e. cc }

pub add_tool-IsKeyed : (r : AgentToolRegistry) (t : AgentTool) → IsKeyed r → IsKeyed (add_tool r t)
unfolding add_tool
add_tool-IsKeyed r t h = record {
  at_name = λ k u e. ground (arith, get-put r (name_of t) t k, eq_iff (name_of t) k, h.at_name k u);
}

pub extend-IsKeyed :
    (r : AgentToolRegistry) (ts : List AgentTool) → IsKeyed r → IsKeyed (extend r ts)
unfolding extend
extend-IsKeyed r [] h = h
extend-IsKeyed r (t ∷ ts) h = extend-IsKeyed (add_tool r t) ts (add_tool-IsKeyed r t h)

-- The last tool of a list with a given name.
unfoldable pub last_named : List AgentTool → String → Option AgentTool
last_named [] k = none
last_named (t ∷ ts) k = elim (last_named ts k) [
  | some u ↦ some u
  | none ↦ if name_of t == k then some t else none
]

abbrev pub or_first : Option AgentTool → Option AgentTool → Option AgentTool
or_first none b = b
or_first (some a) b = some a

-- Registering many tools: for each name the last one of the list wins, and the rest stays.
pub get-extend :
    (r : AgentToolRegistry) (ts : List AgentTool) (k : String)
    → get (extend r ts) k ≡ or_first (last_named ts k) (get r k)
unfolding extend last_named add_tool
get-extend r [] k = refl
get-extend r (t ∷ ts) k = ground (arith, get-extend (add_tool r t) ts k, get-put r (name_of t) t k)

last_named-tools_at :
    (r : AgentToolRegistry) (ks : List String) (k : String)
    → IsKeyed r
    → last_named (tools_at r ks) k ≡ (if contains ks k then get r k else none)
unfolding last_named tools_at
last_named-tools_at r [] k h = refl
last_named-tools_at r (j ∷ ks) k h = elim (Option-cases (get r j)) [
  | inl e ↦ ground (arith, last_named-tools_at r ks k h, eq_iff j k)
  | inr (t, e) ↦ ground (arith, last_named-tools_at r ks k h, h.at_name j t e, eq_iff j k)
]

-- Iterating over a registry meets each of its tools.
pub last_named-iterate :
    (r : AgentToolRegistry) (k : String) → IsKeyed r → last_named (iterate r) k ≡ get r k
unfolding iterate
last_named-iterate r k h = ground (
  arith,
  last_named-tools_at r (sorted (keys r)) k h,
  contains-sorted (keys r) k,
  contains-keys r k,
  has-get r k,
)
