-- ===== src/Agents/Build/Choice.antt =====
-- base_agent.py: which tool stands under a name after the merge of `build_tools`.
use mathlib.Core.Path.{subst}
use copass.Prelude.{
  String, ◌≡◌, refl, Option, none, some, List, [], ◌∷◌, sym, arith, ◌==◌, eq_iff, if◌then◌else◌,
  contains, Bool-cases, inl, inr, is_some, ap,
}
use copass.Dict.{get}
use copass.Agents.Events.{AgentInvocationContext}
use copass.Agents.Tools.{
  AgentTool, name_of, AgentToolRegistry, extend, iterate, IsKeyed, empty-IsKeyed, extend-IsKeyed,
  last_named, or_first, get-extend, last_named-iterate,
}
use copass.Agents.Build.{
  ToolConflictPolicy, error, dynamic_wins, static_wins, BaseAgent, names, excluding, built, merge,
  merge_tools, resolve_tools, build_tools,
}

pub contains-names :
    (ts : List AgentTool) (k : String) → contains (names ts) k ≡ is_some (last_named ts k)
unfolding names last_named
contains-names [] k = refl
contains-names (t ∷ ts) k = ground (arith, contains-names ts k)

last_named-excluding :
    (ns : List String) (ts : List AgentTool) (k : String)
    → last_named (excluding ns ts) k ≡ (if contains ns k then none else last_named ts k)
unfolding excluding last_named
last_named-excluding ns [] k = ground arith
last_named-excluding ns (t ∷ ts) k = elim (Bool-cases (name_of t == k)) [
  | inl e ↦
      ground (arith, last_named-excluding ns ts k, ap (contains ns) ((eq_iff (name_of t) k).0 e))
  | inr e ↦ ground (arith, last_named-excluding ns ts k)
]

-- Which tool a policy keeps under a name, of the static and the last dynamic one of that name.
abbrev pub chosen : ToolConflictPolicy → Option AgentTool → Option AgentTool → Option AgentTool
chosen static_wins static dynamic = or_first static dynamic
chosen error static dynamic = or_first dynamic static
chosen dynamic_wins static dynamic = or_first dynamic static

get-merge_dynamic :
    (statics dynamics : List AgentTool) (k : String)
    → get (extend (extend [] (excluding (names dynamics) statics)) dynamics) k
      ≡ or_first (last_named dynamics k) (last_named statics k)
unfolding get
get-merge_dynamic statics dynamics k = ground (
  arith,
  get-extend (extend [] (excluding (names dynamics) statics)) dynamics k,
  get-extend [] (excluding (names dynamics) statics) k,
  last_named-excluding (names dynamics) statics k,
  contains-names dynamics k,
)

get-merge :
    (p : ToolConflictPolicy) (statics dynamics : List AgentTool) (k : String)
    → get (merge p statics dynamics) k ≡ chosen p (last_named statics k) (last_named dynamics k)
unfolding merge get
get-merge static_wins statics dynamics k = ground (
  arith,
  get-extend (extend [] (excluding (names statics) dynamics)) statics k,
  get-extend [] (excluding (names statics) dynamics) k,
  last_named-excluding (names statics) dynamics k,
  contains-names statics k,
)
get-merge error statics dynamics k = get-merge_dynamic statics dynamics k
get-merge dynamic_wins statics dynamics k = get-merge_dynamic statics dynamics k

merge-IsKeyed :
    (p : ToolConflictPolicy) (statics dynamics : List AgentTool)
    → IsKeyed (merge p statics dynamics)
unfolding merge
merge-IsKeyed static_wins statics dynamics =
    extend-IsKeyed _ statics (extend-IsKeyed [] _ empty-IsKeyed)
merge-IsKeyed error statics dynamics = extend-IsKeyed _ dynamics (extend-IsKeyed [] _ empty-IsKeyed)
merge-IsKeyed dynamic_wins statics dynamics =
    extend-IsKeyed _ dynamics (extend-IsKeyed [] _ empty-IsKeyed)

-- What a resolver gives in a context.
abbrev pub dynamic_of :
    Option (AgentInvocationContext → List AgentTool) → AgentInvocationContext → List AgentTool
dynamic_of none context = []
dynamic_of (some resolve) context = resolve context

merge_tools-eq-built :
    (p : ToolConflictPolicy) (r : AgentToolRegistry) (dynamics : List AgentTool)
    {m : AgentToolRegistry}
    → merge_tools p r dynamics ≡ built m
    → merge p (iterate r) dynamics ≡ m
unfolding merge_tools
merge_tools-eq-built p r dynamics e = ground arith

-- The entry that a registry has where the policy decides between static and dynamic tools.
abbrev pub IsChoice :
    ToolConflictPolicy → AgentToolRegistry → List AgentTool → AgentToolRegistry → Type 0
IsChoice p r dynamics m =
    IsKeyed m × ((k : String) → get m k ≡ chosen p (get r k) (last_named dynamics k))

merge-IsChoice :
    (p : ToolConflictPolicy) (r : AgentToolRegistry) (dynamics : List AgentTool)
    → IsKeyed r
    → IsChoice p r dynamics (merge p (iterate r) dynamics)
merge-IsChoice p r dynamics h = (
  merge-IsKeyed p (iterate r) dynamics,
  λ k. rw (← last_named-iterate r k h) (get-merge p (iterate r) dynamics k),
)

chosen-none : (p : ToolConflictPolicy) (o : Option AgentTool) → chosen p o none ≡ o
chosen-none p o = ground arith

resolve_tools-IsChoice :
    (resolver : Option (AgentInvocationContext → List AgentTool)) (p : ToolConflictPolicy)
    (r : AgentToolRegistry) (context : AgentInvocationContext) (m : AgentToolRegistry)
    → IsKeyed r
    → resolve_tools resolver p r context ≡ built m
    → IsChoice p r (dynamic_of resolver context) m
unfolding resolve_tools last_named
resolve_tools-IsChoice none p r context m h e =
    subst (IsChoice p r []) (ground arith) (h, λ k. sym (chosen-none p (get r k)))
resolve_tools-IsChoice (some resolve) p r context m h e =
    subst (IsChoice p r (resolve context)) (merge_tools-eq-built p r (resolve context) e)
      (merge-IsChoice p r (resolve context) h)

-- The tools of an invocation are again held by name, and under every name stands the tool that the
-- policy keeps of the static one and the last dynamic one of that name: the static tool first under
-- `static_wins`, the dynamic one first under `dynamic_wins` and under `error`.
pub get-build_tools :
    (a : BaseAgent) (context : AgentInvocationContext) (m : AgentToolRegistry)
    → IsKeyed a.tools
    → build_tools a context ≡ built m
    → IsKeyed m
      × ((k : String)
          → get m k
            ≡ chosen a.on_conflict
                (get a.tools k)
                (last_named (dynamic_of a.tool_resolver context) k))
unfolding build_tools
get-build_tools a context m h e =
    resolve_tools-IsChoice a.tool_resolver a.on_conflict a.tools context m h e
