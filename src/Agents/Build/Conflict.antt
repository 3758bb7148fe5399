-- ===== src/Agents/Build/Conflict.antt =====
-- base_agent.py: when `build_tools` refuses to merge.
use copass.Prelude.{
  String, ◌≡◌, refl, Bool, true, ◌&&◌, Option, none, some, List, [], ◌∷◌, sym, ◌∙◌, arith, eq_iff,
  if◌then◌else◌, contains, is_some,
}
use copass.Dict.{get}
use copass.Sorted.{sorted, contains-sorted}
use copass.Agents.Events.{AgentInvocationContext}
use copass.Agents.Tools.{
  AgentTool, AgentToolRegistry, iterate, IsKeyed, last_named, last_named-iterate,
}
use copass.Agents.Build.{
  ToolConflictPolicy, error, dynamic_wins, static_wins, BaseAgent, names, intersection, built,
  conflict, refuse, merge_tools, resolve_tools, build_tools,
}
use copass.Agents.Build.Choice.{contains-names, dynamic_of}

contains-intersection :
    (ks ns : List String) (k : String)
    → contains (intersection ks ns) k ≡ (contains ks k && contains ns k)
unfolding intersection
contains-intersection [] ns k = refl
contains-intersection (j ∷ ks) ns k = ground (arith, contains-intersection ks ns k, eq_iff j k)

-- The names that are both static and dynamic.
abbrev pub is_shared : AgentToolRegistry → List AgentTool → String → Bool
is_shared r dynamics k = is_some (get r k) && is_some (last_named dynamics k)

contains-collisions :
    (r : AgentToolRegistry) (dynamics : List AgentTool) (k : String)
    → IsKeyed r
    → contains (sorted (intersection (names (iterate r)) (names dynamics))) k
      ≡ is_shared r dynamics k
contains-collisions r dynamics k h =
    rw (contains-sorted, contains-intersection, contains-names (iterate r), contains-names dynamics)
      (rw (last_named-iterate r k h))

refused :
    (p : ToolConflictPolicy) (cs : List String) (m : AgentToolRegistry) (ns : List String)
    → (if refuse p cs then conflict (sorted cs) else built m) ≡ conflict ns
    → (p ≡ error) × (sorted cs ≡ ns) × ((k : String) × (contains (sorted cs) k ≡ true))
unfolding refuse
refused error [] m ns e = cc
refused error (c ∷ cs) m ns e =
    (refl, ground arith, (c, rw contains-sorted (ground (arith, eq_iff c c))))
refused dynamic_wins cs m ns e = cc
refused static_wins cs m ns e = cc

-- What a refusal of `merge_tools` says.
abbrev pub IsRefusal :
    ToolConflictPolicy → AgentToolRegistry → List AgentTool → List String → Type 0
IsRefusal p r dynamics ns =
    (p ≡ error)
    × ((k : String) → contains ns k ≡ is_shared r dynamics k)
    × ((k : String) × (is_shared r dynamics k ≡ true))

merge_tools-IsRefusal :
    (p : ToolConflictPolicy) (r : AgentToolRegistry) (dynamics : List AgentTool) (ns : List String)
    → IsKeyed r
    → merge_tools p r dynamics ≡ conflict ns
    → IsRefusal p r dynamics ns
unfolding merge_tools
merge_tools-IsRefusal p r dynamics ns h e =
    let (q, s, w) = refused p _ _ ns e in
    let shared : (k : String) → _ = λ k. contains-collisions r dynamics k h in
    (q, (λ k. rw (← s) (shared k)), (w.0, sym (shared w.0) ∙ w.1))

resolve_tools-IsRefusal :
    (resolver : Option (AgentInvocationContext → List AgentTool)) (p : ToolConflictPolicy)
    (r : AgentToolRegistry) (context : AgentInvocationContext) (ns : List String)
    → IsKeyed r
    → resolve_tools resolver p r context ≡ conflict ns
    → IsRefusal p r (dynamic_of resolver context) ns
unfolding resolve_tools
resolve_tools-IsRefusal none p r context ns h e = cc
resolve_tools-IsRefusal (some resolve) p r context ns h e =
    merge_tools-IsRefusal p r (resolve context) ns h e

-- A refusal happens only under `error`, only where a static and a dynamic tool share a name, and it
-- lists exactly the shared names.
pub build_tools-conflict :
    (a : BaseAgent) (context : AgentInvocationContext) (ns : List String)
    → IsKeyed a.tools
    → build_tools a context ≡ conflict ns
    → (a.on_conflict ≡ error)
      × ((k : String) → contains ns k ≡ is_shared a.tools (dynamic_of a.tool_resolver context) k)
      × ((k : String) × (is_shared a.tools (dynamic_of a.tool_resolver context) k ≡ true))
unfolding build_tools
build_tools-conflict a context ns h e =
    resolve_tools-IsRefusal a.tool_resolver a.on_conflict a.tools context ns h e
