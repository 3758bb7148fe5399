-- ===== src/Managed/Stream/Order.antt =====
-- Lists of agent events in which every tool result comes after a tool call of the same id.
use copass.Prelude.{String, ◌≡◌, refl, true, false, ◌||◌, List, [], ◌∷◌, ◌++◌, arith, contains}
use copass.Agents.Events.{AgentEvent, text_delta, tool_call, tool_result, finish, is_finish}

-- The ids of the tool calls of a list.
unfoldable pub called : List AgentEvent → List String
called [] = []
called (tool_call i n a ∷ es) = i ∷ called es
called (text_delta s ∷ es) = called es
called (tool_result i n v e ∷ es) = called es
called (finish r u s ∷ es) = called es

-- Each result has its call before it, or among some ids called earlier.
abbrev pub Ordered : List String → List AgentEvent → Type 0
Ordered seen [] = Unit {0}
Ordered seen (tool_call i n a ∷ es) = Ordered (i ∷ seen) es
Ordered seen (text_delta s ∷ es) = Ordered seen es
Ordered seen (tool_result i n v e ∷ es) = (contains seen i ≡ true) × Ordered seen es
Ordered seen (finish r u s ∷ es) = Ordered seen es

-- What an event needs of the events before it.
abbrev pub Fits : List String → AgentEvent → Type 0
Fits seen (tool_result i n v e) = contains seen i ≡ true
Fits seen _ = Unit {0}

abbrev pub NotFinish : AgentEvent → Type 0
NotFinish e = is_finish e ≡ false

pub contains-called-append :
    (es fs : List AgentEvent) (k : String)
    → contains (called (es ++ fs)) k ≡ (contains (called es) k || contains (called fs) k)
unfolding called
contains-called-append [] fs k = refl
contains-called-append (tool_call i n a ∷ es) fs k = ground (arith, contains-called-append es fs k)
contains-called-append (text_delta s ∷ es) fs k = contains-called-append es fs k
contains-called-append (tool_result i n v e ∷ es) fs k = contains-called-append es fs k
contains-called-append (finish r u s ∷ es) fs k = contains-called-append es fs k

Fits-Ordered :
    (seen ids : List String) (e : AgentEvent)
    → ((k : String) → contains ids k ≡ true → contains seen k ≡ true)
    → Fits ids e
    → Ordered seen (e ∷ [])
Fits-Ordered seen ids (tool_result i n v m) h f = (h i f, tt)
Fits-Ordered seen ids (text_delta s) h f = tt
Fits-Ordered seen ids (tool_call i n a) h f = tt
Fits-Ordered seen ids (finish r u s) h f = tt

-- One more event at the end.
Ordered-snoc_seen :
    (seen ids : List String) (es : List AgentEvent) (e : AgentEvent)
    → Ordered seen es
    → ((k : String) → contains ids k ≡ true → (contains seen k || contains (called es) k) ≡ true)
    → Fits ids e
    → Ordered seen (es ++ e ∷ [])
unfolding called
Ordered-snoc_seen seen ids [] e o h f = Fits-Ordered seen ids e (λ k q. ground (arith, h k)) f
Ordered-snoc_seen seen ids (tool_call i n a ∷ es) e o h f =
    Ordered-snoc_seen (i ∷ seen) ids es e o (λ k q. ground (arith, h k)) f
Ordered-snoc_seen seen ids (text_delta s ∷ es) e o h f = Ordered-snoc_seen seen ids es e o h f
Ordered-snoc_seen seen ids (tool_result i n v m ∷ es) e o h f =
    (o.0, Ordered-snoc_seen seen ids es e o.1 h f)
Ordered-snoc_seen seen ids (finish r u s ∷ es) e o h f = Ordered-snoc_seen seen ids es e o h f

pub Ordered-snoc :
    (es : List AgentEvent) (e : AgentEvent)
    → Ordered [] es
    → Fits (called es) e
    → Ordered [] (es ++ e ∷ [])
Ordered-snoc es e o f = Ordered-snoc_seen [] (called es) es e o (λ k q. q) f
