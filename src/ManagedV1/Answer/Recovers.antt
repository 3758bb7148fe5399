-- ===== src/ManagedV1/Answer/Recovers.antt =====
-- managed_agent_backend.py: what `_rehydrate_pending_tool_events` brings back from the session's log.
use copass.Prelude.{
  String, ◌≡◌, refl, ◌∙◌, Bool, true, false, Option, none, some, List, [], ◌∷◌, arith, ◌==◌, eq_iff,
  if◌then◌else◌, contains, is_some,
}
use copass.Dict.{get}
use copass.Dict.Laws.{get-put}
use copass.Managed.Sdk.{SdkEvent, Envelope, Kind, message, tool_use, kind_of, nonempty}
use copass.Managed.Stream.{Feed, closed, broken, next}
use copass.ManagedV1.{Run}
use copass.ManagedV1.Answer.{buffer, discard, rebucket, rehydrate_one, rehydrate}

abbrev pub or_first {ℓ} : {A : Type ℓ} → Option A → Option A → Option A
or_first none b = b
or_first (some a) b = some a

abbrev pub tool_event : SdkEvent → Kind → Option (SdkEvent × Envelope)
tool_event ev (tool_use envelope) = some (ev, envelope)
tool_event ev _ = none

abbrev pub event_under : SdkEvent → String → Option String → Option (SdkEvent × Envelope)
event_under ev k none = none
event_under ev k (some id) = if id == k then tool_event ev (kind_of ev.type) else none

-- The latest tool-use event of the log under an id, as far as the log can be read.
unfoldable pub logged : Feed → String → Option (SdkEvent × Envelope)
logged closed k = none
logged (broken e) k = none
logged (next ev feed) k = or_first (event_under ev k (nonempty ev.id)) (logged feed k)

abbrev pub logged_event : Option (SdkEvent × Envelope) → Option SdkEvent
logged_event none = none
logged_event (some (ev, envelope)) = some ev

abbrev pub logged_envelope : Option (SdkEvent × Envelope) → Option Envelope
logged_envelope none = none
logged_envelope (some (ev, envelope)) = some envelope

contains-discard :
    (ks : List String) (j k : String)
    → contains (discard ks j) k ≡ (if j == k then false else contains ks k)
unfolding discard
contains-discard [] j k = ground arith
contains-discard (i ∷ ks) j k =
    ground (arith, contains-discard ks j k, eq_iff i j, eq_iff i k, eq_iff j k)

-- What rehydration leaves alone.
pub record Frame (r s : Run) : Type 0 where
  pub out : s.out ≡ r.out
  pub posts : s.posts ≡ r.posts
  pub usage : s.usage_accumulator ≡ r.usage_accumulator

same-Frame : (r : Run) → Frame r r
same-Frame r = record { out = refl; posts = refl; usage = refl }

rebucket-Frame :
    (r : Run) (needed : List String) (ev : SdkEvent) (id : String) (k : Kind)
    → Frame r (rebucket r needed ev id k).0
unfolding rebucket buffer
rebucket-Frame r needed ev id (tool_use e) = record {
  out = ground arith;
  posts = ground arith;
  usage = ground arith;
}
rebucket-Frame r needed ev id _ = same-Frame r

rehydrate_one-Frame :
    (r : Run) (needed : List String) (ev : SdkEvent) (o : Option String)
    → Frame r (rehydrate_one r needed ev o).0
unfolding rehydrate_one
rehydrate_one-Frame r needed ev none = same-Frame r
rehydrate_one-Frame r needed ev (some id) = rebucket-Frame r needed ev id (kind_of ev.type)

pub rehydrate-Frame :
    (feed : Feed) (r : Run) (needed : List String) → Frame r (rehydrate feed r needed)
unfolding rehydrate
rehydrate-Frame closed r [] = same-Frame r
rehydrate-Frame (broken e) r [] = same-Frame r
rehydrate-Frame (next ev feed) r [] = same-Frame r
rehydrate-Frame closed r (k ∷ ks) = same-Frame r
rehydrate-Frame (broken e) r (k ∷ ks) = same-Frame r
rehydrate-Frame (next ev feed) r (k ∷ ks) =
    let step = rehydrate_one r (k ∷ ks) ev (nonempty ev.id) in
    let f = rehydrate_one-Frame r (k ∷ ks) ev (nonempty ev.id) in
    let g = rehydrate-Frame feed step.0 step.1 in
    record { out = g.out ∙ f.out; posts = g.posts ∙ f.posts; usage = g.usage ∙ f.usage }

-- What is buffered under `k` behind a loop over the log that needs some ids.
abbrev pub Recovered : Option (SdkEvent × Envelope) → Bool → String → Run → Run → Type 0
Recovered found needed k r s =
    (get s.pending k
      ≡ (if needed then or_first (logged_event found) (get r.pending k) else get r.pending k))
    × (get s.envelope k ≡ (
        if needed then or_first (logged_envelope found) (get r.envelope k) else get r.envelope k))

-- One event of the log: what it gives for `k`, and whether `k` is still needed.
abbrev Stepped :
    Option (SdkEvent × Envelope) → String → List String → Run → Run × List String → Type 0
Stepped found k needed r (s, left) =
    Recovered found (contains needed k) k r s
    × (contains left k ≡ (if is_some found then false else contains needed k))

skip-Stepped :
    (r : Run) (needed : List String) (k : String) (b : Bool)
    → Stepped (if b then none else none) k needed r (r, needed)
skip-Stepped r needed k true = ((ground arith, ground arith), refl)
skip-Stepped r needed k false = ((ground arith, ground arith), refl)

rebucket-Stepped :
    (r : Run) (needed : List String) (ev : SdkEvent) (id k : String) (kind : Kind)
    → Stepped
        (if id == k then tool_event ev kind else none)
        k
        needed
        r
        (rebucket r needed ev id kind)
unfolding rebucket buffer
rebucket-Stepped r needed ev id k (tool_use e) = (
  (
    ground (arith, get-put r.pending id ev k, eq_iff id k),
    ground (arith, get-put r.envelope id e k, eq_iff id k),
  ),
  ground (arith, contains-discard needed id k, eq_iff id k),
)
rebucket-Stepped r needed ev id k message = skip-Stepped r needed k (id == k)
rebucket-Stepped r needed ev id k _ = skip-Stepped r needed k (id == k)

rehydrate_one-Stepped :
    (r : Run) (needed : List String) (ev : SdkEvent) (k : String) (o : Option String)
    → Stepped (event_under ev k o) k needed r (rehydrate_one r needed ev o)
unfolding rehydrate_one
rehydrate_one-Stepped r needed ev k none = skip-Stepped r needed k true
rehydrate_one-Stepped r needed ev k (some id) = rebucket-Stepped r needed ev id k (kind_of ev.type)

-- A step, and what the rest of the log gives for what is still needed.
Recovered-trans :
    (first rest : Option (SdkEvent × Envelope)) (needed left : Bool) (k : String) (r s u : Run)
    → Recovered first needed k r s
    → left ≡ (if is_some first then false else needed)
    → Recovered rest left k s u
    → Recovered (or_first first rest) needed k r u
Recovered-trans none rest needed left k r s u (p, q) e (p', q') = (ground arith, ground arith)
Recovered-trans (some (ev, en)) rest needed left k r s u (p, q) e (p', q') =
    (ground arith, ground arith)

-- Whatever the session's log holds, and wherever reading it fails: rehydration buffers, for each
-- needed id, the latest tool-use event of the log under this id with its envelope, and leaves every
-- other entry of the buffer as it was.
pub rehydrate_lem :
    (feed : Feed) (r : Run) (needed : List String) (k : String)
    → Recovered (logged feed k) (contains needed k) k r (rehydrate feed r needed)
unfolding rehydrate logged
rehydrate_lem closed r [] k = (refl, refl)
rehydrate_lem (broken e) r [] k = (refl, refl)
rehydrate_lem (next ev feed) r [] k = (refl, refl)
rehydrate_lem closed r (j ∷ js) k = (ground arith, ground arith)
rehydrate_lem (broken e) r (j ∷ js) k = (ground arith, ground arith)
rehydrate_lem (next ev feed) r (j ∷ js) k =
    let step = rehydrate_one r (j ∷ js) ev (nonempty ev.id) in
    let (first, left) = rehydrate_one-Stepped r (j ∷ js) ev k (nonempty ev.id) in
    Recovered-trans (event_under ev k (nonempty ev.id)) (logged feed k) (contains (j ∷ js) k)
      (contains step.1 k) k r step.0 (rehydrate feed step.0 step.1) first left
      (rehydrate_lem feed step.0 step.1 k)
