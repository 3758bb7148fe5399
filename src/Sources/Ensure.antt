-- ===== src/Sources/Ensure.antt =====
-- data_sources.py: registering a source twice.
use mathlib.Core.Path.{subst}
use copass.Prelude.{
  String, ◌≡◌, refl, true, Option, none, some, arith, Bool-cases, ◌⊎◌, ap, ◌∙◌, sym, Option-cases,
  inl, inr,
}
use copass.Json.{Value, obj, Items, no_items, item, Fields}
use copass.Sources.{
  SourceRequest, SourcesApi, is_named, sources_of, Lookup, found, absent, lookup_raises,
  find_source, reuse_or_register, look, ensure_data_source,
}

unfoldable pub append : Items → Items → Items
append no_items ys = ys
append (item x xs) ys = item x (append xs ys)

-- What the API documents: what a registration returns is a source of the requested name, and the
-- list of its provider then has this source too, somewhere among those that it had before.
pub record IsSourcesApi {S : Type 0} (api : SourcesApi S) : Type 0 where
  pub named :
      (s t : S) (request : SourceRequest) (v : Value)
      → api.register s request ≡ some (t, v)
      → (source : Fields) × (v ≡ obj source) × (is_named request.name source ≡ true)
  pub listed :
      (s t : S) (request : SourceRequest) (v existing : Value) (sources : Items)
      → api.register s request ≡ some (t, v)
      → api.list s request.provider ≡ some existing
      → sources_of existing ≡ some sources
      → (later : Value) × (before : Items) × (after : Items) × (api.list t request.provider
          ≡ some later)
        × (sources_of later ≡ some (append before (item v after)))
        × (sources ≡ append before after)

find_source-named :
    (name : String) (sources : Items) (source : Fields)
    → find_source name sources ≡ found source
    → is_named name source ≡ true
unfolding find_source
find_source-named name (item (obj fs) rest) source e = elim (Bool-cases (is_named name fs)) [
  | inl q ↦ ground arith
  | inr q ↦ find_source-named name rest source (ground arith)
]
find_source-named name _ source e = absurd cc

-- A source among others that do not have the name is the one found.
find_source-append :
    (name : String) (before after : Items) (source : Fields)
    → is_named name source ≡ true
    → find_source name (append before after) ≡ absent
    → find_source name (append before (item (obj source) after)) ≡ found source
unfolding find_source append
find_source-append name no_items after source q e = ground arith
find_source-append name (item (obj fs) before) after source q e =
    ground (arith, find_source-append name before after source q)
find_source-append name (item _ before) after source q e = absurd cc

-- The lookup that finds nothing has read a list.
look-absent :
    (name : String) (answer : Option Value)
    → look name answer ≡ absent
    → (existing : Value) × (sources : Items) × (answer ≡ some existing)
      × (sources_of existing ≡ some sources)
      × (find_source name sources ≡ absent)
look-absent name none e = absurd cc
look-absent name (some existing) e = elim (Option-cases (sources_of existing)) [
  | inl q ↦ absurd (ground arith)
  | inr (sources, q) ↦ (existing, sources, refl, q, ground arith)
]

look-read :
    (name : String) (answer : Option Value) (existing : Value) (sources : Items)
    → answer ≡ some existing
    → sources_of existing ≡ some sources
    → look name answer ≡ find_source name sources
look-read name none existing sources a r = absurd cc
look-read name (some v) existing sources a r =
    let same : v ≡ existing = ground arith in
    let read : sources_of v ≡ some sources = ap sources_of same ∙ r in ground arith

Lookup-cases :
    (l : Lookup) → (l ≡ absent) ⊎ (l ≡ lookup_raises) ⊎ ((source : Fields) × (l ≡ found source))
Lookup-cases absent = inl refl
Lookup-cases lookup_raises = inr (inl refl)
Lookup-cases (found source) = inr (inr (source, refl))

look-named :
    (name : String) (answer : Option Value) (source : Fields)
    → look name answer ≡ found source
    → is_named name source ≡ true
look-named name none source e = absurd cc
look-named name (some existing) source e = elim (Option-cases (sources_of existing)) [
  | inl q ↦ absurd (ground arith)
  | inr (sources, q) ↦ find_source-named name sources source (ground arith)
]

module _ {S : Type 0} (api : SourcesApi S) (h : IsSourcesApi api) (request : SourceRequest) where
  registered-look :
      (s t : S) (v : Value)
      → look request.name (api.list s request.provider) ≡ absent
      → api.register s request ≡ some (t, v)
      → (source : Fields) × (v ≡ obj source)
        × (is_named request.name source ≡ true)
        × (look request.name (api.list t request.provider) ≡ found source)
  registered-look s t v none_yet e =
      let (existing, sources, answered, read, missing) =
        look-absent request.name (api.list s request.provider) none_yet in
      let (source, same, named) = h.named s t request v e in
      let (later, before, after, relisted, reread, split) =
        h.listed s t request v existing sources e answered read in
      let missing_here : find_source request.name (append before after) ≡ absent =
        ap (find_source request.name) (sym split) ∙ missing in
      let read_again : sources_of later ≡ some (append before (item (obj source) after)) =
        reread ∙ ap (λ u. some (append before (item u after))) same in
      (
        source,
        same,
        named,
        look-read request.name (api.list t request.provider) later
              (append before (item (obj source) after)) relisted read_again
            ∙ find_source-append request.name before after source named missing_here,
      )

  found-again :
      (s t : S) (v : Value) (l : Lookup)
      → look request.name (api.list s request.provider) ≡ l
      → reuse_or_register api request s l ≡ some (t, v)
      → (source : Fields) × (v ≡ obj source)
        × (is_named request.name source ≡ true)
        × (look request.name (api.list t request.provider) ≡ found source)
  found-again s t v absent l e = registered-look s t v l e
  found-again s t v lookup_raises l e = absurd cc
  found-again s t v (found source) l e =
      let same_state : s ≡ t = cc e in
      let same : v ≡ obj source = cc e in
      (
        source,
        same,
        look-named request.name (api.list s request.provider) source l,
        subst (λ u. look request.name (api.list u request.provider) ≡ found source) same_state l,
      )

  -- Where the API answers a registration with a source of the requested name and lists it from then
  -- on beside the sources that it had: a source that could be ensured has the requested name, and
  -- ensuring it again gives the same source and leaves the state of the API as it is.
  pub ensure_data_source-again :
      (s t : S) (v : Value)
      → ensure_data_source api request true s ≡ some (t, v)
      → (ensure_data_source api request true t ≡ some (t, v))
        × ((source : Fields) × (v ≡ obj source) × (is_named request.name source ≡ true))
  unfolding ensure_data_source
  ensure_data_source-again s t v e =
      let (source, same, named, again) =
        found-again s t v (look request.name (api.list s request.provider)) refl e in
      (
        ap (reuse_or_register api request t) again ∙ ap (λ u. some (t, u)) (sym same),
        (source, same, named),
      )
