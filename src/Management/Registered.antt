-- ===== src/Management/Registered.antt =====
-- specs.py and registrar.py: which tools get registered, and with which schemas.
use mathlib.Core.Path.{subst}
use copass.Prelude.{
  String, ◌≡◌, refl, ap, sym, ◌∙◌, Bool, true, false, Option, none, some, List, [], ◌∷◌, ◌++◌, map,
  arith, ◌==◌, eq_iff, if◌then◌else◌, contains, is_some, All, ◌⊎◌, inl, inr, Bool-cases,
  Option-cases,
}
use copass.Dict.{Dict, get, put, keys}
use copass.Dict.Laws.{get-put, has-get, contains-keys}
use copass.Json.{Value, str, obj, field_at}
use copass.Json.Strip.{IsClean, strip_keys-IsStripping}
use copass.Sorted.{sorted, contains-sorted}
use copass.Management.{
  ManagementSpec, new_spec, json_schema_meta_keys, strip_json_schema_meta, spec_of, from_json,
  load_specs, Registrations, registration, register_names, register_management_tools,
}

-- Neither schema has a metadata key at any depth.
abbrev pub HasCleanSchemas : ManagementSpec → Type 0
HasCleanSchemas spec =
    IsClean json_schema_meta_keys spec.input_schema
    × IsClean json_schema_meta_keys spec.output_schema

-- A corpus holds each specification under its own name, with clean schemas.
pub record IsCorpus (specs : Dict ManagementSpec) : Type 0 where
  pub at_name : (k : String) (spec : ManagementSpec) → get specs k ≡ some spec → spec.name ≡ k
  pub clean : (k : String) (spec : ManagementSpec) → get specs k ≡ some spec → HasCleanSchemas spec

spec_of-HasCleanSchemas :
    (n d i o s : Option Value) (spec : ManagementSpec)
    → spec_of n d i o s ≡ some spec
    → HasCleanSchemas spec
unfolding spec_of strip_json_schema_meta
spec_of-HasCleanSchemas (some (str n)) (some (str d)) (some (obj i)) (some (obj o)) (some (str s))
      spec e =
    subst HasCleanSchemas {x = new_spec n d i o s} {y = spec} (ground arith) (
      (strip_keys-IsStripping json_schema_meta_keys (obj i)).0,
      (strip_keys-IsStripping json_schema_meta_keys (obj o)).0,
    )
spec_of-HasCleanSchemas _ _ _ _ _ spec e = absurd (ground arith)

from_json-HasCleanSchemas :
    (v : Value) (spec : ManagementSpec) → from_json v ≡ some spec → HasCleanSchemas spec
unfolding from_json
from_json-HasCleanSchemas (obj pairs) spec e =
    spec_of-HasCleanSchemas (field_at "name" pairs) (field_at "description" pairs)
      (field_at "inputSchema" pairs) (field_at "outputSchema" pairs) (field_at "since" pairs) spec e
from_json-HasCleanSchemas _ spec e = cc

put-IsCorpus :
    (specs : Dict ManagementSpec) (spec : ManagementSpec)
    → IsCorpus specs
    → HasCleanSchemas spec
    → IsCorpus (put specs spec.name spec)
put-IsCorpus specs spec h c = record {
  at_name =
      λ k u e. ground (arith, get-put specs spec.name spec k, eq_iff spec.name k, h.at_name k u);
  clean = λ k u e. elim (Bool-cases (spec.name == k)) [
    | inl q ↦
        let same : spec ≡ u = ground (arith, get-put specs spec.name spec k) in
        subst HasCleanSchemas same c
    | inr q ↦ h.clean k u (ground (arith, get-put specs spec.name spec k))
  ];
}

load_specs-IsCorpus :
    (specs loaded : Dict ManagementSpec) (files : List Value)
    → IsCorpus specs
    → load_specs specs files ≡ some loaded
    → IsCorpus loaded
unfolding load_specs
load_specs-IsCorpus specs loaded [] h e = subst IsCorpus (cc e) h
load_specs-IsCorpus specs loaded (raw ∷ rest) h e = elim (Option-cases (from_json raw)) [
  | inl q ↦ absurd (ground arith)
  | inr (spec, q) ↦
      load_specs-IsCorpus (put specs spec.name spec) loaded rest
        (put-IsCorpus specs spec h (from_json-HasCleanSchemas raw spec q)) (ground arith)
]

abbrev pub names_of : List ManagementSpec → List String
names_of specs = map (λ (s : ManagementSpec). s.name) specs

abbrev pub filter : (String → Bool) → List String → List String
filter p [] = []
filter p (k ∷ ks) = if p k then k ∷ filter p ks else filter p ks

-- All names with a handler have been registered, in their order; or the first name without one,
-- where that is not allowed, ended the registration behind the names before it.
abbrev pub IsRegistered : (String → Bool) → Bool → List String → Registrations → Type 0
IsRegistered has_handler allow_missing ks r =
    ((r.missing ≡ none) × (names_of r.registered ≡ filter has_handler ks))
    ⊎ ((before : List String) × (k : String) × (after : List String) × (ks ≡ before ++ k ∷ after)
        × (r.missing ≡ some k)
        × (has_handler k ≡ false)
        × (allow_missing ≡ false)
        × (names_of r.registered ≡ before)
        × All (λ j. has_handler j ≡ true) before)

-- One more name with a handler before the others.
prepend-IsRegistered :
    (has_handler : String → Bool) (allow : Bool) (k : String) (ks : List String)
    (spec : ManagementSpec) (r : Registrations)
    → has_handler k ≡ true
    → spec.name ≡ k
    → IsRegistered has_handler allow ks r
    → IsRegistered has_handler allow (k ∷ ks) (registration (some spec) r)
prepend-IsRegistered has_handler allow k ks spec r e n (inl (m, same)) = inl (m, ground arith)
prepend-IsRegistered has_handler allow k ks spec r e n
      (inr (b, j, a, split, m, bare, al, same, all)) =
    inr (k ∷ b, j, a, ap (λ l. k ∷ l) split, m, bare, al, ground arith, (e, all))

skip-IsRegistered :
    (has_handler : String → Bool) (k : String) (ks : List String) (r : Registrations)
    → has_handler k ≡ false
    → IsRegistered has_handler true ks r
    → IsRegistered has_handler true (k ∷ ks) r
skip-IsRegistered has_handler k ks r e (inl (m, same)) = inl (m, ground arith)
skip-IsRegistered has_handler k ks r e (inr (b, j, a, split, m, bare, al, same, all)) =
    absurd (ground arith)

-- One round of the loop, with its tests bound to their results.
register_step-IsRegistered :
    (has_handler : String → Bool) (b allow : Bool) (found : Option ManagementSpec) (k : String)
    (ks : List String) (r : Registrations)
    → has_handler k ≡ b
    → is_some found ≡ true
    → ((spec : ManagementSpec) → found ≡ some spec → (spec.name ≡ k) × HasCleanSchemas spec)
    → IsRegistered has_handler allow ks r × All HasCleanSchemas r.registered
    → let stopped : Registrations = record { registered = []; missing = some k } in
      let next = if b then registration found r else if allow then r else stopped in
      IsRegistered has_handler allow (k ∷ ks) next × All HasCleanSchemas next.registered
register_step-IsRegistered has_handler true allow (some spec) k ks r e s known (ih, clean) = (
  prepend-IsRegistered has_handler allow k ks spec r e (known spec refl).0 ih,
  ((known spec refl).1, clean),
)
register_step-IsRegistered has_handler true allow none k ks r e s known (ih, clean) =
    absurd (ground arith)
register_step-IsRegistered has_handler false true found k ks r e s known (ih, clean) =
    (skip-IsRegistered has_handler k ks r e ih, clean)
register_step-IsRegistered has_handler false false found k ks r e s known (ih, clean) =
    (inr ([], k, ks, refl, refl, e, refl, refl, tt), tt)

register_names-IsRegistered :
    (specs : Dict ManagementSpec) (has_handler : String → Bool) (allow : Bool) (ks : List String)
    → IsCorpus specs
    → ((k : String) → contains ks k ≡ true → is_some (get specs k) ≡ true)
    → IsRegistered has_handler allow ks (register_names specs has_handler allow ks)
      × All HasCleanSchemas (register_names specs has_handler allow ks).registered
unfolding register_names
register_names-IsRegistered specs has_handler allow [] h there = (inl (refl, refl), tt)
register_names-IsRegistered specs has_handler allow (k ∷ ks) h there =
    register_step-IsRegistered has_handler (has_handler k) allow (get specs k) k ks
      (register_names specs has_handler allow ks) refl (there k (ground (arith, eq_iff k k)))
      (λ spec e. (h.at_name k spec e, h.clean k spec e))
      (register_names-IsRegistered specs has_handler allow ks h
        (λ j e. there j (ground (arith, eq_iff k j))))

empty-IsCorpus : IsCorpus []
unfolding get
empty-IsCorpus = record { at_name = λ k spec e. cc; clean = λ k spec e. absurd cc }

-- Whatever the specification files hold, as long as all of them load, and whichever tools have
-- handlers: the tools are registered in the order of their names, each under its name. Either every
-- name with a handler has been registered, or the first name without one ended the registration
-- right behind all the names before it, which happens only where missing handlers are not allowed.
-- No registered schema has a metadata key at any depth.
pub register_management_tools_lem :
    (files : List Value) (specs : Dict ManagementSpec) (has_handler : String → Bool) (allow : Bool)
    → load_specs [] files ≡ some specs
    → let r = register_management_tools specs has_handler allow in
      IsRegistered has_handler allow (sorted (keys specs)) r × All HasCleanSchemas r.registered
unfolding register_management_tools
register_management_tools_lem files specs has_handler allow e =
    register_names-IsRegistered specs has_handler allow (sorted (keys specs))
      (load_specs-IsCorpus [] specs files empty-IsCorpus e)
      (λ k c. sym (contains-sorted (keys specs) k ∙ contains-keys specs k ∙ has-get specs k) ∙ c)
