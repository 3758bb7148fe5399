-- ===== src/Resources/Same.antt =====
-- sources.py and ingest.py: the two ways to ingest a text through a data source.
use copass.Prelude.{
  String, Bool, false, ◌≡◌, refl, ap, ◌∙◌, Option, some, none, List, ◌==◌, eq_iff, arith,
  if◌then◌else◌,
}
use copass.Json.{Value, obj, bool, end, str, Fields, field, field_at}
use copass.Resources.{Call, path_of, optional, strings}
use copass.Resources.Sources
use copass.Resources.Ingest

-- The same field under every key, in whatever order the fields stand.
abbrev pub AreSame : Fields → Fields → Type 0
AreSame fs gs = (k : String) → field_at k fs ≡ field_at k gs

field-AreSame :
    (j : String) (v : Value) (fs gs : Fields)
    → AreSame fs gs
    → AreSame (field j v fs) (field j v gs)
unfolding field_at
field-AreSame j v fs gs h k = ap (λ o. if j == k then some v else o) (h k)

optional-AreSame {ℓ} :
    {A : Type ℓ} (j : String) (json : A → Value) (o : Option A) (fs gs : Fields)
    → AreSame fs gs
    → AreSame (optional j json o fs) (optional j json o gs)
unfolding optional
optional-AreSame j json none fs gs h = h
optional-AreSame j json (some x) fs gs h = field-AreSame j (json x) fs gs h

-- A field changes places with one that has another key.
swap {ℓ} :
    {A : Type ℓ} (i j : String) (v : Value) (json : A → Value) (o : Option A) (fs : Fields)
    → i == j ≡ false
    → AreSame (field i v (optional j json o fs)) (optional j json o (field i v fs))
unfolding optional field_at
swap i j v json none fs h k = refl
swap i j v json (some x) fs h k = ground (arith, h, eq_iff i k, eq_iff j k, eq_iff i j)

source_later :
    (source_id : String) (source_type : Option String) (storage_only : Option Bool)
    (project_id : Option String) (rest : Fields)
    → AreSame
        (field "data_source_id" (str source_id) (
          optional "source_type" str source_type (
            optional "storage_only" bool storage_only (optional "project_id" str project_id rest))))
        (optional "source_type" str source_type (
          optional "storage_only" bool storage_only
            (optional "project_id" str project_id (field "data_source_id" (str source_id) rest))))
source_later source_id source_type storage_only project_id rest k =
    swap "data_source_id" "source_type" (str source_id) str source_type _ refl k
    ∙ optional-AreSame "source_type" str source_type _ _
        (swap "data_source_id" "storage_only" (str source_id) bool storage_only _ refl) k
    ∙ optional-AreSame "source_type" str source_type _ _
        (optional-AreSame "storage_only" bool storage_only _ _
          (swap "data_source_id" "project_id" (str source_id) str project_id rest refl))
        k

-- What the API is asked is the same, but for the order of the fields.
pub record IsSameCall (c d : Call) : Type 0 where
  pub method : c.method ≡ d.method
  pub path : c.path ≡ d.path
  pub query : c.query ≡ d.query
  pub fields :
      (fs : Fields) × (gs : Fields) × (c.body ≡ some (obj fs))
      × (d.body ≡ some (obj gs))
      × AreSame fs gs

-- To ingest a text through a data source is to ingest it in the sandbox with the id of that source:
-- the method, the path and the query are equal, and the bodies have the same value under every key.
pub ingest-text_in_sandbox :
    (sandbox_id source_id text : String) (source_type : Option String) (storage_only : Option Bool)
    (project_id occurred_at speaker : Option String) (participants : Option (List String))
    → IsSameCall
        (Sources.ingest sandbox_id source_id text source_type storage_only project_id occurred_at
          speaker participants)
        (Ingest.text_in_sandbox sandbox_id text source_type storage_only project_id
          (some source_id)
          occurred_at
          speaker
          participants)
unfolding Sources.ingest Ingest.text_in_sandbox Ingest.build_ingest_body Sources.ingest_base
    Ingest.explicit_base optional path_of
ingest-text_in_sandbox sandbox_id source_id text source_type storage_only project_id occurred_at
      speaker participants =
    record {
      method = refl;
      path = refl;
      query = refl;
      fields = (
        _,
        _,
        refl,
        refl,
        field-AreSame "text" (str text) _ _ (
            source_later source_id source_type storage_only project_id (
              optional "occurred_at" str occurred_at (
                optional "speaker" str speaker
                  (optional "participants" strings participants end)))),
      );
    }
