-- ===== src/Resources/Paths.antt =====
-- The segments of the paths that the methods of the resources make.
use Prim.Native.String.{◌++◌ as text_append}
use Prim.Native.String.append
use Prim.Native.Char.{code}
use mathlib.Core.List.{append_assoc, append-nil}
use copass.Prelude.{
  ℕ, String, Option, some, none, Bool, true, false, ◌≡◌, refl, ap, sym, ◌∙◌, List, [], ◌∷◌, ◌++◌,
  map, All, not, eqb, ◌&&◌, arith, if◌then◌else◌, Bool-cases, inl, inr,
}
use copass.Resources.{slash, path_of, storage_base, query_base}
use copass.Text.{Text, codes}

codes-text_append : (s t : String) → codes (text_append s t) ≡ codes s ++ codes t
codes-text_append String.[] t = ap codes (append.nil t)
codes-text_append (String.◌∷◌ c s) t =
    ap codes (append.cons c s t) ∙ ap (λ l. code c ∷ l) (codes-text_append s t)

abbrev onto_first : ℕ → List Text → List Text
onto_first c [] = (c ∷ []) ∷ []
onto_first c (t ∷ ts) = (c ∷ t) ∷ ts

-- `path.split("/")`
unfoldable pub segments : Text → List Text
segments [] = [] ∷ []
segments (c ∷ s) = let rest = segments s in if eqb c 47 then [] ∷ rest else onto_first c rest

abbrev pub has_no_slash : Text → Bool
has_no_slash [] = true
has_no_slash (c ∷ s) = not (eqb c 47) && has_no_slash s

abbrev pub IsSegment : String → Type 0
IsSegment s = has_no_slash (codes s) ≡ true

segments-cons : (s : Text) → (t : Text) × (ts : List Text) × (segments s ≡ t ∷ ts)
unfolding segments
segments-cons [] = ([], [], refl)
segments-cons (c ∷ s) = elim (Bool-cases (eqb c 47)) [
  | inl q ↦ rw q ([], segments s, refl)
  | inr q ↦ let (t, ts, p) = segments-cons s in rw q (rw p (c ∷ t, ts, refl))
]

segments-append : (s t : Text) → segments (s ++ (47 ∷ t)) ≡ segments s ++ segments t
unfolding segments
segments-append [] t = refl
segments-append (c ∷ s) t = elim (Bool-cases (eqb c 47)) [
  | inl q ↦ rw q (ap (λ l. [] ∷ l) (segments-append s t))
  | inr q ↦
      let (u, us, p) = segments-cons s in rw q (ap (onto_first c) (segments-append s t) ∙ rw p refl)
]

segments-no_slash : (t : Text) → has_no_slash t ≡ true → segments t ≡ t ∷ []
unfolding segments
segments-no_slash [] h = refl
segments-no_slash (c ∷ s) h = ground (arith, h, segments-no_slash s)

-- The segments of a path.
abbrev pub split : String → List Text
split path = segments (codes path)

pub split-slash : (path s : String) → split (slash path s) ≡ split path ++ split s
unfolding segments
split-slash path s =
    ap segments (
      codes-text_append path (text_append "/" s)
      ∙ ap (λ l. codes path ++ l) (codes-text_append "/" s))
    ∙ segments-append (codes path) (codes s)

pub split-path_of :
    (path : String) (ss : List String)
    → All IsSegment ss
    → split (path_of path ss) ≡ split path ++ map codes ss
unfolding path_of
split-path_of path [] h = sym (append-nil (split path))
split-path_of path (s ∷ ss) h =
    split-path_of (slash path s) ss h.1
    ∙ ap (λ l. l ++ map codes ss)
        (split-slash path s ∙ ap (λ l. split path ++ l) (segments-no_slash (codes s) h.0))
    ∙ append_assoc (split path) (codes s ∷ []) (map codes ss)

-- The segments of some texts, one after the other.
abbrev pub split_all : List String → List Text
split_all [] = []
split_all (s ∷ ss) = split s ++ split_all ss

split-path_of-all :
    (path : String) (ss : List String) → split (path_of path ss) ≡ split path ++ split_all ss
unfolding path_of
split-path_of-all path [] = sym (append-nil (split path))
split-path_of-all path (s ∷ ss) =
    split-path_of-all (slash path s) ss
    ∙ ap (λ l. l ++ split_all ss) (split-slash path s)
    ∙ append_assoc (split path) (split s) (split_all ss)

abbrev sixth : List Text → Option Text
sixth (a ∷ b ∷ c ∷ d ∷ e ∷ t ∷ ts) = some t
sixth _ = none

-- The segment behind `/api/v1/storage/sandboxes` or `/api/v1/query/sandboxes`.
abbrev pub sandbox_in : String → Option Text
sandbox_in path = sixth (split path)

-- A base of five segments, the first of which is empty.
abbrev pub is_base : List Text → Bool
is_base (a ∷ b ∷ c ∷ d ∷ e ∷ []) = true
is_base _ = false

sixth-append :
    (base : List Text) (t : Text) (ts : List Text)
    → is_base base ≡ true
    → sixth (base ++ (t ∷ ts)) ≡ some t
sixth-append [] t ts h = ground (arith, h)
sixth-append (a ∷ []) t ts h = ground (arith, h)
sixth-append (a ∷ b ∷ []) t ts h = ground (arith, h)
sixth-append (a ∷ b ∷ c ∷ []) t ts h = ground (arith, h)
sixth-append (a ∷ b ∷ c ∷ d ∷ []) t ts h = ground (arith, h)
sixth-append (a ∷ b ∷ c ∷ d ∷ e ∷ []) t ts h = refl
sixth-append (a ∷ b ∷ c ∷ d ∷ e ∷ f ∷ base) t ts h = ground (arith, h)

sandbox_in-path_of :
    (base sandbox_id : String) (ss : List String)
    → IsSegment sandbox_id
    → is_base (split base) ≡ true
    → sandbox_in (path_of (slash base sandbox_id) ss) ≡ some (codes sandbox_id)
unfolding segments
sandbox_in-path_of base sandbox_id ss h k =
    ap sixth (
      split-path_of-all (slash base sandbox_id) ss
      ∙ ap (λ l. l ++ split_all ss) (split-slash base sandbox_id)
      ∙ append_assoc (split base) (split sandbox_id) (split_all ss)
      ∙ ap (λ l. split base ++ (l ++ split_all ss)) (segments-no_slash (codes sandbox_id) h))
    ∙ sixth-append (split base) (codes sandbox_id) (split_all ss) k

pub sandbox_in-storage :
    (sandbox_id : String) (ss : List String)
    → IsSegment sandbox_id
    → sandbox_in (path_of (slash storage_base sandbox_id) ss) ≡ some (codes sandbox_id)
unfolding segments
sandbox_in-storage sandbox_id ss h = sandbox_in-path_of storage_base sandbox_id ss h refl

pub sandbox_in-query :
    (sandbox_id : String) (ss : List String)
    → IsSegment sandbox_id
    → sandbox_in (path_of (slash query_base sandbox_id) ss) ≡ some (codes sandbox_id)
unfolding segments
sandbox_in-query sandbox_id ss h = sandbox_in-path_of query_base sandbox_id ss h refl

abbrev after_six : List Text → List Text
after_six (a ∷ b ∷ c ∷ d ∷ e ∷ f ∷ ts) = ts
after_six _ = []

-- A path without its first six segments.
abbrev pub behind : String → List Text
behind path = after_six (split path)

pub behind-path_of :
    (sandbox_id : String) (ss : List String)
    → IsSegment sandbox_id
    → All IsSegment ss
    → behind (path_of (slash storage_base sandbox_id) ss) ≡ map codes ss
unfolding segments
behind-path_of sandbox_id ss h k = ap after_six (
    split-path_of (slash storage_base sandbox_id) ss k
    ∙ ap (λ l. l ++ map codes ss)
        (split-slash storage_base sandbox_id
          ∙ ap (λ l. split storage_base ++ l) (segments-no_slash (codes sandbox_id) h)))
