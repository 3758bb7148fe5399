-- ===== src/Resources/Compute/Filled/Replace.antt =====
-- compute.py: what replacing the name of one hole does.
use copass.Prelude.{
  ℕ, suc, ◌-◌, Bool, true, false, ◌≡◌, refl, ap, ◌∙◌, List, [], ◌∷◌, ◌++◌, eqb, arith,
  if◌then◌else◌, Bool-cases, inl, inr,
}
use copass.Resources.Compute.Gateway.{starts_with, size, replace_behind, replace}
use copass.Text.{Text, codes}
use copass.Resources.Compute.Filled.{
  Hole, base_url, session_id, port, path, name, Piece, plain, hole, render, IsPlain, AllPlain,
}

-- A text without braces is left as it is.
replace-plain :
    (old new t s : Text)
    → IsPlain t
    → replace (123 ∷ old) new (t ++ s) ≡ t ++ replace (123 ∷ old) new s
unfolding replace_behind starts_with
replace-plain old new [] s h = refl
replace-plain old new (c ∷ t) s h = elim (Bool-cases (eqb 123 c)) [
  | inl q ↦ ground (arith, q, h)
  | inr q ↦ rw q (ap (λ l. c ∷ l) (replace-plain old new t s (ground (arith, q, h))))
]

-- What is to be skipped is skipped.
replace_behind-skip :
    (old new t s : Text) → replace_behind (size t) old new (t ++ s) ≡ replace old new s
unfolding replace_behind
replace_behind-skip old new [] s = refl
replace_behind-skip old new (c ∷ t) s = replace_behind-skip old new t s

starts_with-append : (t s : Text) → starts_with t (t ++ s) ≡ true
unfolding starts_with
starts_with-append [] s = refl
starts_with-append (c ∷ t) s = ground (arith, starts_with-append t s)

one_less : (n : ℕ) → suc n - 1 ≡ n
one_less n = omega arith

-- The old text is found.
hit :
    (old new s : Text)
    → replace (123 ∷ old) new (123 ∷ (old ++ s)) ≡ new ++ replace (123 ∷ old) new s
unfolding replace_behind starts_with
hit old new s = rw (starts_with-append old s) (
    ap (λ n. new ++ replace_behind n (123 ∷ old) new (old ++ s)) (one_less (size old))
    ∙ ap (λ l. new ++ l) (replace_behind-skip (123 ∷ old) new old s))

-- Another name is left as it is.
miss :
    (old new t s : Text)
    → starts_with old (t ++ s) ≡ false
    → IsPlain t
    → replace (123 ∷ old) new (123 ∷ (t ++ s)) ≡ 123 ∷ (t ++ replace (123 ∷ old) new s)
unfolding replace_behind starts_with
miss old new t s h p = rw h (ap (λ l. 123 ∷ l) (replace-plain old new t s p))

abbrev same_hole : Hole → Hole → Bool
same_hole base_url base_url = true
same_hole session_id session_id = true
same_hole port port = true
same_hole path path = true
same_hole _ _ = false

-- A hole is filled if it is the one that is asked for.
abbrev fill_one : Hole → Text → Piece → Piece
fill_one h new (plain t) = plain t
fill_one h new (hole g) = if same_hole h g then plain new else hole g

abbrev pub fill : Hole → Text → List Piece → List Piece
fill h new [] = []
fill h new (p ∷ ps) = fill_one h new p ∷ fill h new ps

replace-name :
    (h g : Hole) (new s : Text)
    → replace (name h) new (name g ++ s)
      ≡ (if same_hole h g then new else name g) ++ replace (name h) new s
unfolding starts_with
replace-name base_url base_url new s = hit (codes "base_url}") new s
replace-name base_url session_id new s =
    miss (codes "base_url}") new (codes "session_id}") s refl refl
replace-name base_url port new s = miss (codes "base_url}") new (codes "port}") s refl refl
replace-name base_url path new s = miss (codes "base_url}") new (codes "path}") s refl refl
replace-name session_id base_url new s =
    miss (codes "session_id}") new (codes "base_url}") s refl refl
replace-name session_id session_id new s = hit (codes "session_id}") new s
replace-name session_id port new s = miss (codes "session_id}") new (codes "port}") s refl refl
replace-name session_id path new s = miss (codes "session_id}") new (codes "path}") s refl refl
replace-name port base_url new s = miss (codes "port}") new (codes "base_url}") s refl refl
replace-name port session_id new s = miss (codes "port}") new (codes "session_id}") s refl refl
replace-name port port new s = hit (codes "port}") new s
replace-name port path new s = miss (codes "port}") new (codes "path}") s refl refl
replace-name path base_url new s = miss (codes "path}") new (codes "base_url}") s refl refl
replace-name path session_id new s = miss (codes "path}") new (codes "session_id}") s refl refl
replace-name path port new s = miss (codes "path}") new (codes "port}") s refl refl
replace-name path path new s = hit (codes "path}") new s

replace-name-plain :
    (h : Hole) (new t s : Text)
    → IsPlain t
    → replace (name h) new (t ++ s) ≡ t ++ replace (name h) new s
replace-name-plain base_url new t s p = replace-plain (codes "base_url}") new t s p
replace-name-plain session_id new t s p = replace-plain (codes "session_id}") new t s p
replace-name-plain port new t s p = replace-plain (codes "port}") new t s p
replace-name-plain path new t s p = replace-plain (codes "path}") new t s p

render-fill_one :
    (b : Bool) (new : Text) (g : Hole) (ps : List Piece)
    → (if b then new else name g) ++ render ps ≡ render ((if b then plain new else hole g) ∷ ps)
render-fill_one true new g ps = refl
render-fill_one false new g ps = refl

replace-nothing : (old new : Text) → replace old new [] ≡ []
unfolding replace_behind
replace-nothing old new = refl

-- To replace the name of a hole is to fill that hole.
pub replace-render :
    (h : Hole) (new : Text) (ps : List Piece)
    → AllPlain ps
    → replace (name h) new (render ps) ≡ render (fill h new ps)
replace-render h new [] k = replace-nothing (name h) new
replace-render h new (plain t ∷ ps) k =
    replace-name-plain h new t (render ps) k.0 ∙ ap (λ l. t ++ l) (replace-render h new ps k.1)
replace-render h new (hole g ∷ ps) k =
    replace-name h g new (render ps)
    ∙ ap (λ l. (if same_hole h g then new else name g) ++ l) (replace-render h new ps k)
    ∙ render-fill_one (same_hole h g) new g (fill h new ps)

one-AllPlain :
    (b : Bool) (new : Text) (g : Hole) (ps : List Piece)
    → IsPlain new
    → AllPlain ps
    → AllPlain ((if b then plain new else hole g) ∷ ps)
one-AllPlain true new g ps p k = (p, k)
one-AllPlain false new g ps p k = k

pub fill-AllPlain :
    (h : Hole) (new : Text) (ps : List Piece) → IsPlain new → AllPlain ps → AllPlain (fill h new ps)
fill-AllPlain h new [] p k = tt
fill-AllPlain h new (plain t ∷ ps) p k = (k.0, fill-AllPlain h new ps p k.1)
fill-AllPlain h new (hole g ∷ ps) p k =
    one-AllPlain (same_hole h g) new g (fill h new ps) p (fill-AllPlain h new ps p k)
