-- ===== src/Resources/Compute/Filled.antt =====
-- compute.py: the URL of a port, against filling all holes of the template at once.
pub mod Replace
pub mod Url
use copass.Prelude.{
  ℕ, suc, ◌-◌, Bool, true, false, ◌≡◌, refl, ap, ◌∙◌, ◌&&◌, not, some, List, [], ◌∷◌, ◌++◌, eqb,
  arith, if◌then◌else◌, Bool-cases, inl, inr,
}
use copass.Resources.Compute.Gateway.{starts_with, size, replace_behind, replace, proxy_url}
use copass.Text.{Text, codes}

pub data Hole : Type 0 where
  base_url session_id port path : Hole

abbrev pub name : Hole → Text
name base_url = codes "{base_url}"
name session_id = codes "{session_id}"
name port = codes "{port}"
name path = codes "{path}"

-- A template is a list of pieces: texts, and holes for the parts of a URL.
pub data Piece : Type 0 where
  plain : Text → Piece
  hole : Hole → Piece

abbrev pub render : List Piece → Text
render [] = []
render (plain t ∷ ps) = t ++ render ps
render (hole h ∷ ps) = name h ++ render ps

-- All holes filled at once.
abbrev pub filled : (Hole → Text) → List Piece → Text
filled f [] = []
filled f (plain t ∷ ps) = t ++ filled f ps
filled f (hole h ∷ ps) = f h ++ filled f ps

abbrev pub has_no_brace : Text → Bool
has_no_brace [] = true
has_no_brace (c ∷ t) = not (eqb 123 c) && has_no_brace t

abbrev pub IsPlain : Text → Type 0
IsPlain t = has_no_brace t ≡ true

-- No brace is in the texts of some pieces.
abbrev pub AllPlain : List Piece → Type 0
AllPlain [] = Unit
AllPlain (plain t ∷ ps) = IsPlain t × AllPlain ps
AllPlain (hole h ∷ ps) = AllPlain ps

abbrev pub parts : Text → Text → Text → Text → Hole → Text
parts b s n p base_url = b
parts b s n p session_id = s
parts b s n p port = n
parts b s n p path = p
