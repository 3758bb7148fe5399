-- ===== src/Json/Truth.antt =====
-- Python's `bool(x)` and `isinstance(x, int)` on parsed values.
use copass.Prelude.{
  ℕ, ◌+◌, ◌*◌, ◌-◌, Bool, true, false, ◌&&◌, ◌||◌, not, Option, none, some, [], ◌∷◌, leb, eqb, ◌==◌,
  if◌then◌else◌,
}
use copass.Json.{Value, null, bool, num, str, arr, obj, no_items, item, end, field}
use copass.Text.{Text, codes}

-- A number is zero if its literal has no digit but 0 in front of
-- its exponent.
unfoldable pub is_zero : Text → Bool
is_zero [] = true
is_zero (c ∷ s) =
    let rest = is_zero s in
    if eqb c 101 || eqb c 69 then true else if leb 49 c && leb c 57 then false else rest

abbrev pub truthy : Value → Bool
truthy null = false
truthy (bool b) = b
truthy (num n) = not (is_zero (codes n))
truthy (str s) = not (s == "")
truthy (arr no_items) = false
truthy (arr (item v vs)) = true
truthy (obj end) = false
truthy (obj (field k v fs)) = true

-- The number that a literal of digits stands for, read on from a number.
unfoldable pub natural : ℕ → Text → Option ℕ
natural n [] = some n
natural n (c ∷ s) =
    let rest = natural (n * 10 + (c - 48)) s in if leb 48 c && leb c 57 then rest else none

-- The value of what is an `int`.
abbrev pub int_of : Value → Option ℕ
int_of (num n) = natural 0 (codes n)
int_of (bool true) = some 1
int_of (bool false) = some 0
int_of _ = none
