-- ===== src/Json.antt =====
-- JSON values as Python's `json` gives them: the arguments and results of tools, and schemas.
-- A number is kept by its literal, since no code here computes with one.
pub mod Strip
pub mod Truth
pub mod Sanitize
mod Examples
use copass.Prelude.{
  Option, none, some, ◌==◌, if◌then◌else◌, String, Bool, List, [], ◌∷◌, ◌++◌, Option, none, some,
  ◌==◌, if◌then◌else◌,
}

mutual
  pub data Value : Type 0 where
    null : Value
    bool : Bool → Value
    num : String → Value
    str : String → Value
    obj : Fields → Value
    arr : Items → Value

  pub data Items : Type 0 where
    no_items : Items
    item : Value → Items → Items

  pub data Fields : Type 0 where
    end : Fields
    field : String → Value → Fields → Fields

-- `dict(x) if isinstance(x, dict) else {}`
abbrev pub as_dict : Value → Fields
as_dict (obj fs) = fs
as_dict _ = end

-- The field of an object under a key: the first, as keys are distinct in a dictionary.
unfoldable pub field_at : String → Fields → Option Value
field_at k end = none
field_at k (field j v fs) = if j == k then some v else field_at k fs
