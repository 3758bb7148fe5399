-- ===== src/Json/Strip.antt =====
-- Keys stripped from a JSON value at every depth, as _input_schema.py of copass-anthropic-agents and
-- specs.py of copass-management both do, each for its own keys.

use copass.Prelude.{String, ◌≡◌, refl, ap, Bool, true, false, List, if◌then◌else◌, contains}
use copass.Json.{Value, null, bool, num, str, arr, obj, Items, no_items, item, Fields, end, field}

unfoldable mutual
  pub strip_keys : List String → Value → Value
  strip_keys keys null = null
  strip_keys keys (bool b) = bool b
  strip_keys keys (num n) = num n
  strip_keys keys (str s) = str s
  strip_keys keys (arr xs) = arr (strip_items keys xs)
  strip_keys keys (obj fs) = obj (strip_fields keys fs)

  pub strip_items : List String → Items → Items
  strip_items keys no_items = no_items
  strip_items keys (item x xs) = item (strip_keys keys x) (strip_items keys xs)

  pub strip_fields : List String → Fields → Fields
  strip_fields keys end = end
  strip_fields keys (field k v fs) =
      if contains keys k
      then strip_fields keys fs
      else field k (strip_keys keys v) (strip_fields keys fs)

-- No object at any depth of the value has one of the keys.
unfoldable mutual
  pub IsClean : List String → Value → Type 0
  IsClean keys (arr xs) = AreClean keys xs
  IsClean keys (obj fs) = IsCleanObject keys fs
  IsClean keys null = Unit
  IsClean keys (bool b) = Unit
  IsClean keys (num n) = Unit
  IsClean keys (str s) = Unit

  pub AreClean : List String → Items → Type 0
  AreClean keys no_items = Unit
  AreClean keys (item x xs) = IsClean keys x × AreClean keys xs

  pub IsCleanObject : List String → Fields → Type 0
  IsCleanObject keys end = Unit
  IsCleanObject keys (field k v fs) =
      (contains keys k ≡ false) × IsClean keys v × IsCleanObject keys fs

-- One step of the comprehension, with the test bound to its result.
keep_field-IsClean :
    (keys : List String) (b : Bool) (k : String) (v : Value) (fs : Fields)
    → contains keys k ≡ b
    → IsClean keys v
    → IsCleanObject keys fs
    → IsCleanObject keys (if b then fs else field k v fs)
unfolding IsClean
keep_field-IsClean keys true k v fs e hv hfs = hfs
keep_field-IsClean keys false k v fs e hv hfs = (e, hv, hfs)

mutual
  unfolding strip_keys IsClean

  strip_keys-IsClean : (keys : List String) (v : Value) → IsClean keys (strip_keys keys v)
  strip_keys-IsClean keys null = tt
  strip_keys-IsClean keys (bool b) = tt
  strip_keys-IsClean keys (num n) = tt
  strip_keys-IsClean keys (str s) = tt
  strip_keys-IsClean keys (arr xs) = strip_items-AreClean keys xs
  strip_keys-IsClean keys (obj fs) = strip_fields-IsCleanObject keys fs

  strip_items-AreClean : (keys : List String) (xs : Items) → AreClean keys (strip_items keys xs)
  strip_items-AreClean keys no_items = tt
  strip_items-AreClean keys (item x xs) = (strip_keys-IsClean keys x, strip_items-AreClean keys xs)

  strip_fields-IsCleanObject :
      (keys : List String) (fs : Fields) → IsCleanObject keys (strip_fields keys fs)
  strip_fields-IsCleanObject keys end = tt
  strip_fields-IsCleanObject keys (field k v fs) =
      keep_field-IsClean keys (contains keys k) k _ _ refl (strip_keys-IsClean keys v)
        (strip_fields-IsCleanObject keys fs)

mutual
  unfolding strip_keys IsClean

  strip_keys_clean : (keys : List String) (v : Value) → IsClean keys v → strip_keys keys v ≡ v
  strip_keys_clean keys null h = refl
  strip_keys_clean keys (bool b) h = refl
  strip_keys_clean keys (num n) h = refl
  strip_keys_clean keys (str s) h = refl
  strip_keys_clean keys (arr xs) h = ap arr (strip_items_clean keys xs h)
  strip_keys_clean keys (obj fs) h = ap obj (strip_fields_clean keys fs h)

  strip_items_clean :
      (keys : List String) (xs : Items) → AreClean keys xs → strip_items keys xs ≡ xs
  strip_items_clean keys no_items h = refl
  strip_items_clean keys (item x xs) h =
      cc (strip_keys_clean keys x h.0, strip_items_clean keys xs h.1)

  strip_fields_clean :
      (keys : List String) (fs : Fields) → IsCleanObject keys fs → strip_fields keys fs ≡ fs
  strip_fields_clean keys end h = refl
  strip_fields_clean keys (field k v fs) h =
      rw h.0 (cc (strip_keys_clean keys v h.1, strip_fields_clean keys fs h.2))

-- What stripping some keys promises.
abbrev pub IsStripping : List String → (Value → Value) → Value → Type 0
IsStripping keys strip v =
    IsClean keys (strip v) × (IsClean keys v → strip v ≡ v) × (strip (strip v) ≡ strip v)

pub strip_keys-IsStripping : (keys : List String) (v : Value) → IsStripping keys (strip_keys keys) v
strip_keys-IsStripping keys v = (
  strip_keys-IsClean keys v,
  strip_keys_clean keys v,
  strip_keys_clean keys (strip_keys keys v) (strip_keys-IsClean keys v),
)
