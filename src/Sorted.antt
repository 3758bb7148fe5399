-- ===== src/Sorted.antt =====
-- `sorted(names)` on texts: an insertion sort, which gives the list that Python's sort gives.
use Prim.Native.Nat.{Ordering}
use Prim.Native.String.{compare}
use copass.Prelude.{
  suc, String, ◌≡◌, refl, Bool, true, false, ◌||◌, List, [], ◌∷◌, arith, ◌==◌, if◌then◌else◌,
  contains, length,
}

abbrev pub before : String → String → Bool
before a b = elim (compare a b) [ Ordering.gt ↦ false | _ ↦ true ]

unfoldable pub insert_sorted : String → List String → List String
insert_sorted a [] = a ∷ []
insert_sorted a (b ∷ l) = if before a b then a ∷ b ∷ l else b ∷ insert_sorted a l

unfoldable pub sorted : List String → List String
unfolding insert_sorted
sorted [] = []
sorted (a ∷ l) = insert_sorted a (sorted l)

contains-insert_sorted :
    (a k : String) (l : List String) → contains (insert_sorted a l) k ≡ (a == k || contains l k)
unfolding insert_sorted
contains-insert_sorted a k [] = refl
contains-insert_sorted a k (b ∷ l) = ground (arith, contains-insert_sorted a k l)

pub contains-sorted : (l : List String) (k : String) → contains (sorted l) k ≡ contains l k
unfolding sorted
contains-sorted [] k = refl
contains-sorted (a ∷ l) k =
    ground (arith, contains-insert_sorted a k (sorted l), contains-sorted l k)

length-insert_sorted : (a : String) (l : List String) → length (insert_sorted a l) ≡ suc (length l)
unfolding insert_sorted
length-insert_sorted a [] = refl
length-insert_sorted a (b ∷ l) = ground (arith, length-insert_sorted a l)

pub length-sorted : (l : List String) → length (sorted l) ≡ length l
unfolding sorted
length-sorted [] = refl
length-sorted (a ∷ l) = ground (arith, length-insert_sorted a (sorted l), length-sorted l)
