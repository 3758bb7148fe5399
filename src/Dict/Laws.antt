-- ===== src/Dict/Laws.antt =====
-- The laws of the dictionary operations, each with no side condition.
use copass.Prelude.{
  String, ◌≡◌, refl, none, some, [], ◌∷◌, arith, ◌==◌, eq_iff, if◌then◌else◌, is_some, contains,
}
use copass.Dict.{Dict, get, has, put, remove, keys}

module _ {ℓ} {V : Type ℓ} where
  pub get-put :
      (d : Dict V) (k : String) (v : V) (j : String)
      → get (put d k v) j ≡ (if k == j then some v else get d j)
  unfolding get put
  get-put [] k v j = refl
  get-put ((i, w) ∷ d) k v j = ground (arith, eq_iff k j, eq_iff i k, eq_iff i j, get-put d k v j)

  pub get-remove :
      (d : Dict V) (gone asked : String)
      → get (remove d gone) asked ≡ (if gone == asked then none else get d asked)
  unfolding get remove
  get-remove [] gone asked = ground arith
  get-remove ((i, v) ∷ d) gone asked =
      ground (arith, eq_iff gone asked, eq_iff i gone, eq_iff i asked, get-remove d gone asked)

  pub has-get : (d : Dict V) (k : String) → has d k ≡ is_some (get d k)
  unfolding has get
  has-get [] k = refl
  has-get ((j, v) ∷ d) k = ground (arith, has-get d k)

  pub contains-keys : (d : Dict V) (k : String) → contains (keys d) k ≡ has d k
  unfolding has keys
  contains-keys [] k = refl
  contains-keys ((j, v) ∷ d) k = ground (arith, contains-keys d k)

pub ruleset dict_laws = (get-put, get-remove, has-get)
