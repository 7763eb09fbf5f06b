-- ===== src/Lab6/HashMap.antt =====
-- What lab6 uses of the hash map library (a git submodule): maps from strings to `int` values, a
-- parameter of the models of compute_node.c and control_node.c.
use mai_os.Base.{◌≡◌, Option, none, some, if◌then◌else◌, ℤ, List}
use mai_os.Base.Text.{Text, str_eq}

-- hashmap_put returns 0, -EEXIST or another negative number.
pub data PutResult : Type 0 where
  stored exists failed : PutResult

pub record HashMap : Type 1 where
  pub Map : Type 0
  pub empty : Map
  pub get : Map → Text → Option ℤ
  pub put : Map → Text → ℤ → PutResult × Map
  pub remove : Map → Text → Map
  -- a store through the pointer that hashmap_get returned for the key
  pub write : Map → Text → ℤ → Map
  -- the keys in the order of hashmap_foreach
  pub keys : Map → List Text

-- hashmap_put does not replace the value of a key that is there.
pub record Laws (h : HashMap) : Type 0 where
  pub get-empty : (k : Text) → h.get h.empty k ≡ none
  pub put-exists : (m : h.Map) (k : Text) (v w : ℤ) → h.get m k ≡ some w → h.put m k v ≡ (exists, m)
  pub put-stored :
      (m m' : h.Map) (k j : Text) (v : ℤ)
      → h.put m k v ≡ (stored, m')
      → h.get m' j ≡ (if str_eq k j then some v else h.get m j)
  pub get-remove :
      (m : h.Map) (k j : Text) → h.get (h.remove m k) j ≡ (if str_eq k j then none else h.get m j)
  pub get-write :
      (m : h.Map) (k j : Text) (v w : ℤ)
      → h.get m k ≡ some w
      → h.get (h.write m k v) j ≡ (if str_eq k j then some v else h.get m j)
