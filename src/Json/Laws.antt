-- ===== src/Json/Laws.antt =====
-- Laws of the dict operations, in the form that rewrites a lookup behind a write.
use ai_dev_project.Prelude.{String, ◌≡◌, refl, none, some, arith, eq_iff, ◌==◌, if◌then◌else◌}
use ai_dev_project.Python.{ok}
use ai_dev_project.Json.{Value, Fields, end, field, get, insert, set_default, item}

pub get-end : (key : String) → get end key ≡ none
unfolding get
get-end key = refl

pub get-field :
    (k key : String) (v : Value) (d : Fields)
    → get (field k v d) key ≡ (if k == key then some v else get d key)
unfolding get
get-field k key v d = refl

-- After `d[k] = v` the key `k` holds `v`, and every other key what it held.
pub get-insert :
    (k j : String) (v : Value) (d : Fields)
    → get (insert k v d) j ≡ (if k == j then some v else get d j)
unfolding get insert
get-insert k j v end = refl
get-insert k j v (field i w d) =
    ground (arith, eq_iff k j, eq_iff i k, eq_iff i j, get-insert k j v d)

-- `d.setdefault(k, v)` keeps every value that there is, and gives `k` a value.
pub get-set_default :
    (k j : String) (v : Value) (d : Fields)
    → get (set_default k v d) j
      ≡ elim (get d j) [ none ↦ (if k == j then some v else none) | some w ↦ some w ]
unfolding set_default
get-set_default k j v d = ground (arith, eq_iff k j, get-insert k j v d)

pub item-get : (d : Fields) (k : String) (v : Value) → item d k ≡ ok v → get d k ≡ some v
unfolding item
item-get d k v h = ground arith

pub get-item : (d : Fields) (k : String) (v : Value) → get d k ≡ some v → item d k ≡ ok v
unfolding item
get-item d k v h = ground arith
