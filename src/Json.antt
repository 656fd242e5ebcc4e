-- ===== src/Json.antt =====
-- Values of `json.loads`, which are also the documents, actors and arguments that the control plane
-- passes around as `dict[str, Any]`. A `Fields` is a dict with its keys in insertion order.
pub mod Laws
use ai_dev_project.Prelude.{
  ℕ, String, ◌≡◌, Bool, true, false, not, ◌||◌, Option, none, some, List, [], ◌∷◌, ◌++◌, ◌==◌,
  if◌then◌else◌, is_empty,
}
use ai_dev_project.Prelude.Int.{ℤ, pos, negsuc}
use ai_dev_project.Prelude.Text.{◌<>◌, decimal, is_blank}
use ai_dev_project.Python.{Result, ok, raised, type_error, attribute_error, key_error}

mutual
  pub data Items : Type 0 where
    nil : Items
    cons : Value → Items → Items

  -- A float is kept as the text that Python prints for it: the program never computes with one.
  pub data Value : Type 0 where
    str : String → Value
    int : ℤ → Value
    bool : Bool → Value
    float : String → Value
    null : Value
    obj : Fields → Value
    arr : Items → Value

  pub data Fields : Type 0 where
    field : String → Value → Fields → Fields
    end : Fields

-- `d.get(key)`
unfoldable pub get : Fields → String → Option Value
get end key = none
get (field k v rest) key = if k == key then some v else get rest key

-- `d.get(key, default)`
abbrev pub get_or : Fields → String → Value → Value
get_or d key default = elim (get d key) [ none ↦ default | some v ↦ v ]

-- `d[key] = v`: an old key keeps its place.
unfoldable pub insert : String → Value → Fields → Fields
insert key v end = field key v end
insert key v (field k w rest) = if k == key then field key v rest else field k w (insert key v rest)

-- `d.setdefault(key, v)`
unfoldable pub set_default : String → Value → Fields → Fields
unfolding get insert
set_default key v d = elim (get d key) [ none ↦ insert key v d | some _ ↦ d ]

-- `d[key]`
unfoldable pub item : Fields → String → Result Value
unfolding get
item d key = elim (get d key) [ none ↦ raised key_error | some v ↦ ok v ]

-- `d.update(other)`
unfoldable pub update : Fields → Fields → Fields
unfolding insert
update d end = d
update d (field k v rest) = update (insert k v d) rest

abbrev pub to_list : Items → List Value
to_list nil = []
to_list (cons v vs) = v ∷ to_list vs

abbrev pub to_items : List Value → Items
to_items [] = nil
to_items (v ∷ vs) = cons v (to_items vs)

abbrev pub strs : List String → Items
strs [] = nil
strs (s ∷ rest) = cons (str s) (strs rest)

-- `bool(v)`
abbrev pub truthy : Value → Bool
truthy null = false
truthy (bool b) = b
truthy (int (pos ℕ.zero)) = false
truthy (int _) = true
truthy (float s) = not (s == "0.0" || s == "-0.0")
truthy (str s) = not (is_blank s)
truthy (arr nil) = false
truthy (arr (cons _ _)) = true
truthy (obj end) = false
truthy (obj (field _ _ _)) = true

-- `isinstance(v, str)`, with the text.
abbrev pub as_str : Value → Option String
as_str (str s) = some s
as_str _ = none

-- `d.get(key) == text`
abbrev pub is_text : Option Value → String → Bool
is_text (some (str s)) t = s == t
is_text _ t = false

-- `isinstance(v, Mapping)`
abbrev pub as_obj : Value → Option Fields
as_obj (obj d) = some d
as_obj _ = none

-- `isinstance(v, int) and not isinstance(v, bool)`
abbrev pub as_int : Value → Option ℤ
as_int (int n) = some n
as_int _ = none

-- `v.get(…)` on a value that ought to be a dict: any other value has no such attribute.
abbrev pub need_obj : Value → Result Fields
need_obj (obj d) = ok d
need_obj _ = raised attribute_error

-- `str(v)`; `repr` is Python's own text of a list or a dict.
unfoldable pub to_text : (Value → String) → Value → String
unfolding decimal
to_text repr null = "None"
to_text repr (bool true) = "True"
to_text repr (bool false) = "False"
to_text repr (int (pos n)) = decimal n
to_text repr (int (negsuc n)) = "-" <> decimal (ℕ.suc n)
to_text repr (float s) = s
to_text repr (str s) = s
to_text repr (arr vs) = repr (arr vs)
to_text repr (obj d) = repr (obj d)
