-- ===== src/Tools/Registry.antt =====
-- tools/registry.py. `W` is the world that the handlers act on: files, processes, the network.
use ai_dev_project.Prelude.{
  ℕ, String, Bool, true, false, Option, none, some, List, [], ◌∷◌, ◌==◌, ltb, eqb, map,
  if◌then◌else◌,
}
use ai_dev_project.Prelude.Dict.{Dict, lookup, put, member, keys}
use ai_dev_project.Prelude.Sort.{sort, text_less}
use ai_dev_project.Prelude.Text.{◌<>◌, is_blank, join, decimal}
use ai_dev_project.Python.{Result, ok, raised, value_error, unknown_tool_error}
use ai_dev_project.Json.{Value, str, Fields, end, field}

-- A part of an error's `absolute_path`: a key of an object or a place in an array.
pub data PathPart : Type 0 where
  key : String → PathPart
  index : ℕ → PathPart

pub record SchemaError : Type 0 where
  pub absolute_path : List PathPart
  pub message : String

-- `Draft202012Validator(schema).iter_errors(instance)` of the package `jsonschema`.
abbrev pub IterErrors : Type 0
IterErrors = Fields → Value → List SchemaError

abbrev part_text : PathPart → String
part_text (key s) = s
part_text (index n) = decimal n

-- `<` on lists of parts. A key and an index never stand at the same place of one instance.
path_less : List PathPart → List PathPart → Bool
path_less ps [] = false
path_less [] (q ∷ qs) = true
path_less (key a ∷ ps) (key b ∷ qs) =
    let rest = path_less ps qs in if a == b then rest else text_less a b
path_less (index a ∷ ps) (index b ∷ qs) =
    let rest = path_less ps qs in if eqb a b then rest else ltb a b
path_less (_ ∷ ps) (_ ∷ qs) = false

abbrev error_text : SchemaError → String
error_text e =
    let path = join "/" (map part_text e.absolute_path) in
    (if is_blank path then "<root>" else path) <> (": " <> e.message)

unfoldable pub validate_instance : IterErrors → Value → Fields → List String
unfolding sort path_less join
validate_instance errors instance schema =
    map error_text
      (sort (λ e f. path_less e.absolute_path f.absolute_path) (errors schema instance))

pub record ToolSpec (W : Type 0) : Type 0 where
  pub name : String
  pub scope : String
  pub description : String
  pub args_schema : Fields
  pub result_schema : Fields
  pub handler : Fields → W → Result Fields × W

abbrev pub ToolRegistry : Type 0 → Type 0
ToolRegistry W = Dict (ToolSpec W)

module _ {W : Type 0} where
  unfoldable pub register : ToolSpec W → ToolRegistry W → Result (ToolRegistry W)
  register spec tools =
      if is_blank spec.name
      then raised value_error
      else if member spec.name tools
      then raised value_error
      else ok (put spec.name spec tools)

  unfoldable pub get_tool : String → ToolRegistry W → Result (ToolSpec W)
  get_tool name tools = elim (lookup name tools) [
    | none ↦ raised (unknown_tool_error name)
    | some spec ↦ ok spec
  ]

  unfoldable pub tool_names : ToolRegistry W → List String
  unfolding sort
  tool_names tools = sort text_less (keys tools)

-- The schema of `make_tool` where the caller gives none, or an empty one.
abbrev pub default_schema : Fields
default_schema = field "type" (str "object") end

abbrev schema_or_default : Option Fields → Fields
schema_or_default (some (field k v d)) = field k v d
schema_or_default _ = default_schema

unfoldable pub make_tool :
    {W : Type 0}
    → String
    → String
    → String
    → (Fields → W → Result Fields × W)
    → Option Fields
    → Option Fields
    → ToolSpec W
make_tool name scope description handler args_schema result_schema = record {
  name = name;
  scope = scope;
  description = description;
  args_schema = schema_or_default args_schema;
  result_schema = schema_or_default result_schema;
  handler = handler;
}
