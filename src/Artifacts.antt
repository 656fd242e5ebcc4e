-- ===== src/Artifacts.antt =====
-- artifacts/registry.py. The schemas of the repository and the package `jsonschema` are parameters.
pub mod Render
pub mod Files
use ai_dev_project.Prelude.{
  String, Bool, true, false, not, ◌&&◌, none, some, List, [], ◌∷◌, if◌then◌else◌,
}
use ai_dev_project.Prelude.Text.{◌<>◌, is_blank}
use ai_dev_project.Python.{Result, ok, raised, ◌>>=◌, value_error, json_decode_error}
use ai_dev_project.Json.{str, obj, Fields, get}
use ai_dev_project.Platform.{Platform}
use ai_dev_project.Tools.Registry.{IterErrors, validate_instance}

-- `load_schema` reads a file under `contracts/schemas`; `iter_errors` knows the other schemas, which a
-- schema may refer to.
pub record Schemas : Type 0 where
  pub load_schema : String → Result Fields
  pub iter_errors : IterErrors

abbrev pub schema_suffix : String
schema_suffix = ".schema.json"

unfoldable pub artifact_schema_name : Fields → Result String
artifact_schema_name instance = elim (get instance "artifact_type") [
  | some (str s) ↦ if is_blank s then raised value_error else ok (s <> schema_suffix)
  | _ ↦ raised value_error
]

module _ (schemas : Schemas) where
  unfoldable pub validate_document : Fields → String → Result (List String)
  validate_document instance schema_name = do
    schema ← schemas.load_schema schema_name
    ok (validate_instance schemas.iter_errors (obj instance) schema)

  unfoldable pub validate_artifact : Fields → Result (List String)
  validate_artifact instance = do
    name ← artifact_schema_name instance
    validate_document instance name

-- `key in instance`
abbrev pub has_key : Fields → String → Bool
has_key d key = elim (get d key) [ none ↦ false | some _ ↦ true ]

-- `validate_file`, of the text of the file at `path`.
unfoldable pub validate_file : Platform → Schemas → String → String → Result (List String)
validate_file P schemas path text = elim (P.loads text) [
  | none ↦ raised json_decode_error
  | some (obj instance) ↦
      if not (has_key instance "artifact_type") && has_key instance "baseline_id"
      then validate_document schemas instance "baseline.schema.json"
      else validate_artifact schemas instance
  | some _ ↦ ok ((path <> ": top-level JSON value must be an object") ∷ [])
]
