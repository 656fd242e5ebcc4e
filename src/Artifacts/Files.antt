-- ===== src/Artifacts/Files.antt =====
-- artifacts/registry.py: the root of the repository, the schemas below it, and the registry of them in
-- which `$ref` is looked up. What is read fills the interface `Schemas`.
use ai_dev_project.Prelude.{
  String, ◌≡◌, ◌∙◌, ap, sym, arith, Bool, none, some, List, [], ◌∷◌, if◌then◌else◌,
}
use ai_dev_project.Prelude.Text.{◌<>◌}
use ai_dev_project.Python.{
  Result, ok, raised, ◌>>=◌, >>=-eq-ok, ok-injective, os_error, json_decode_error,
}
use ai_dev_project.Json.{Value, str, obj, Fields, get_or, need_obj}
use ai_dev_project.Platform.{Platform}
use ai_dev_project.Tools.Registry.{IterErrors, validate_instance}
use ai_dev_project.Artifacts.{Schemas, validate_document}

-- What the registry uses of the file system, and the validators of `jsonschema` over a registry of
-- resources. `schema_names` are the names of `directory.glob("*.schema.json")`, sorted.
pub record SchemaFiles : Type 0 where
  pub is_file : String → Bool
  pub read_text : String → Result String
  pub schema_names : String → List String
  pub iter_errors : List (Value × Value) → IterErrors

abbrev pub schema_dir : String → String
schema_dir root = root <> "/contracts/schemas"

module _ (P : Platform) (files : SchemaFiles) where
  -- `find_repo_root`, where the paths are the origin and its parents, the nearest first.
  unfoldable pub find_repo_root : List String → Result String
  find_repo_root [] = raised os_error
  find_repo_root (parent ∷ parents) =
      if files.is_file (schema_dir parent <> "/common.schema.json")
      then ok parent
      else find_repo_root parents

  unfoldable pub load_schema : String → String → Result Value
  load_schema root name = do
    text ← files.read_text (schema_dir root <> ("/" <> name))
    elim (P.loads text) [ none ↦ raised json_decode_error | some v ↦ ok v ]

  -- The loop of `build_registry`: each schema by its `$id` and by its name.
  unfoldable pub resources : String → List String → Result (List (Value × Value))
  resources root [] = ok []
  resources root (name ∷ names) = do
    contents ← load_schema root name
    fields ← need_obj contents
    rest ← resources root names
    ok ((get_or fields "$id" (str name), contents) ∷ (str name, contents) ∷ rest)

  unfoldable pub build_registry : String → Result (List (Value × Value))
  build_registry root = resources root (files.schema_names (schema_dir root))

  -- `load_schema` and then `build_registry`, as `validate_document` calls them.
  abbrev validating : String → String → Result Fields
  validating root name = do
    schema ← load_schema root name
    registry ← build_registry root
    need_obj schema

  -- The errors under the registry that was built; without one, no schema was loaded.
  abbrev errors_under : Result (List (Value × Value)) → IterErrors
  errors_under (raised _) schema v = []
  errors_under (ok registry) schema v = files.iter_errors registry schema v

  abbrev pub schemas_at : String → Schemas
  schemas_at root = record {
    load_schema = validating root;
    iter_errors = errors_under (build_registry root);
  }

  -- A validation that returns has read the schema and the whole registry, and its errors are those of the
  -- validator over that registry.
  pub validate_document-registry :
      (root : String) (instance : Fields) (name : String) (errors : List String)
      → validate_document (schemas_at root) instance name ≡ ok errors
      → (schema : Fields) × (registry : List (Value × Value)) × (load_schema root name
          ≡ ok (obj schema))
        × (build_registry root ≡ ok registry)
        × (errors ≡ validate_instance (files.iter_errors registry) (obj instance) schema)
  unfolding validate_document
  validate_document-registry root instance name errors e =
      let (schema, s, e1) = >>=-eq-ok (validating root name) _ e in
      let (v, l, s1) = >>=-eq-ok (load_schema root name) _ s in
      let (registry, b, s2) = >>=-eq-ok (build_registry root) _ s1 in
      (
        schema,
        registry,
        l ∙ ap ok (dict v schema s2),
        b,
        sym (ok-injective _ errors e1)
            ∙ ap (λ r. validate_instance (errors_under r) (obj instance) schema) b,
      )
    where
      dict : (v : Value) (d : Fields) → need_obj v ≡ ok d → v ≡ obj d
      dict (obj d') d e = ap obj (ok-injective d' d e)
      dict _ d e = ground arith
