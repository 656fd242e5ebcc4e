-- ===== src/Traceability/Loading.antt =====
-- traceability.py: the documents of the repository, read from its files. The index that they give has
-- resolved paths, and the tracing works on the paths relative to the root of the repository.
use ai_dev_project.Prelude.{String, Bool, true, false, none, some, List, [], ◌∷◌}
use ai_dev_project.Prelude.Dict.{put}
use ai_dev_project.Python.{Result, ok, raised, ◌>>=◌, type_error, json_decode_error}
use ai_dev_project.Json.{obj, Fields}
use ai_dev_project.Platform.{Platform}
use ai_dev_project.Traceability.{Traceability, Index, trace_feature}

-- What the tracing uses of the file system: the JSON files below `specs`, sorted, and of each path
-- whether it is a file, where it resolves to, and its text. `relative_to` is that to the root, which
-- raises outside of it.
pub record Documents : Type 0 where
  pub json_files : List String
  pub is_file : String → Bool
  pub resolve : String → String
  pub relative_to : String → Result String
  pub read_text : String → Result String

module _ (P : Platform) (d : Documents) where
  -- `_read`
  unfoldable pub read_document : String → Result Fields
  read_document path = do
    text ← d.read_text path
    elim (P.loads text) [
      | none ↦ raised json_decode_error
      | some (obj fields) ↦ ok fields
      | some _ ↦ raised type_error
    ]

  -- `artifacts[path.resolve()] = _read(path)`, if the path is a file
  abbrev pub load_onto : Index → String → Result Index
  load_onto index path = elim (d.is_file path) [
    | false ↦ ok index
    | true ↦ read_document path >>= λ document. ok (put (d.resolve path) document index)
  ]

  -- `load_artifacts`, with the documents so far
  unfoldable pub load_artifacts_onto : Index → List String → Result Index
  load_artifacts_onto index [] = ok index
  load_artifacts_onto index (path ∷ paths) = do
    next ← load_onto index path
    load_artifacts_onto next paths

  unfoldable pub discover : Result Index
  discover = load_artifacts_onto [] d.json_files

  -- `{path.relative_to(repo_root).as_posix(): path for path in index}`
  unfoldable pub relative_paths : Index → Result Index
  relative_paths [] = ok []
  relative_paths ((path, document) ∷ rest) = do
    key ← d.relative_to path
    others ← relative_paths rest
    ok ((key, document) ∷ others)

  -- `trace_feature` without the argument `artifacts`
  unfoldable pub trace_repository : String → Result Traceability
  trace_repository feature_id = do
    index ← discover
    by_href ← relative_paths index
    trace_feature P by_href feature_id
