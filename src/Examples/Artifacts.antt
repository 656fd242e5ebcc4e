-- ===== src/Examples/Artifacts.antt =====
-- The artifact tools on a disk that is a list of names with the texts under them, and that can hold one
-- text: the one to which the printer of `reading` turns the document.
use ai_dev_project.Prelude.{
  String, ◌≡◌, ◌∙◌, ap, eq_iff, ◌⊎◌, ◌∷◌, refl, true, false, Option, none, some, [], ◌==◌,
  if◌then◌else◌, arith,
}
use ai_dev_project.Prelude.Dict.{Dict, lookup, put, member, keys, lookup-put}
use ai_dev_project.Prelude.Text.{utf8}
use ai_dev_project.Prelude.Sort.{sort}
use ai_dev_project.Python.{ok, raised, os_error, value_error}
use ai_dev_project.Json.{
  str, obj, Fields, end, field, get, get_or, item, to_text, arr, nil, cons, insert,
}
use ai_dev_project.Platform.{Platform}
use ai_dev_project.Artifacts.{Schemas, validate_artifact, validate_document, artifact_schema_name}
use ai_dev_project.Tools.Registry.{ToolRegistry, register, validate_instance}
use ai_dev_project.Tools.Artifacts.{
  read_artifact, write_artifact, list_artifacts, register_artifact_tools, ArtifactFiles, accepted,
  write_as, write_handler, read_handler, id_of, store_document, write, dict_of,
}
use ai_dev_project.Tools.Artifacts.Validity.{
  Written, Storable, world-write_handler, read_handler-write_handler,
}
use ai_dev_project.Artifacts.Files.{
  SchemaFiles, find_repo_root, load_schema, resources, build_registry,
}
use ai_dev_project.Examples.World.{platform}

abbrev document : Fields
document = field "id" (str "FEAT-1") (field "artifact_type" (str "feature") end)

abbrev reading : Platform
reading = record platform { loads = λ s. if s == "id" then some (obj document) else none }

abbrev files : ArtifactFiles (Dict String)
files = record {
  is_file = member;
  read_text = λ name w. elim (lookup name w) [ none ↦ raised os_error | some text ↦ ok text ];
  make_root = λ w. (ok tt, w);
  write_bytes = λ name bytes w. (ok tt, put name "id" w);
  has_root = λ w. true;
  stems = keys;
}

abbrev schemas : Schemas
schemas = record { load_schema = λ name. ok end; iter_errors = λ schema instance. [] }

abbrev args : Fields
args = field "document" (obj document) end

world-write_handler_example :
    ((write_handler reading files schemas args []).1 ≡ [])
    ⊎ ((d : Fields) × (artifact_id : String) × Storable schemas args d artifact_id
        × Written reading files schemas d artifact_id []
            (write_handler reading files schemas args []).1)
world-write_handler_example = world-write_handler reading files schemas args []

stored : (name : String) (w : Dict String) → lookup name (put name "id" w) ≡ some "id"
stored name w = lookup-put name name "id" w ∙ ground (arith, eq_iff name name)

files_keep :
    (name : String) (w : Dict String)
    → (member name (put name "id" w) ≡ true) × (files.read_text name (put name "id" w) ≡ ok "id")
files_keep name w = (
  ap (λ (found : Option String). elim found [ none ↦ false | some _ ↦ true ]) (stored name w),
  ap (λ (found : Option String). elim found [ none ↦ raised os_error | some text ↦ ok text ])
      (stored name w),
)

accepted_document : accepted schemas args ≡ ok document
unfolding accepted item get validate_artifact validate_document artifact_schema_name
    validate_instance sort
accepted_document = refl

abbrev answer : Fields
answer = field "artifact_id" (str "FEAT-1") (field "digest" (str (reading.sha256 (utf8 "id"))) end)

test_write : (write_handler reading files schemas args []).0 ≡ ok answer
unfolding write_handler accepted item get validate_artifact validate_document artifact_schema_name
    validate_instance sort id_of store_document write write_as to_text utf8
test_write = refl

read_handler-write_handler_example :
    let after : Dict String = (write_handler reading files schemas args []).1 in
    (artifact_id : String) × (get document "id" ≡ some (str artifact_id))
    × (get answer "artifact_id" ≡ some (str artifact_id))
    × (read_handler reading files (field "artifact_id" (str artifact_id) end) after
        ≡ (ok (field "artifact_id" (str artifact_id) (field "document" (obj document) end)), after))
read_handler-write_handler_example =
    read_handler-write_handler reading files schemas document (λ name w h. files_keep name w) args
      document answer [] accepted_document refl test_write

abbrev registered : ToolRegistry (Dict String)
registered =
    ("read_artifact", read_artifact reading files)
    ∷ ("write_artifact", write_artifact reading files schemas)
    ∷ ("list_artifacts", list_artifacts reading files)
    ∷ []

test_register : register_artifact_tools reading files schemas [] ≡ ok registered
unfolding register_artifact_tools register put lookup
test_register = refl

-- The root is the nearest parent that has the common schema.
abbrev schema_files : SchemaFiles
schema_files = record {
  is_file = λ path. path == "/work/contracts/schemas/common.schema.json";
  read_text = λ path. ok "id";
  schema_names = λ dir. "common.schema.json" ∷ [];
  iter_errors = λ registry schema v. [];
}

test_root : find_repo_root reading schema_files ("/work/src" ∷ "/work" ∷ "/" ∷ []) ≡ ok "/work"
unfolding find_repo_root
test_root = refl

test_registry :
    build_registry reading schema_files "/work"
    ≡ ok (
        (get_or document "$id" (str "common.schema.json"), obj document)
        ∷ (str "common.schema.json", obj document)
        ∷ [])
unfolding build_registry resources load_schema
test_registry = refl

-- A list of pairs is a dict too; the pairs may be texts of two characters.
test_pairs :
    dict_of (arr (cons (arr (cons (str "type") (cons (str "agent") nil))) (cons (str "ab") nil)))
    ≡ ok (field "type" (str "agent") (field "a" (str "b") end))
unfolding insert
test_pairs = refl

test_no_pairs : dict_of (arr (cons (arr (cons (str "type") nil)) nil)) ≡ raised value_error
test_no_pairs = refl
