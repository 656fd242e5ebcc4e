-- ===== src/Tools/Artifacts.antt =====
-- The artifact tools of tools/builtin.py: the store of artifacts, its three handlers and their
-- registration.
pub mod Validity
pub mod Registration
use ai_dev_project.Prelude.{
  ℕ, String, ◌≡◌, ◌⊎◌, inl, inr, refl, Bool, true, false, none, some, List, [], ◌∷◌, is_empty,
  is_empty→nil, Bool-cases, if◌then◌else◌, arith,
}
use ai_dev_project.Prelude.Sort.{sort, text_less}
use ai_dev_project.Prelude.Text.{◌<>◌, is_blank, utf8}
use ai_dev_project.Python.{
  Result, ok, raised, ◌>>=◌, >>=-eq-ok, Result-cases, value_error, type_error, key_error,
  json_decode_error,
}
use ai_dev_project.Json.{
  Value, str, obj, arr, bool, nil, cons, strs, Fields, end, field, get, item, to_text, int, float,
  null, Items, insert,
}
use ai_dev_project.Platform.{Platform, canonical}
use ai_dev_project.Tools.Registry.{ToolSpec, ToolRegistry, register}
use ai_dev_project.Tools.Schema.{of_type, object_schema, closed}
use ai_dev_project.Tools.Effects.{Act, and_then, lift, next}
use ai_dev_project.Artifacts.{Schemas, validate_artifact}

abbrev pub read_schema : Fields
read_schema = object_schema ("artifact_id" ∷ []) (field "artifact_id" (of_type "string") end) closed

abbrev pub read_result : Fields
read_result =
    object_schema ("artifact_id" ∷ "document" ∷ [])
      (field "artifact_id" (of_type "string") (field "document" (of_type "object") end)) end

abbrev pub write_schema : Fields
write_schema = object_schema ("document" ∷ []) (field "document" (of_type "object") end) closed

abbrev pub write_result : Fields
write_result =
    object_schema ("artifact_id" ∷ "digest" ∷ [])
      (field "artifact_id" (of_type "string") (field "digest" (of_type "string") end)) end

abbrev pub list_schema : Fields
list_schema = field "type" (str "object") closed

abbrev pub list_result : Fields
list_result =
    object_schema ("artifact_ids" ∷ [])
      (field "artifact_ids"
        (obj (field "type" (str "array") (field "items" (of_type "string") end))) end)
      end

-- What the store uses of the file system `W`. A text is the name that is joined to the root.
pub record ArtifactFiles (W : Type 0) : Type 0 where
  pub is_file : String → W → Bool
  pub read_text : String → W → Result String
  -- `root.mkdir(parents=True, exist_ok=True)`
  pub make_root : W → Result (Unit {0}) × W
  pub write_bytes : String → List ℕ → W → Result (Unit {0}) × W
  pub has_root : W → Bool
  -- the stems of `root.glob("*.json")`
  pub stems : W → List String

-- `path`, below the root
abbrev pub file_name : String → String
file_name artifact_id = artifact_id <> ".json"

-- The id under which `write` stores a document.
unfoldable pub id_of : Fields → Result String
id_of document = elim (get document "id") [
  | some (str s) ↦ if is_blank s then raised value_error else ok s
  | _ ↦ raised value_error
]

-- A key of a dict. A key that is not a text is kept as the text under which `json.dumps` writes it; a list or a
-- dict is not hashable.
abbrev pub key_of : Value → Result String
key_of (str s) = ok s
key_of (int n) = ok (to_text (λ v. "") (int n))
key_of (bool true) = ok "true"
key_of (bool false) = ok "false"
key_of (float s) = ok s
key_of null = ok "null"
key_of (arr _) = raised type_error
key_of (obj _) = raised type_error

-- An element of the sequence from which `dict` makes a dict: a sequence of two values.
abbrev pub pair_of : Value → Result (String × Value)
pair_of (arr (cons k (cons v nil))) = key_of k >>= λ key. ok (key, v)
pair_of (arr _) = raised value_error
pair_of (str (String.◌∷◌ c (String.◌∷◌ d String.[]))) =
    ok (String.◌∷◌ c String.[], str (String.◌∷◌ d String.[]))
pair_of (str _) = raised value_error
pair_of (obj (field j v (field k w end))) = ok (j, str k)
pair_of (obj _) = raised value_error
pair_of _ = raised type_error

abbrev pub pairs_onto : Fields → Items → Result Fields
pairs_onto d nil = ok d
pairs_onto d (cons v vs) = pair_of v >>= λ pair. pairs_onto (insert pair.0 pair.1 d) vs

-- `dict(value)`: the characters of a text are no pairs.
abbrev pub dict_of : Value → Result Fields
dict_of (obj d) = ok d
dict_of (arr vs) = pairs_onto end vs
dict_of (str s) = if is_blank s then ok end else raised value_error
dict_of _ = raised type_error

-- The document that the write handler stores.
unfoldable pub accepted : Schemas → Fields → Result Fields
accepted schemas args = do
  given ← item args "document"
  document ← dict_of given
  errors ← validate_artifact schemas document
  if is_empty errors then ok document else raised value_error

module _ (P : Platform) {W : Type 0} (files : ArtifactFiles W) where
  abbrev pub parse_artifact : String → Result Fields
  parse_artifact text = elim (P.loads text) [
    | none ↦ raised json_decode_error
    | some (obj d) ↦ ok d
    | some _ ↦ raised type_error
  ]

  unfoldable pub read : String → W → Result Fields
  read artifact_id w =
      if files.is_file (file_name artifact_id) w
      then files.read_text (file_name artifact_id) w >>= parse_artifact
      else raised key_error

  abbrev pub canonical_bytes : Fields → List ℕ
  canonical_bytes document = utf8 (P.dumps canonical (obj document))

  -- The part of `write` after its test of the id.
  unfoldable pub write_as : Fields → String → Act W String
  write_as document artifact_id = and_then files.make_root λ _.
      and_then (files.write_bytes (file_name artifact_id) (canonical_bytes document))
        λ _. lift (ok (P.sha256 (canonical_bytes document)))

  unfoldable pub write : Fields → Act W String
  write document = next (write_as document) (id_of document)

  unfoldable pub list_ids : W → List String
  unfolding sort
  list_ids w = if files.has_root w then sort text_less (files.stems w) else []

  unfoldable pub read_handler : Fields → Act W Fields
  read_handler args w = (
    do
      given ← item args "artifact_id"
      let artifact_id = to_text P.repr given
      document ← read artifact_id w
      ok (field "artifact_id" (str artifact_id) (field "document" (obj document) end)),
    w,
  )

  unfoldable pub list_handler : Fields → Act W Fields
  list_handler args w = (ok (field "artifact_ids" (arr (strs (list_ids w))) end), w)

  unfoldable pub store_document : Fields → Act W Fields
  store_document document = and_then (write document) λ digest. lift (do
    artifact_id ← item document "id"
    ok (field "artifact_id" (str (to_text P.repr artifact_id)) (field "digest" (str digest) end)))

  unfoldable pub write_handler : Schemas → Fields → Act W Fields
  write_handler schemas args = next store_document (accepted schemas args)

  abbrev pub read_artifact : ToolSpec W
  read_artifact = record {
    name = "read_artifact";
    scope = "workspace";
    description = "Read a canonical workflow artifact by id";
    args_schema = read_schema;
    result_schema = read_result;
    handler = read_handler;
  }

  abbrev pub write_artifact : Schemas → ToolSpec W
  write_artifact schemas = record {
    name = "write_artifact";
    scope = "workspace";
    description = "Validate and persist a canonical workflow artifact";
    args_schema = write_schema;
    result_schema = write_result;
    handler = write_handler schemas;
  }

  abbrev pub list_artifacts : ToolSpec W
  list_artifacts = record {
    name = "list_artifacts";
    scope = "workspace";
    description = "List stored artifact ids";
    args_schema = list_schema;
    result_schema = list_result;
    handler = list_handler;
  }

  unfoldable pub register_artifact_tools : Schemas → ToolRegistry W → Result (ToolRegistry W)
  register_artifact_tools schemas tools = do
    with_read ← register read_artifact tools
    with_write ← register (write_artifact schemas) with_read
    register list_artifacts with_write
