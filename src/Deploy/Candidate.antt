-- ===== src/Deploy/Candidate.antt =====
-- deploy_verify/candidate.py
use ai_dev_project.Prelude.{String, some, is_empty, if◌then◌else◌}
use ai_dev_project.Prelude.Text.{utf8}
use ai_dev_project.Python.{Result, ok, raised, ◌>>=◌, candidate_error}
use ai_dev_project.Json.{obj, Fields}
use ai_dev_project.Platform.{Platform, canonical}
use ai_dev_project.Artifacts.{Schemas, validate_document}

abbrev pub candidate_schema : String
candidate_schema = "release-candidate.schema.json"

-- The instance is typed as a mapping, so the test for one always holds.
unfoldable pub validate_candidate : Schemas → Fields → Result Fields
validate_candidate schemas instance = do
  errors ← validate_document schemas instance candidate_schema
  if is_empty errors then ok instance else raised candidate_error

module _ (P : Platform) where
  unfoldable pub canonical_json : Fields → String
  canonical_json document = P.dumps canonical (obj document)

  unfoldable pub sha256_digest : Fields → String
  sha256_digest document = P.sha256 (utf8 (canonical_json document))

  -- The text of the file is an argument.
  unfoldable pub load_candidate : Schemas → String → Result Fields
  load_candidate schemas text = elim (P.loads text) [
    | some (obj instance) ↦ validate_candidate schemas instance
    | _ ↦ raised candidate_error
  ]
