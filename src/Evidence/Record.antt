-- ===== src/Evidence/Record.antt =====
-- evidence/record.py
use ai_dev_project.Prelude.{String, Option, none, some, if◌then◌else◌, ◌≡◌, arith}
use ai_dev_project.Prelude.Int.{pos}
use ai_dev_project.Json.{bool, int, str, arr, obj, Items, nil, Fields, end, field, insert, get}
use ai_dev_project.Trust.{TrustTier, tier_value}
use ai_dev_project.Evidence.Compression.{CompressionResult}

-- `if value is not None: document[key] = value`
abbrev set_text : String → Option String → Fields → Fields
set_text key none d = d
set_text key (some s) d = insert key (str s) d

-- `if links: document["links"] = links`
abbrev pub set_links : Items → Fields → Fields
set_links nil d = d
set_links links d = insert "links" (arr links) d

abbrev pub compression_entry : CompressionResult → Fields
compression_entry c = field "applied" (bool c.applied) (
    if c.applied
    then field "original_digest" (str c.original_digest) (
        field "original_size_bytes" (int (pos c.original_size_bytes)) (
          field "compressed_size_bytes" (int (pos c.compressed_size_bytes))
            (field "recovery_handle" (str c.recovery_handle) end)))
    else end)

abbrev set_compression : Option CompressionResult → Fields → Fields
set_compression none d = d
set_compression (some c) d = insert "compression" (obj (compression_entry c)) d

-- The keyword arguments of `build_evidence_record`.
pub record RecordArgs : Type 0 where
  pub artifact_id : String
  pub created_at : String
  pub actor : Fields
  pub run_id : String
  pub action : String
  pub trust_tier : TrustTier
  pub sensitivity : String
  pub artifact_digest : Option String
  pub artifact_ref : Option String
  pub policy_decision_ref : Option String
  pub compression : Option CompressionResult
  pub links : Items

unfoldable pub build_evidence_record : RecordArgs → Fields
build_evidence_record a =
    let document : Fields = field "schema_version" (str "1.0.0") (
      field "artifact_type" (str "evidence-record") (
        field "id" (str a.artifact_id) (
          field "created_at" (str a.created_at) (
            field "actor" (obj a.actor) (
              field "run_id" (str a.run_id) (
                field "action" (str a.action) (
                  field "trust_tier" (str (tier_value a.trust_tier))
                    (field "sensitivity" (str a.sensitivity) end)))))))) in
    let with_digest = set_text "artifact_digest" a.artifact_digest document in
    let with_ref = set_text "artifact_ref" a.artifact_ref with_digest in
    let with_decision = set_text "policy_decision_ref" a.policy_decision_ref with_ref in
    set_links a.links (set_compression a.compression with_decision)

module _ (a : RecordArgs) (d : String) where
  -- The digest and the reference that are given are what the record holds.
  pub digest-build_evidence_record :
      a.artifact_digest ≡ some d → get (build_evidence_record a) "artifact_digest" ≡ some (str d)
  unfolding build_evidence_record insert get
  digest-build_evidence_record h = ground arith

  pub ref-build_evidence_record :
      a.artifact_ref ≡ some d → get (build_evidence_record a) "artifact_ref" ≡ some (str d)
  unfolding build_evidence_record insert get
  ref-build_evidence_record h = ground arith

  pub decision_ref-build_evidence_record :
      a.policy_decision_ref ≡ some d
      → get (build_evidence_record a) "policy_decision_ref" ≡ some (str d)
  unfolding build_evidence_record insert get
  decision_ref-build_evidence_record h = ground arith
