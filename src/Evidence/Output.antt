-- ===== src/Evidence/Output.antt =====
-- evidence/pipeline.py: `process_tool_output`. It may raise, and what the store holds by then stays.
use ai_dev_project.Prelude.{ℕ, String, Option, none, some, not, ◌==◌, if◌then◌else◌}
use ai_dev_project.Prelude.Text.{utf8}
use ai_dev_project.Python.{Result, ok, raised, sensitive_content_error, assertion_error}
use ai_dev_project.Json.{Items, Fields}
use ai_dev_project.Platform.{Platform}
use ai_dev_project.Trust.{TrustTier, is_sensitive}
use ai_dev_project.Evidence.Store.{EvidenceStore, store_bytes}
use ai_dev_project.Evidence.Compression.{
  CompressionResult, compress_for_context, default_excerpt_bytes,
}
use ai_dev_project.Evidence.Record.{RecordArgs, build_evidence_record}

pub record ToolOutputResult : Type 0 where
  pub evidence : Fields
  pub context_text : String
  pub digest : String

-- The keyword arguments of `process_tool_output`.
pub record OutputArgs : Type 0 where
  pub action : String
  pub actor : Fields
  pub run_id : String
  pub artifact_id : String
  pub created_at : String
  pub tier : TrustTier
  pub sensitivity : String
  pub max_bytes : ℕ
  pub artifact_ref : Option String
  pub policy_decision_ref : Option String
  pub links : Items

abbrev record_args : OutputArgs → String → CompressionResult → RecordArgs
record_args a digest c = record {
  artifact_id = a.artifact_id;
  created_at = a.created_at;
  actor = a.actor;
  run_id = a.run_id;
  action = a.action;
  trust_tier = a.tier;
  sensitivity = a.sensitivity;
  artifact_digest = some digest;
  artifact_ref = some (elim a.artifact_ref [ none ↦ c.recovery_handle | some r ↦ r ]);
  policy_decision_ref = a.policy_decision_ref;
  compression = some c;
  links = a.links;
}

module _ (P : Platform) where
  -- What the call returns after its two tests.
  abbrev pub outcome : String → OutputArgs → ToolOutputResult
  outcome text a =
      let c = compress_for_context P text a.tier a.max_bytes default_excerpt_bytes in
      let digest = P.sha256 (utf8 text) in
      record {
        evidence = build_evidence_record (record_args a digest c);
        context_text = c.context_text;
        digest = digest;
      }

  unfoldable pub process_tool_output :
      String → OutputArgs → EvidenceStore → Result ToolOutputResult × EvidenceStore
  process_tool_output text a s =
      if is_sensitive a.tier
      then (raised sensitive_content_error, s)
      else (let c = compress_for_context P text a.tier a.max_bytes default_excerpt_bytes in
          let (digest, s') = store_bytes P (utf8 text) s in
          if not (digest == c.original_digest) then (raised assertion_error, s') else (
            ok (record {
              evidence = build_evidence_record (record_args a digest c);
              context_text = c.context_text;
              digest = digest;
            }),
            s',
          ))
