-- ===== src/Artifacts/Render/Records.antt =====
-- artifacts/render.py: the reviews, the records of the control plane, the waiver and the baseline.
use ai_dev_project.Prelude.{String, List, [], ◌∷◌, ◌++◌, is_empty, if◌then◌else◌}
use ai_dev_project.Prelude.Text.{◌<>◌, join}
use ai_dev_project.Python.{Result, ok, ◌>>=◌}
use ai_dev_project.Json.{Value, null, str, obj, Fields, end, get_or, item, truthy, need_obj}
use ai_dev_project.Platform.{Platform}
use ai_dev_project.Artifacts.Render.{
  tick, commas, ticked_commas, row, shown, shown_at, shown_get, meta,
}
use ai_dev_project.Artifacts.Render.Documents.{table}

module _ (P : Platform) where
  unfoldable pub finding_line : Value → Result String
  finding_line f = do
    id ← shown_at P f "id"
    severity ← shown_at P f "severity"
    summary ← shown_at P f "summary"
    ok (row (tick id ∷ severity ∷ summary ∷ []))

  -- `_render_review`
  unfoldable pub render_review : Fields → Result String
  render_review instance = do
    id ← shown_at P (obj instance) "id"
    about ← meta P instance
    task_id ← shown_at P (obj instance) "task_id"
    subject_digest ← shown_at P (obj instance) "subject_digest"
    verdict ← shown_at P (obj instance) "verdict"
    findings ← table finding_line instance "findings"
    ok (
        join "\n" (
          ("# Review: " <> id)
          ∷ ""
          ∷ about
          ∷ ""
          ∷ ("Task: " <> (tick task_id <> "  "))
          ∷ ("Subject digest: " <> tick subject_digest)
          ∷ ""
          ∷ ("**Verdict: " <> (verdict <> "**"))
          ∷ ""
          ∷ "## Findings"
          ∷ "| ID | Severity | Summary |"
          ∷ "|---|---|---|"
          ∷ (if is_empty findings then "| - | - | none |" ∷ [] else findings)))

  unfoldable pub disposition_line : Value → Result String
  disposition_line r = do
    risk_id ← shown_at P r "risk_id"
    severity ← shown_at P r "severity"
    disposition ← shown_at P r "disposition"
    fields ← need_obj r
    ok (
        row (
          tick risk_id
          ∷ severity
          ∷ disposition
          ∷ tick (shown P (get_or fields "waiver_id" (str "-")))
          ∷ []))

  -- `_render_security_review`
  unfoldable pub render_security_review : Fields → Result String
  render_security_review instance = do
    id ← shown_at P (obj instance) "id"
    about ← meta P instance
    threat_model_id ← shown_at P (obj instance) "threat_model_id"
    verdict ← shown_at P (obj instance) "verdict"
    risk_dispositions ← table disposition_line instance "risk_dispositions"
    ok (
        join "\n" (
          ("# Security Review: " <> id)
          ∷ ""
          ∷ about
          ∷ ""
          ∷ ("Threat model: " <> tick threat_model_id)
          ∷ ""
          ∷ ("**Verdict: " <> (verdict <> "**"))
          ∷ ""
          ∷ "## Risk dispositions"
          ∷ "| Risk | Severity | Disposition | Waiver |"
          ∷ "|---|---|---|---|"
          ∷ risk_dispositions))

  -- `_render_policy_decision`
  unfoldable pub render_policy_decision : Fields → Result String
  render_policy_decision instance = do
    id ← shown_at P (obj instance) "id"
    about ← meta P instance
    point ← shown_at P (obj instance) "point"
    decision ← shown_at P (obj instance) "decision"
    reason_codes ← item instance "reason_codes" >>= ticked_commas
    bundle_version ← shown_at P (obj instance) "policy_bundle_version"
    input_digest ← shown_at P (obj instance) "input_digest"
    ok (
        join "\n" (
          ("# Policy Decision: " <> id)
          ∷ ""
          ∷ about
          ∷ ""
          ∷ ("- Point: " <> tick point)
          ∷ ("- Decision: **" <> (decision <> "**"))
          ∷ ("- Reason codes: " <> reason_codes)
          ∷ ("- Bundle: " <> tick bundle_version)
          ∷ ("- Input digest: " <> tick input_digest)
          ∷ []))

  -- `compression and compression.get("applied")`, with the dict
  abbrev pub compression_lines : Value → Result (List String)
  compression_lines compression =
      if truthy compression
      then (need_obj compression >>= λ c. ok (
          if truthy (get_or c "applied" null)
          then ("- Compression: "
              <> (tick (shown_get P c "original_size_bytes")
                  <> (" -> "
                      <> (tick (shown_get P c "compressed_size_bytes")
                          <> (" bytes, handle " <> tick (shown_get P c "recovery_handle"))))))
            ∷ []
          else []))
      else ok []

  -- `_render_evidence_record`
  unfoldable pub render_evidence_record : Fields → Result String
  render_evidence_record instance = do
    id ← shown_at P (obj instance) "id"
    about ← meta P instance
    action ← shown_at P (obj instance) "action"
    trust_tier ← shown_at P (obj instance) "trust_tier"
    sensitivity ← shown_at P (obj instance) "sensitivity"
    compression ← compression_lines (get_or instance "compression" null)
    ok (
        join "\n" (
          (("# Evidence Record: " <> id)
            ∷ ""
            ∷ about
            ∷ ""
            ∷ ("- Action: " <> action)
            ∷ ("- Trust tier: " <> tick trust_tier)
            ∷ ("- Sensitivity: " <> tick sensitivity)
            ∷ [])
          ++ (if truthy (get_or instance "artifact_digest" null)
              then ("- Artifact digest: " <> tick (shown_get P instance "artifact_digest")) ∷ []
              else [])
          ++ compression))

  -- `(v or {}).get("id")`
  abbrev id_or_empty : Value → Result String
  id_or_empty v = need_obj (if truthy v then v else obj end) >>= λ d. ok (shown_get P d "id")

  -- `_render_waiver`
  unfoldable pub render_waiver : Fields → Result String
  render_waiver instance = do
    id ← shown_at P (obj instance) "id"
    about ← meta P instance
    risk_id ← shown_at P (obj instance) "risk_id"
    severity ← shown_at P (obj instance) "severity"
    justification ← shown_at P (obj instance) "justification"
    compensating_control ← shown_at P (obj instance) "compensating_control"
    owner ← item instance "owner" >>= id_or_empty
    expires_at ← shown_at P (obj instance) "expires_at"
    approved_by ← item instance "approved_by" >>= id_or_empty
    ok (
        join "\n" (
          ("# Waiver: " <> id)
          ∷ ""
          ∷ about
          ∷ ""
          ∷ ("- Risk: " <> (tick risk_id <> (" (severity: " <> (severity <> ")"))))
          ∷ ("- Justification: " <> justification)
          ∷ ("- Compensating control: " <> compensating_control)
          ∷ ("- Owner: " <> owner)
          ∷ ("- Expires at: " <> expires_at)
          ∷ ("- Approved by: " <> approved_by)
          ∷ []))

  -- `_render_baseline`
  unfoldable pub render_baseline : Fields → Result String
  render_baseline instance = do
    baseline_id ← shown_at P (obj instance) "baseline_id"
    version ← shown_at P (obj instance) "version"
    status ← shown_at P (obj instance) "status"
    profile ← shown_at P (obj instance) "profile"
    approved_by ← item instance "approved_by" >>= commas
    approved_at ← shown_at P (obj instance) "approved_at"
    ok (
        join "\n" (
          ("# Architecture Baseline: " <> baseline_id)
          ∷ ""
          ∷ ("- Version: " <> version)
          ∷ ("- Status: " <> status)
          ∷ ("- Profile: **" <> (profile <> "**"))
          ∷ ("- Approved by: " <> approved_by)
          ∷ ("- Approved at: " <> approved_at)
          ∷ ""
          ∷ "Машиночитаемый источник: `baseline.json`."
          ∷ []))
