-- ===== src/Artifacts/Render/Dispatch.antt =====
-- artifacts/render.py: `_RENDERERS` and `render_artifact`.
use ai_dev_project.Prelude.{String, not, ◌&&◌, none, some, List, [], ◌∷◌, if◌then◌else◌}
use ai_dev_project.Prelude.Dict.{Dict, lookup}
use ai_dev_project.Prelude.Text.{◌<>◌, join, is_blank}
use ai_dev_project.Python.{Result, ok, raised, ◌>>=◌, value_error}
use ai_dev_project.Json.{Value, null, str, Fields, get_or}
use ai_dev_project.Platform.{Platform}
use ai_dev_project.Artifacts.{has_key}
use ai_dev_project.Artifacts.Render.{shown, links_section, approval_section}
use ai_dev_project.Artifacts.Render.Documents.{
  render_idea, render_specification, render_threat_model,
}
use ai_dev_project.Artifacts.Render.Plans.{render_plan, render_task}
use ai_dev_project.Artifacts.Render.Records.{
  render_review, render_security_review, render_policy_decision, render_evidence_record,
  render_waiver, render_baseline,
}

-- `GENERATED_HEADER.format(source=source)`
abbrev pub generated_header : String → String
generated_header source =
    "<!-- GENERATED FILE. DO NOT EDIT. Source of truth: "
    <> (source <> ". Regenerate with `sdlc render`. -->")

module _ (P : Platform) where
  abbrev pub renderers : Dict (Fields → Result String)
  renderers =
      ("idea", render_idea P)
      ∷ ("specification", render_specification P)
      ∷ ("threat-model", render_threat_model P)
      ∷ ("plan", render_plan P)
      ∷ ("task", render_task P)
      ∷ ("review", render_review P)
      ∷ ("security-review", render_security_review P)
      ∷ ("policy-decision", render_policy_decision P)
      ∷ ("evidence-record", render_evidence_record P)
      ∷ ("waiver", render_waiver P)
      ∷ ("baseline", render_baseline P)
      ∷ []

  abbrev pub artifact_type_of : Fields → Value
  artifact_type_of instance =
      if not (has_key instance "artifact_type") && has_key instance "baseline_id"
      then str "baseline"
      else get_or instance "artifact_type" null

  -- `[section for section in sections if section]`
  abbrev pub kept : List String → List String
  kept [] = []
  kept (section ∷ sections) = if is_blank section then kept sections else section ∷ kept sections

  abbrev pub with_extras : String → List String → String
  with_extras body [] = body
  with_extras body (extra ∷ extras) = body <> ("\n\n" <> join "\n\n" (extra ∷ extras))

  -- `render_artifact`
  unfoldable pub render_artifact : Fields → String → Result String
  unfolding lookup
  render_artifact instance source = elim (lookup (shown P (artifact_type_of instance)) renderers) [
    | none ↦ raised value_error
    | some renderer ↦ do
      body ← renderer instance
      links ← links_section P (get_or instance "links" null)
      approval ← approval_section P (get_or instance "approval" null)
      ok (
          generated_header source
          <> ("\n\n" <> (with_extras body (kept (links ∷ approval ∷ [])) <> "\n")))
  ]
