-- ===== src/Pipeline/Run.antt =====
-- pipeline/orchestrator.py: `Pipeline.run` and its seven stages, in their order.
use ai_dev_project.Prelude.{String, List, [], ◌∷◌}
use ai_dev_project.Prelude.Text.{utf8}
use ai_dev_project.Python.{ok}
use ai_dev_project.Json.{Value, str, obj, Fields, end, field, item, to_text}
use ai_dev_project.Platform.{Platform, canonical}
use ai_dev_project.Tools.Effects.{lift}
use ai_dev_project.Traceability.{trace_feature}
use ai_dev_project.Pipeline.{build_security_review}
use ai_dev_project.Pipeline.Contract.{
  Pipeline, PipelineResult, StageResult, href, approved, links_to, index_onto,
}
use ai_dev_project.Pipeline.Calls.{
  Call, ◌>>=◌, ◌>>◌, pure, gets, persist, run_stage, idea_id, next_artifact_id,
}

abbrev pub Stage : Type 0
Stage = StageResult × Fields

module _ (P : Platform) {W L : Type 0} (p : Pipeline W L) where
  -- The link to the artifact that has the id `v`.
  abbrev pub link : String → Value → List Fields
  link rel v = links_to rel (href p (to_text P.repr v))

  abbrev pub feature_with : Fields → Fields
  feature_with rest = field "feature_id" (str p.feature_id) rest

  unfoldable pub specify : Fields → String → Call W L Stage
  specify idea artifact_id =
      run_stage P p "grill" "specification" (approved "idea" idea ∷ []) (feature_with end)
        (links_to "requirement" (href p artifact_id))

  unfoldable pub model_threats : Fields → Call W L Stage
  model_threats specification = do
    id ← lift (item specification "id")
    run_stage P p "grill-security" "threat-model" (approved "specification" specification ∷ [])
        (feature_with end) (link "requirement" id)

  unfoldable pub plan_slices : Fields → Fields → Call W L Stage
  plan_slices specification threat_model = do
    id ← lift (item threat_model "id")
    run_stage P p "planner" "plan"
        (approved "specification" specification ∷ approved "threat-model" threat_model ∷ [])
        (feature_with end) (link "threat" id)

  unfoldable pub write_task : Fields → Fields → Call W L Stage
  write_task specification plan = do
    id ← lift (item plan "id")
    run_stage P p "task-writer" "task"
        (approved "specification" specification ∷ approved "plan" plan ∷ [])
        (feature_with (field "plan_id" id end)) (link "plan" id)

  -- The review that the platform compiles from the threat model, with no model asked.
  unfoldable pub review_security : Fields → String → Call W L Stage
  review_security threat_model created_at = do
    artifact_id ← next_artifact_id "security-review"
    id ← lift (item threat_model "id")
    document ← lift (
        build_security_review P
          (record {
            feature_id = p.feature_id;
            artifact_id = artifact_id;
            created_at = created_at;
            actor =
                field "type" (str "agent") (
                  field "id" (str "security-reviewer")
                    (field "role" (str "security-reviewer") end));
            run_id = p.run_id;
            threat_model_href = href p (to_text P.repr id);
          })
          threat_model)
    stage ← persist P p "security-review" artifact_id document
    pure (stage, document)

  abbrev pub task_digest : Fields → String
  task_digest task = P.sha256 (utf8 (P.dumps canonical (obj task)))

  unfoldable pub review_task : Fields → Call W L Stage
  review_task task = do
    id ← lift (item task "id")
    run_stage P p "reviewer" "review" (approved "task" task ∷ [])
        (feature_with (field "task_id" id (field "subject_digest" (str (task_digest task)) end)))
        (link "task" id)

  unfoldable pub set_created_at : String → Call W L (Unit {0})
  set_created_at created_at s = (ok tt, record s { created_at = created_at })

  -- The trace of what was written, and the result.
  unfoldable pub conclude : List StageResult → Call W L PipelineResult
  conclude stages = do
    artifacts ← gets (λ s. s.written)
    index ← lift (index_onto p [] artifacts)
    trace ← lift (trace_feature P index p.feature_id)
    pure (record {
      feature_id = p.feature_id;
      run_id = p.run_id;
      stages = stages;
      artifacts = artifacts;
      trace = trace;
    })

  unfoldable pub run : Fields → String → Call W L PipelineResult
  run idea created_at = do
    set_created_at created_at
    artifact_id ← idea_id P p idea
    first ← persist P p "idea" artifact_id idea
    specification ← specify idea artifact_id
    threat_model ← model_threats specification.1
    plan ← plan_slices specification.1 threat_model.1
    task ← write_task specification.1 plan.1
    security_review ← review_security threat_model.1 created_at
    review ← review_task task.1
    conclude (
        first ∷ specification.0 ∷ threat_model.0 ∷ plan.0 ∷ task.0 ∷ security_review.0 ∷ review.0
        ∷ [])
