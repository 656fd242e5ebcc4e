-- ===== src/Pipeline/Completion.antt =====
-- What it is for a run of a pipeline to have gone through its stages.
use ai_dev_project.Prelude.{some, String, ◌≡◌, true, false, List, [], ◌∷◌}
use ai_dev_project.Prelude.Text.{utf8, ◌<>◌}
use ai_dev_project.Python.{Result, ok}
use ai_dev_project.Json.{Value, str, obj, Fields, field, end, item, to_text, get, truthy}
use ai_dev_project.Platform.{Platform}
use ai_dev_project.Skills.Base.{ContextInput}
use ai_dev_project.Traceability.{Index, trace_feature}
use ai_dev_project.Pipeline.{build_security_review}
use ai_dev_project.Pipeline.Contract.{
  Pipeline, PipelineState, PipelineResult, StageResult, index_onto, href,
}
use ai_dev_project.Pipeline.Run.{Stage}
use ai_dev_project.Pipeline.Stages.{Persisted, Ran}

module _ (P : Platform) {W L : Type 0} (p : Pipeline W L) where
  -- The result has the stages, the documents that were written, and their trace.
  pub record Concludes (stages : List StageResult) (r : PipelineResult) (s : PipelineState W L)
      : Type 0 where
    pub listed : r.stages ≡ stages
    pub kept : r.artifacts ≡ s.written
    pub index : Index
    pub indexed : index_onto p [] s.written ≡ ok index
    pub traced : trace_feature P index p.feature_id ≡ ok r.trace

  abbrev pub compiled_review : String → String → Value → Fields → Result Fields
  compiled_review created_at artifact_id id threat_model =
      build_security_review P
        (record {
          feature_id = p.feature_id;
          artifact_id = artifact_id;
          created_at = created_at;
          actor =
              field "type" (str "agent")
                (field "id" (str "security-reviewer") (field "role" (str "security-reviewer") end));
          run_id = p.run_id;
          threat_model_href = href p (to_text P.repr id);
        })
        threat_model

  -- An input that is an approved artifact, and the one link of a document.
  abbrev pub from_artifact : String → Fields → ContextInput
  from_artifact name document = record {
    name = name;
    document = document;
    source = "approved_artifact";
  }

  abbrev pub one_link : String → String → List Fields
  one_link rel id =
      field "rel" (str rel) (field "href" (str (p.href_prefix <> ("/" <> (id <> ".json")))) end)
      ∷ []

  -- Each stage is an allowed run of its skill on the documents of the stages before it, and the review
  -- of security is compiled from the threat model.
  pub record Completes (idea : Fields) (created_at : String) (r : PipelineResult)
      (s : PipelineState W L) : Type 0 where
    pub idea_id : String
    pub review_id : String
    pub first : StageResult
    pub specification : Stage
    pub threat_model : Stage
    pub plan : Stage
    pub task : Stage
    pub security_review : Stage
    pub review : Stage
    pub specification_id : Value
    pub threat_model_id : Value
    pub plan_id : Value
    pub task_id : Value
    pub identified_specification : item specification.1 "id" ≡ ok specification_id
    pub identified_threat_model : item threat_model.1 "id" ≡ ok threat_model_id
    pub identified_plan : item plan.1 "id" ≡ ok plan_id
    pub identified_task : item task.1 "id" ≡ ok task_id
    pub named : (v : Value) → get idea "id" ≡ some v → truthy v ≡ true → idea_id ≡ to_text P.repr v
    pub persisted : Persisted P p "idea" idea_id idea first
    pub specified :
        Ran P p "grill" "specification"
          (from_artifact "idea" idea ∷ [])
          (field "feature_id" (str p.feature_id) end)
          (one_link "requirement" idea_id)
          specification
    pub modelled :
        Ran P p "grill-security" "threat-model"
          (from_artifact "specification" specification.1 ∷ [])
          (field "feature_id" (str p.feature_id) end)
          (one_link "requirement" (to_text P.repr specification_id))
          threat_model
    pub planned :
        Ran P p "planner" "plan"
          (from_artifact "specification" specification.1
            ∷ from_artifact "threat-model" threat_model.1
            ∷ [])
          (field "feature_id" (str p.feature_id) end)
          (one_link "threat" (to_text P.repr threat_model_id))
          plan
    pub divided :
        Ran P p "task-writer" "task"
          (from_artifact "specification" specification.1 ∷ from_artifact "plan" plan.1 ∷ [])
          (field "feature_id" (str p.feature_id) (field "plan_id" plan_id end))
          (one_link "plan" (to_text P.repr plan_id))
          task
    pub compiled :
        compiled_review created_at review_id threat_model_id threat_model.1 ≡ ok security_review.1
    pub filed : Persisted P p "security-review" review_id security_review.1 security_review.0
    pub reviewed :
        Ran P p "reviewer" "review"
          (from_artifact "task" task.1 ∷ [])
          (field "feature_id" (str p.feature_id) (
            field "task_id" task_id (
              field "subject_digest"
                (str (
                  P.sha256 (
                    utf8 (
                      P.dumps
                        (record { sort_keys = true; compact = true; ensure_ascii = false })
                        (obj task.1)))))
                end)))
          (one_link "task" (to_text P.repr task_id))
          review
    pub concluded :
        Concludes
          (first ∷ specification.0 ∷ threat_model.0 ∷ plan.0 ∷ task.0 ∷ security_review.0 ∷ review.0
            ∷ [])
          r
          s
