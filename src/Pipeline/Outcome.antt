-- ===== src/Pipeline/Outcome.antt =====
-- What a run of a pipeline that ends has gone through.
use ai_dev_project.Prelude.{String, ◌≡◌, ◌∙◌, sym, ap, List, [], arith, inl, inr}
use mathlib.Core.Path.{subst}
use ai_dev_project.Python.{ok, Result-cases, ok-injective}
use ai_dev_project.Json.{Value, Fields, item}
use ai_dev_project.Platform.{Platform}
use ai_dev_project.Tools.Effects.{lift}
use ai_dev_project.Skills.Base.{ContextInput}
use ai_dev_project.Traceability.{trace_feature}
use ai_dev_project.Pipeline.{build_security_review}
use ai_dev_project.Pipeline.Contract.{
  Pipeline, PipelineState, PipelineResult, StageResult, index_onto,
}
use ai_dev_project.Pipeline.Calls.{◌>>=◌, run_stage}
use ai_dev_project.Pipeline.Run.{
  Stage, specify, model_threats, plan_slices, write_task, review_security, review_task, conclude,
  run,
}
use ai_dev_project.Pipeline.Stages.{
  Ensures, Ensures-seq, Ensures-last, Ensures-lift, Persisted, Ran, Ensures-persist,
  Ensures-run_stage, Ensures-idea_id,
}
use ai_dev_project.Pipeline.Completion.{Concludes, compiled_review, Completes}

module _ (P : Platform) {W L : Type 0} (p : Pipeline W L) where
  concluded :
      (stages : List StageResult) (s : PipelineState W L) (r : PipelineResult)
      → (conclude P p stages s).0 ≡ ok r
      → Concludes P p stages r (conclude P p stages s).1
  unfolding conclude ◌>>=◌
  concluded stages s r h = elim (Result-cases (index_onto p [] s.written)) [
    | inr (fault, i) ↦ ground (arith, rw (i, conclude) at h)
    | inl (index, i) ↦ elim (Result-cases (trace_feature P index p.feature_id)) [
      | inr (fault, t) ↦ ground (arith, rw t at (rw i at h))
      | inl (trace, t) ↦
          let same = ok-injective _ r (rw t at (rw i at h)) in
          rw i (
            rw t (record {
              listed = ap (λ (r : PipelineResult). r.stages) (sym same);
              kept = ap (λ (r : PipelineResult). r.artifacts) (sym same);
              index = index;
              indexed = i;
              traced = t ∙ ap (λ (r : PipelineResult). ok r.trace) same;
            }))
    ]
  ]

  abbrev IsReview : Fields → String → Stage → Type 0
  IsReview threat_model created_at r =
      (id : Value) × (artifact_id : String) × (item threat_model "id" ≡ ok id)
      × (compiled_review P p created_at artifact_id id threat_model ≡ ok r.1)
      × Persisted P p "security-review" artifact_id r.1 r.0

  Ensures-review_security :
      (threat_model : Fields) (created_at : String)
      → Ensures
          (review_security P p threat_model created_at)
          (λ r _. IsReview threat_model created_at r)
  unfolding review_security
  Ensures-review_security threat_model created_at = Ensures-last _ λ artifact_id.
      Ensures-seq _ (Ensures-lift (item threat_model "id")) λ id i.
        Ensures-seq _ (Ensures-lift (build_security_review P _ threat_model)) λ document b.
          Ensures-seq _ (Ensures-persist P p "security-review" artifact_id document)
            λ stage persisted. record {
              ensures = λ s r h.
                  subst (IsReview threat_model created_at) (ok-injective (stage, document) r h)
                    (id, artifact_id, i, b, persisted);
            }

  -- A stage that runs a skill with what an earlier document is called.
  Ensures-after :
      (document : Fields) (skill_name kind : String) (inputs : List ContextInput)
      (bindings : Value → Fields) (links : Value → List Fields)
      → Ensures
          (lift (item document "id") >>= λ id.
            run_stage P p skill_name kind inputs (bindings id) (links id))
          (λ r _.
            (id : Value) × (item document "id" ≡ ok id)
            × Ran P p skill_name kind inputs (bindings id) (links id) r)
  Ensures-after document skill_name kind inputs bindings links =
      Ensures-seq _ (Ensures-lift (item document "id")) λ id i. record {
        ensures = λ s r h. (
          id,
          i,
          (Ensures-run_stage P p skill_name kind inputs (bindings id) (links id)).ensures s r h,
        );
      }

  Ensures-run :
      (idea : Fields) (created_at : String)
      → Ensures (run P p idea created_at) (Completes P p idea created_at)
  unfolding run specify model_threats plan_slices write_task review_task
  Ensures-run idea created_at = Ensures-last _ λ _.
      Ensures-seq _ (Ensures-idea_id P p idea) λ artifact_id i0.
        Ensures-seq _ (Ensures-persist P p "idea" artifact_id idea) λ first i1.
          Ensures-seq _ (Ensures-run_stage P p _ _ _ _ _) λ specification i2.
            Ensures-seq _ (Ensures-after _ _ _ _ _ _) λ threat_model (id3, e3, i3).
              Ensures-seq _ (Ensures-after _ _ _ _ _ _) λ plan (id4, e4, i4).
                Ensures-seq _ (Ensures-after _ _ _ _ _ _) λ task (id5, e5, i5).
                  Ensures-seq _ (Ensures-review_security threat_model.1 created_at)
                    λ review (id6, review_id, e6, b6, i6).
                      Ensures-seq _ (Ensures-after _ _ _ _ _ _) λ last (id7, e7, i7). record {
                        ensures = λ s r h. record {
                          idea_id = artifact_id;
                          review_id = review_id;
                          first = first;
                          specification = specification;
                          threat_model = threat_model;
                          plan = plan;
                          task = task;
                          security_review = review;
                          review = last;
                          specification_id = id3;
                          threat_model_id = id4;
                          plan_id = id5;
                          task_id = id7;
                          identified_specification = e3;
                          identified_threat_model = e4;
                          identified_plan = e5;
                          identified_task = e7;
                          named = i0;
                          persisted = i1;
                          specified = i2;
                          modelled = i3;
                          planned = i4;
                          divided = i5;
                          compiled =
                              subst
                                (λ v.
                                  compiled_review P p created_at review_id v threat_model.1
                                  ≡ ok review.1)
                                (ok-injective id6 id4 (sym e6 ∙ e4)) b6;
                          filed = i6;
                          reviewed = i7;
                          concluded = concluded _ s r h;
                        };
                      }

  -- The result of a run that ends lists seven stages, in this order: the idea that it was given, under its id
  -- where that counts as true; the specification, the threat model, the plan and the task, each the artifact of
  -- an allowed run of its skill (grill, grill-security, planner, task-writer) on the documents of the stages that it
  -- is made from, with its bindings and its link; the security review, which is built from the threat model;
  -- and the review, of a run of the reviewer on the task and its digest. The document of each stage was given
  -- to an allowed call of `write_artifact`. The result has the documents that the state notes as written, too,
  -- and the trace of the feature among them, each under its path.
  pub run-Completes :
      (idea : Fields) (created_at : String) (s : PipelineState W L) (r : PipelineResult)
      → (run P p idea created_at s).0 ≡ ok r
      → Completes P p idea created_at r (run P p idea created_at s).1
  run-Completes idea created_at = (Ensures-run idea created_at).ensures
