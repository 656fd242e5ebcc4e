-- ===== src/Pipeline/Whole.antt =====
-- The acts of a whole run of a pipeline.
use ai_dev_project.Prelude.{String, sym, ap, List}
use ai_dev_project.Python.{ok-injective}
use ai_dev_project.Json.{Fields}
use ai_dev_project.Platform.{Platform}
use ai_dev_project.Skills.Base.{ContextInput}
use ai_dev_project.Skills.Contract.{SkillRequest}
use ai_dev_project.Pipeline.Contract.{Pipeline, PipelineState, StageResult, skill_request}
use ai_dev_project.Pipeline.Calls.{run_stage}
use ai_dev_project.Pipeline.Sequence.{Relates}
use ai_dev_project.Pipeline.Effects.{
  Effects, Permitted, AllValid, unchanged, acted_on, seq, chain, lifted, Relates-next_artifact_id,
  Relates-next_decision_id, Relates-next_evidence_id, Relates-issue_token_for, Relates-idea_id,
  Relates-pure, Relates-gets, Relates-call_runner, Relates-persist,
}
use ai_dev_project.Pipeline.Run.{
  specify, model_threats, plan_slices, write_task, review_security, review_task, set_created_at,
  conclude, run,
}

module _ (P : Platform) {W L : Type 0} (p : Pipeline W L) where
  Relates-run_stage :
      (skill_name kind : String) (inputs : List ContextInput) (bindings : Fields)
      (links : List Fields)
      → Relates (Permitted P p) (run_stage P p skill_name kind inputs bindings links)
  unfolding run_stage
  Relates-run_stage skill_name kind inputs bindings links = chain P p (lifted P p _) λ skill.
      chain P p (Relates-next_artifact_id P p kind) λ artifact_id.
        chain P p (Relates-issue_token_for P p skill.tool_name "skills") λ token.
          chain P p (Relates-next_decision_id P p) λ decision_id.
            chain P p (Relates-next_evidence_id P p) λ evidence_id.
              let request =
                skill_request p token skill_name inputs bindings artifact_id decision_id
                  evidence_id in
              seq P p (Relates-gets P p request) λ s q e.
                chain P p
                  (Relates-call_runner P p q
                    (ap (λ (r : SkillRequest). r.run_id) (sym (ok-injective (request s) q e))))
                  λ result. chain P p (lifted P p _) λ artifact.
                    chain P p (lifted P p _) λ document.
                      chain P p (Relates-persist P p kind artifact_id document)
                        λ stage. Relates-pure P p _

  Relates-specify : (idea : Fields) (id : String) → Relates (Permitted P p) (specify P p idea id)
  unfolding specify
  Relates-specify idea id = Relates-run_stage _ _ _ _ _

  Relates-model_threats :
      (specification : Fields) → Relates (Permitted P p) (model_threats P p specification)
  unfolding model_threats
  Relates-model_threats specification = chain P p (lifted P p _) λ id. Relates-run_stage _ _ _ _ _

  Relates-plan_slices :
      (specification threat_model : Fields)
      → Relates (Permitted P p) (plan_slices P p specification threat_model)
  unfolding plan_slices
  Relates-plan_slices specification threat_model =
      chain P p (lifted P p _) λ id. Relates-run_stage _ _ _ _ _

  Relates-write_task :
      (specification plan : Fields) → Relates (Permitted P p) (write_task P p specification plan)
  unfolding write_task
  Relates-write_task specification plan = chain P p (lifted P p _) λ id. Relates-run_stage _ _ _ _ _

  Relates-review_security :
      (threat_model : Fields) (created_at : String)
      → Relates (Permitted P p) (review_security P p threat_model created_at)
  unfolding review_security
  Relates-review_security threat_model created_at =
      chain P p (Relates-next_artifact_id P p "security-review") λ artifact_id.
        chain P p (lifted P p _) λ id. chain P p (lifted P p _) λ document.
          chain P p (Relates-persist P p "security-review" artifact_id document)
            λ stage. Relates-pure P p _

  Relates-review_task : (task : Fields) → Relates (Permitted P p) (review_task P p task)
  unfolding review_task
  Relates-review_task task = chain P p (lifted P p _) λ id. Relates-run_stage _ _ _ _ _

  Relates-conclude : (stages : List StageResult) → Relates (Permitted P p) (conclude P p stages)
  unfolding conclude
  Relates-conclude stages = chain P p (Relates-gets P p _) λ artifacts.
      chain P p (lifted P p _) λ index. chain P p (lifted P p _) λ trace. Relates-pure P p _

  Relates-set_created_at :
      (created_at : String) → Relates (Permitted P p) (set_created_at P p created_at)
  unfolding set_created_at
  Relates-set_created_at created_at = record { relates = unchanged P p }

  Relates-run :
      (idea : Fields) (created_at : String) → Relates (Permitted P p) (run P p idea created_at)
  unfolding run
  Relates-run idea created_at = chain P p (Relates-set_created_at created_at) λ _.
      chain P p (Relates-idea_id P p idea) λ artifact_id.
        chain P p (Relates-persist P p "idea" artifact_id idea) λ first.
          chain P p (Relates-specify idea artifact_id) λ specification.
            chain P p (Relates-model_threats specification.1) λ threat_model.
              chain P p (Relates-plan_slices specification.1 threat_model.1) λ plan.
                chain P p (Relates-write_task specification.1 plan.1) λ task.
                  chain P p (Relates-review_security threat_model.1 created_at)
                    λ review. chain P p (Relates-review_task task.1) λ last. Relates-conclude _

  -- Whether a run of a pipeline ends or raises: what it has done to the world of the tools and to the
  -- provider of the model is a sequence of acts, each of which is a write of a document that fits its
  -- schema, by a tool that the executor admitted, or a question to the model for a skill that the
  -- runner admitted, in a call of the pipeline's own run.
  pub run-Effects :
      (idea : Fields) (created_at : String) (s : PipelineState W L)
      → Effects P p (acted_on P p s) (acted_on P p (run P p idea created_at s).1)
  run-Effects idea created_at s = ((Relates-run idea created_at).relates s).0

  -- If every document that is noted as written fits its schema, so it is after a run, whether it ends
  -- or raises.
  pub run-AllValid :
      (idea : Fields) (created_at : String) (s : PipelineState W L)
      → AllValid P p s.written
      → AllValid P p (run P p idea created_at s).1.written
  run-AllValid idea created_at s = ((Relates-run idea created_at).relates s).1
