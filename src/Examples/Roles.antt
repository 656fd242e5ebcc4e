-- ===== src/Examples/Roles.antt =====
-- A role skill, its context and its artifact.
use ai_dev_project.Prelude.{ℕ, suc, String, ◌≡◌, ◌⊎◌, refl, true, some, [], ◌∷◌, all, Any}
use ai_dev_project.Prelude.Int.{pos}
use ai_dev_project.Python.{ok}
use ai_dev_project.Json.{Value, str, obj, Fields, end, field, get, insert, item, update}
use ai_dev_project.Trust.{classify_source}
use ai_dev_project.Skills.Base.{ContextInput, build_context, build_context_onto}
use ai_dev_project.Skills.Base.Context.{Gives, is_clean, build_context_lem}
use ai_dev_project.Skills.Roles.{task_writer, grill, assemble_task, envelope_fields, empty_list}
use ai_dev_project.Skills.Roles.Envelope.{Enveloped, is_task_writer, assemble-Enveloped}
use ai_dev_project.Skills.Contract.{SkillRunner, SkillRequest, SkillState}
use ai_dev_project.Skills.Runner.{run_skill}
use ai_dev_project.Skills.Runner.Mediation.{Admits, prompt_of, provider-run_skill}
use ai_dev_project.Examples.World.{platform}
use ai_dev_project.Examples.Tokens.{human, registry, token}
use ai_dev_project.Examples.Calls.{executor}

abbrev envelope : Fields
envelope = field "artifact_id" (str "TASK-0001") (
    field "created_at" (str "2026-01-01") (
      field "actor" (obj human) (
        field "run_id" (str "RUN-1") (
          field "bindings"
            (obj (field "feature_id" (str "FEAT-1") (field "plan_id" (str "PLAN-1") end))) end))))

-- The model tries to set the id and the status.
abbrev content : Fields
content =
    field "id" (str "TASK-6666") (field "status" (str "done") (field "title" (str "Build") end))

abbrev document : Fields
document = field "schema_version" (str "1.0.0") (
    field "artifact_type" (str "task") (
      field "id" (str "TASK-0001") (
        field "created_at" (str "2026-01-01") (
          field "created_by" (obj human) (
            field "run_id" (str "RUN-1") (
              field "feature_id" (str "FEAT-1") (
                field "plan_id" (str "PLAN-1") (
                  field "status" (str "todo") (
                    field "title" (str "Build") (
                      field "requirement_ids" empty_list (
                        field "control_ids" empty_list (
                          field "contract_changes" empty_list (
                            field "code_changes" empty_list
                              (field "tests" empty_list end))))))))))))))

test_assemble : task_writer.assemble content envelope ≡ ok document
unfolding assemble_task envelope_fields item get update insert
test_assemble = refl

assemble-Enveloped_example : Enveloped "task" envelope document
assemble-Enveloped_example =
    assemble-Enveloped task_writer "task" is_task_writer content envelope document test_assemble

abbrev idea : ContextInput
idea = record { name = "idea"; document = human; source = "approved_artifact" }

test_context : build_context (idea ∷ []) ≡ ok (field "idea" (obj human) end)
unfolding build_context_onto insert classify_source
test_context = refl

build_context_lem_example :
    (all is_clean (idea ∷ []) ≡ true)
    × ((key : String) (v : Value)
        → get (field "idea" (obj human) end) key ≡ some v
        → Any (Gives key v) (idea ∷ []))
build_context_lem_example =
    build_context_lem (idea ∷ []) (field "idea" (obj human) end) test_context

abbrev runner : SkillRunner ℕ
runner = record {
  policy = executor.policy;
  capabilities = registry;
  skills = ("grill", grill) ∷ [];
  llm = λ request n. (ok (record { text = "{}"; model = "stub" }), suc n);
  schemas = record { load_schema = λ name. ok end; iter_errors = λ schema instance. [] };
}

abbrev request : SkillRequest
request = record {
  run_id = "RUN-1";
  token = token;
  skill_name = "grill";
  inputs = idea ∷ [];
  bindings = field "feature_id" (str "FEAT-1") end;
  artifact_id = "SPEC-0001";
  created_at = "2026-01-01";
  decision_id = "PD-1";
  evidence_id = "EV-1";
  scope = "skills";
  now = pos 5;
}

abbrev state : SkillState ℕ
state = record { store = []; provider = 3 }

provider-run_skill_example :
    ((run_skill platform runner request state).1.provider ≡ 3)
    ⊎ ((skill : _) × (context : Fields) × Admits platform runner request skill context
        × ((run_skill platform runner request state).1.provider
            ≡ (runner.llm (prompt_of platform runner request skill context) 3).1))
provider-run_skill_example = provider-run_skill platform runner request state
