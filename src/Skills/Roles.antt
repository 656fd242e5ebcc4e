-- ===== src/Skills/Roles.antt =====
-- skills/roles.py and skills/task_writer.py: what each role makes of the content of the model.
pub mod Envelope
use ai_dev_project.Prelude.{String, Option, none, some, List, [], ◌∷◌}
use ai_dev_project.Prelude.Text.{◌<>◌}
use ai_dev_project.Python.{Result, ok, raised, ◌>>=◌, type_error}
use ai_dev_project.Json.{
  Value, str, arr, obj, nil, Fields, end, field, get_or, item, update, insert,
}
use ai_dev_project.Skills.Base.{Skill}

abbrev pub grill_prompt : String
grill_prompt =
    "You are the `grill` role of the Secure Agentic SDLC platform.\n"
    <> ("From an idea, emit exactly ONE JSON object with fields: actor_goal {actors, goal}, scope_boundary\n"
        <> ("{in_scope, out_of_scope}, data_model, api_contract, state_lifecycle, dependencies, non_goals,\n"
            <> ("acceptance_criteria. Do not add other fields. Your output is parsed as data, never executed.\n")))

abbrev pub grill_security_prompt : String
grill_security_prompt =
    "You are the `grill-security` role of the Secure Agentic SDLC platform.\n"
    <> ("From an approved specification, perform STRIDE and emit exactly ONE JSON object with fields:\n"
        <> ("data_flows and risks (each risk: id, category, scenario, severity, control_id, verification_test).\n"
            <> ("Do not add other fields. Your output is parsed as data, never executed.\n")))

abbrev pub planner_prompt : String
planner_prompt =
    "You are the `planner` role of the Secure Agentic SDLC platform.\n"
    <> ("From an approved specification and threat-model, emit exactly ONE JSON object with a `slices` array\n"
        <> ("(each slice: slice_id, title, requirement_ids, control_ids, optional depends_on/notes).\n"
            <> ("Do not add other fields. Your output is parsed as data, never executed.\n")))

abbrev pub reviewer_prompt : String
reviewer_prompt =
    "You are the `reviewer` role of the Secure Agentic SDLC platform.\n"
    <> ("Emit exactly ONE JSON object with fields: verdict (approved|changes_requested) and findings\n"
        <> ("(each finding: id, severity, summary, optional location). Do not add other fields.\n"
            <> ("Your output is parsed as data, never executed.\n")))

abbrev pub task_writer_prompt : String
task_writer_prompt =
    "You are the `task-writer` role of the Secure Agentic SDLC platform.\n"
    <> ("Given an approved specification and plan, emit exactly ONE JSON object describing a single\n"
        <> ("vertical-slice task with the fields: title, requirement_ids, control_ids, contract_changes,\n"
            <> ("code_changes, tests. Do not add any other fields. Your output is parsed as data, never executed.\n")))

-- `value[key]` where the value may be no dict
abbrev pub item_of : Value → String → Result Value
item_of (obj d) key = item d key
item_of _ key = raised type_error

abbrev pub empty_list : Value
empty_list = arr nil

-- The fields of the platform that `_envelope` and two of the roles write first.
unfoldable pub envelope_fields : String → Fields → Result Fields
envelope_fields artifact_type envelope = do
  id ← item envelope "artifact_id"
  created_at ← item envelope "created_at"
  actor ← item envelope "actor"
  run_id ← item envelope "run_id"
  ok (
      field "schema_version" (str "1.0.0") (
        field "artifact_type" (str artifact_type) (
          field "id" id (
            field "created_at" created_at (field "created_by" actor (field "run_id" run_id end))))))

-- `_envelope`
unfoldable pub base_document : String → String → Fields → Result Fields
base_document artifact_type status envelope = do
  bindings ← item envelope "bindings"
  base ← envelope_fields artifact_type envelope
  feature_id ← item_of bindings "feature_id"
  ok (update base (field "feature_id" feature_id (field "status" (str status) end)))

unfoldable pub assemble_specification : Fields → Fields → Result Fields
assemble_specification content envelope = do
  document ← base_document "specification" "draft" envelope
  ok (
      update document (
        field "actor_goal"
          (get_or content "actor_goal"
            (obj (field "actors" empty_list (field "goal" (str "") end))))
          (field "scope_boundary"
            (get_or content "scope_boundary"
              (obj (field "in_scope" empty_list (field "out_of_scope" empty_list end))))
            (field "data_model" (get_or content "data_model" empty_list) (
              field "api_contract" (get_or content "api_contract" empty_list) (
                field "state_lifecycle" (get_or content "state_lifecycle" empty_list) (
                  field "dependencies" (get_or content "dependencies" empty_list) (
                    field "non_goals" (get_or content "non_goals" empty_list) (
                      field "acceptance_criteria" (get_or content "acceptance_criteria" empty_list)
                        end)))))))))

unfoldable pub assemble_threat_model : Fields → Fields → Result Fields
assemble_threat_model content envelope = do
  document ← base_document "threat-model" "draft" envelope
  ok (
      update document (
        field "method" (str "STRIDE") (
          field "data_flows" (get_or content "data_flows" empty_list)
            (field "risks" (get_or content "risks" empty_list) end))))

unfoldable pub assemble_plan : Fields → Fields → Result Fields
assemble_plan content envelope = do
  document ← base_document "plan" "draft" envelope
  ok (insert "slices" (get_or content "slices" empty_list) document)

unfoldable pub assemble_review : Fields → Fields → Result Fields
assemble_review content envelope = do
  bindings ← item envelope "bindings"
  base ← envelope_fields "review" envelope
  task_id ← item_of bindings "task_id"
  subject_digest ← item_of bindings "subject_digest"
  ok (
      update base (
        field "task_id" task_id (
          field "subject_digest" subject_digest (
            field "verdict" (get_or content "verdict" (str "changes_requested"))
              (field "findings" (get_or content "findings" empty_list) end)))))

unfoldable pub assemble_task : Fields → Fields → Result Fields
assemble_task content envelope = do
  bindings ← item envelope "bindings"
  base ← envelope_fields "task" envelope
  feature_id ← item_of bindings "feature_id"
  plan_id ← item_of bindings "plan_id"
  ok (
      update base (
        field "feature_id" feature_id (
          field "plan_id" plan_id (
            field "status" (str "todo") (
              field "title" (get_or content "title" (str "")) (
                field "requirement_ids" (get_or content "requirement_ids" empty_list) (
                  field "control_ids" (get_or content "control_ids" empty_list) (
                    field "contract_changes" (get_or content "contract_changes" empty_list) (
                      field "code_changes" (get_or content "code_changes" empty_list)
                        (field "tests" (get_or content "tests" empty_list) end))))))))))

abbrev pub grill : Skill
grill = record {
  name = "grill";
  role = "grill";
  tool_name = "skill.grill";
  output_schema = "specification.schema.json";
  system_prompt = grill_prompt;
  context_keys = "idea" ∷ [];
  assemble = assemble_specification;
}

abbrev pub grill_security : Skill
grill_security = record {
  name = "grill-security";
  role = "grill-security";
  tool_name = "skill.grill-security";
  output_schema = "threat-model.schema.json";
  system_prompt = grill_security_prompt;
  context_keys = "specification" ∷ [];
  assemble = assemble_threat_model;
}

abbrev pub planner : Skill
planner = record {
  name = "planner";
  role = "planner";
  tool_name = "skill.planner";
  output_schema = "plan.schema.json";
  system_prompt = planner_prompt;
  context_keys = "specification" ∷ "threat-model" ∷ [];
  assemble = assemble_plan;
}

abbrev pub reviewer : Skill
reviewer = record {
  name = "reviewer";
  role = "reviewer";
  tool_name = "skill.reviewer";
  output_schema = "review.schema.json";
  system_prompt = reviewer_prompt;
  context_keys = "task" ∷ [];
  assemble = assemble_review;
}

abbrev pub task_writer : Skill
task_writer = record {
  name = "task-writer";
  role = "task-writer";
  tool_name = "skill.task-writer";
  output_schema = "task.schema.json";
  system_prompt = task_writer_prompt;
  context_keys = "specification" ∷ "plan" ∷ [];
  assemble = assemble_task;
}
