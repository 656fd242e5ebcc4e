-- ===== src/Examples/Pipelines.antt =====
-- A pipeline with a model that answers every question with an empty object, and a tool that counts the
-- documents. A token is signed with the secret, and its payload is the name of the tool.
use ai_dev_project.Prelude.{
  ℕ, suc, String, ◌≡◌, refl, true, false, Option, none, some, List, [], ◌∷◌, ◌==◌, map,
  if◌then◌else◌,
}
use ai_dev_project.Prelude.Dict.{lookup, put}
use ai_dev_project.Prelude.Int.{pos}
use ai_dev_project.Prelude.Text.{◌<>◌, utf8}
use ai_dev_project.Python.{ok, raised, ◌>>=◌}
use ai_dev_project.Json.{Value, str, obj, Fields, end, field, get, item}
use ai_dev_project.Platform.{Platform, Loaded, loaded, bad_json}
use ai_dev_project.Artifacts.{Schemas}
use ai_dev_project.Tools.Registry.{ToolSpec, default_schema}
use ai_dev_project.Runner.Capability.{Capability}
use ai_dev_project.Runner.Capability.Decoding.{sorted_claims}
use ai_dev_project.Runner.Executor.{PolicyEvaluator, RunnerExecutor}
use ai_dev_project.Skills.Base.{Skill, SkillRegistry}
use ai_dev_project.Pipeline.Contract.{Pipeline, PipelineState, PipelineResult, StageResult}
use ai_dev_project.Pipeline.Effects.{Effects, acted_on, AllValid}
use ai_dev_project.Pipeline.Run.{run}
use ai_dev_project.Pipeline.Whole.{run-Effects, run-AllValid}
use ai_dev_project.Pipeline.Completion.{Completes}
use ai_dev_project.Pipeline.Outcome.{run-Completes}
use ai_dev_project.Examples.World.{platform, letters}
use ai_dev_project.Examples.Tokens.{registry}

abbrev names : List String
names =
    "write_artifact" ∷ "skill.grill" ∷ "skill.grill-security" ∷ "skill.planner"
    ∷ "skill.task-writer" ∷ "skill.reviewer" ∷ []

abbrev capability_for : String → Capability
capability_for name = record {
  run_id = "RUN-1";
  tool = name;
  scope = if name == "write_artifact" then "workspace" else "skills";
  expires_at = pos 300;
}

abbrev payload_in : List String → List ℕ → Loaded
payload_in [] bytes = bad_json
payload_in (name ∷ rest) bytes =
    let later = payload_in rest bytes in
    if letters bytes == letters (utf8 name)
    then loaded (obj (sorted_claims (capability_for name)))
    else later

abbrev tool_in : Value → String
tool_in (obj d) = elim (get d "tool") [ some (str name) ↦ name | _ ↦ "{}" ]
tool_in _ = "{}"

abbrev reading : Platform
reading = record platform {
  dumps = λ style v. tool_in v;
  loads = λ s. some (obj end);
  loads_bytes = payload_in names;
  sha256 = λ bytes. "d";
}

abbrev allowing : PolicyEvaluator
allowing point payload = ok (record {
  allow = true;
  reason_codes = "ALLOWED" ∷ [];
  policy_bundle_version = "1";
  input_digest = "d";
})

abbrev schemas : Schemas
schemas = record { load_schema = λ name. ok end; iter_errors = λ schema instance. [] }

abbrev skill_of : String → String → Skill
skill_of name kind = record {
  name = name;
  role = name;
  tool_name = "skill." <> name;
  output_schema = kind;
  system_prompt = "";
  context_keys = [];
  assemble = λ content envelope. item envelope "artifact_id" >>= λ id.
      ok (field "id" id (field "artifact_type" (str kind) (field "feature_id" (str "FEAT-1") end)));
}

abbrev skills : SkillRegistry
skills =
    ("grill", skill_of "grill" "specification")
    ∷ ("grill-security", skill_of "grill-security" "threat-model")
    ∷ ("planner", skill_of "planner" "plan")
    ∷ ("task-writer", skill_of "task-writer" "task")
    ∷ ("reviewer", skill_of "reviewer" "review")
    ∷ []

abbrev counter : ToolSpec ℕ
counter = record {
  name = "write_artifact";
  scope = "workspace";
  description = "Counts.";
  args_schema = default_schema;
  result_schema = default_schema;
  handler = λ args n. (ok end, suc n);
}

abbrev pipeline : Pipeline ℕ ℕ
pipeline = record {
  feature_id = "FEAT-1";
  run_id = "RUN-1";
  capabilities = registry;
  skills = skills;
  runner = record {
    policy = allowing;
    capabilities = registry;
    skills = skills;
    llm = λ request n. (ok (record { text = "{}"; model = "stub" }), suc n);
    schemas = schemas;
  };
  executor = record {
    policy = allowing;
    capabilities = registry;
    tools = ("write_artifact", counter) ∷ [];
    iter_errors = λ schema instance. [];
  };
  schemas = schemas;
  href_prefix = "specs";
  store_path = λ id. ok ("specs/" <> (id <> ".json"));
  issued_at = λ n. pos 0;
  checked_at = λ n. pos 1;
}

abbrev start : PipelineState ℕ ℕ
start = record {
  created_at = "";
  counters = [];
  decision_seq = 0;
  evidence_seq = 0;
  written = [];
  store = [];
  world = 0;
  provider = 0;
}

abbrev idea : Fields
idea =
    field "id" (str "IDEA-0001")
      (field "artifact_type" (str "idea") (field "feature_id" (str "FEAT-1") end))

run-Effects_example :
    Effects reading pipeline
      (0, 0)
      (acted_on reading pipeline (run reading pipeline idea "2026-01-01" start).1)
run-Effects_example = run-Effects reading pipeline idea "2026-01-01" start

run-AllValid_example :
    AllValid reading pipeline (run reading pipeline idea "2026-01-01" start).1.written
unfolding lookup
run-AllValid_example = run-AllValid reading pipeline idea "2026-01-01" start λ id document h. cc

abbrev nothing : PipelineResult
nothing = record {
  feature_id = "";
  run_id = "";
  stages = [];
  artifacts = [];
  trace = record {
    feature_id = "";
    nodes = [];
    ordered_types = [];
    missing_types = [];
    dangling = [];
  };
}

abbrev result : PipelineResult
result = elim (run reading pipeline idea "2026-01-01" start).0 [ raised _ ↦ nothing | ok r ↦ r ]

test_run : (run reading pipeline idea "2026-01-01" start).0 ≡ ok result
unfolding run ai_dev_project.Pipeline.Calls.◌>>=◌ ai_dev_project.Pipeline.Run.set_created_at
    ai_dev_project.Pipeline.Calls.idea_id ai_dev_project.Pipeline.Contract.given_id get
    ai_dev_project.Pipeline.Calls.persist ai_dev_project.Pipeline.Calls.require_valid
    ai_dev_project.Artifacts.validate_artifact ai_dev_project.Artifacts.artifact_schema_name
    ai_dev_project.Artifacts.validate_document ai_dev_project.Tools.Registry.validate_instance
    ai_dev_project.Pipeline.Calls.issue_token_for ai_dev_project.Runner.Registry.issue lookup
    ai_dev_project.Runner.Capability.issue_token ai_dev_project.Runner.Capability.sign
    ai_dev_project.Prelude.Text.is_ascii ai_dev_project.Runner.Capability.b64encode
    ai_dev_project.Prelude.Text.strip_equals utf8 ai_dev_project.Pipeline.Calls.next_decision_id
    ai_dev_project.Pipeline.Calls.next_evidence_id ai_dev_project.Pipeline.Calls.call_executor
    ai_dev_project.Runner.Executor.execute ai_dev_project.Runner.Registry.get_run
    ai_dev_project.Runner.Executor.evaluated ai_dev_project.Runner.Executor.pass
    ai_dev_project.Runner.Executor.gate ai_dev_project.Runner.Registry.check
    ai_dev_project.Runner.Capability.decode_token ai_dev_project.Runner.Capability.decode_parts
    ai_dev_project.Prelude.Text.split ai_dev_project.Runner.Capability.decode_payload
    ai_dev_project.Runner.Capability.b64decode ai_dev_project.Runner.Capability.read_payload
    ai_dev_project.Runner.Registry.judge ai_dev_project.Runner.Executor.gate_tool
    ai_dev_project.Tools.Registry.get_tool ai_dev_project.Runner.Executor.call_handler
    ai_dev_project.Runner.Executor.executed ai_dev_project.Runner.Executor.record_call
    ai_dev_project.Evidence.Output.process_tool_output ai_dev_project.Evidence.Store.store_bytes
    ai_dev_project.Evidence.Compression.compress_for_context
    ai_dev_project.Pipeline.Calls.add_written ai_dev_project.Pipeline.Run.specify
    ai_dev_project.Pipeline.Calls.run_stage ai_dev_project.Skills.Base.get_skill
    ai_dev_project.Pipeline.Calls.next_artifact_id ai_dev_project.Pipeline.Contract.prefix_of
    ai_dev_project.Pipeline.Calls.call_runner ai_dev_project.Skills.Runner.run_skill
    ai_dev_project.Skills.Runner.evaluated_skill ai_dev_project.Skills.Runner.pass_skill
    ai_dev_project.Skills.Runner.gate ai_dev_project.Skills.Runner.gate_skill
    ai_dev_project.Skills.Base.build_context_onto ai_dev_project.Trust.classify_source
    ai_dev_project.Skills.Runner.call_model ai_dev_project.Skills.Runner.use_response
    ai_dev_project.Skills.Runner.record_output ai_dev_project.Skills.Runner.assemble_artifact
    ai_dev_project.Skills.Base.extract_json item ai_dev_project.Skills.Base.add_links
    ai_dev_project.Skills.Base.append_links ai_dev_project.Json.insert
    ai_dev_project.Pipeline.Run.model_threats ai_dev_project.Pipeline.Run.plan_slices
    ai_dev_project.Pipeline.Run.write_task ai_dev_project.Pipeline.Run.review_security
    ai_dev_project.Pipeline.build_security_review ai_dev_project.Pipeline.risks_of
    ai_dev_project.Pipeline.dispositions ai_dev_project.Pipeline.Run.review_task
    ai_dev_project.Pipeline.Run.conclude ai_dev_project.Pipeline.Contract.index_onto put
    ai_dev_project.Json.to_text ai_dev_project.Prelude.Text.decimal4
    ai_dev_project.Traceability.trace_feature ai_dev_project.Traceability.all_targets
    ai_dev_project.Traceability.local_link_targets
test_run = refl

run-Completes_example :
    Completes reading pipeline idea "2026-01-01" result
      (run reading pipeline idea "2026-01-01" start).1
run-Completes_example = run-Completes reading pipeline idea "2026-01-01" start result test_run
