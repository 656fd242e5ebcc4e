-- ===== src/Skills/Contract.antt =====
-- skills/runner.py: the request, the state and the result of a run. A run acts on the evidence store and
-- on the world `L` of the provider of the model.
use ai_dev_project.Prelude.{String, Bool, true, false, Option, none, some, List}
use ai_dev_project.Prelude.Int.{ℤ}
use ai_dev_project.Prelude.Text.{◌<>◌}
use ai_dev_project.Json.{str, obj, nil, Fields, end, field, get}
use ai_dev_project.Artifacts.{Schemas}
use ai_dev_project.Evidence.Store.{EvidenceStore}
use ai_dev_project.Policy.Client.{PolicyResult}
use ai_dev_project.Policy.Decision.{build_policy_decision}
use ai_dev_project.Runner.Registry.{RunRegistry}
use ai_dev_project.Runner.Executor.{PolicyEvaluator, policy_point}
use ai_dev_project.Skills.Base.{ContextInput, Skill, SkillRegistry, LlmAdapter}

abbrev pub reason_completed : String
reason_completed = "COMPLETED"

abbrev pub reason_unknown_skill : String
reason_unknown_skill = "UNKNOWN_SKILL"

abbrev pub reason_missing_context : String
reason_missing_context = "MISSING_CONTEXT"

abbrev pub reason_invalid_llm_output : String
reason_invalid_llm_output = "INVALID_LLM_OUTPUT"

abbrev pub reason_schema_invalid : String
reason_schema_invalid = "SCHEMA_INVALID"

pub record SkillRunResult : Type 0 where
  pub allowed : Bool
  pub reason : String
  pub decision : Fields
  pub evidence : Fields
  pub artifact : Option Fields

pub record SkillRunner (L : Type 0) : Type 0 where
  pub policy : PolicyEvaluator
  pub capabilities : RunRegistry
  pub skills : SkillRegistry
  pub llm : LlmAdapter L
  pub schemas : Schemas

-- The keyword arguments of `run`, and the time at which the token is checked.
pub record SkillRequest : Type 0 where
  pub run_id : String
  pub token : String
  pub skill_name : String
  pub inputs : List ContextInput
  pub bindings : Fields
  pub artifact_id : String
  pub created_at : String
  pub decision_id : String
  pub evidence_id : String
  pub scope : String
  pub now : ℤ

pub record SkillState (L : Type 0) : Type 0 where
  pub store : EvidenceStore
  pub provider : L

-- What the tests before the call of the model come to: a denial, or a skill with its context.
pub data SkillGate : Type 0 where
  denied : String → SkillGate
  admitted : Skill → Fields → SkillGate

abbrev pub lacks : Fields → String → Bool
lacks context key = elim (get context key) [ none ↦ true | some _ ↦ false ]

abbrev pub tool_of : SkillRequest → String
tool_of q = "skill." <> q.skill_name

abbrev pub skill_payload : SkillRequest → Fields → Fields
skill_payload q actor =
    field "tool" (str (tool_of q))
      (field "path" (str "") (field "scope" (str q.scope) (field "actor" (obj actor) end)))

abbrev pub skill_decision : SkillRequest → Fields → PolicyResult → Fields
skill_decision q actor result = build_policy_decision result (record {
  artifact_id = q.decision_id;
  created_at = q.created_at;
  actor = actor;
  run_id = q.run_id;
  point = policy_point;
  links = nil;
})

abbrev pub envelope_of : SkillRequest → Fields → Fields
envelope_of q actor = field "artifact_id" (str q.artifact_id) (
    field "created_at" (str q.created_at) (
      field "actor" (obj actor)
        (field "run_id" (str q.run_id) (field "bindings" (obj q.bindings) end))))
