-- ===== src/Skills/Runner.antt =====
-- skills/runner.py: the gates of a run, the call of the model, and what becomes of its answer.
pub mod Mediation
use ai_dev_project.Prelude.{
  String, Bool, true, false, not, Option, none, some, List, [], ◌∷◌, ◌==◌, any, is_empty,
  if◌then◌else◌,
}
use ai_dev_project.Prelude.Int.{ℤ}
use ai_dev_project.Prelude.Text.{◌<>◌}
use ai_dev_project.Python.{Exn, Result, ok, raised, ◌>>=◌, skill_error, run_unknown_error}
use ai_dev_project.Json.{Value, str, obj, nil, Fields, end, field, get, get_or, to_text}
use ai_dev_project.Platform.{Platform}
use ai_dev_project.Trust.{untrusted}
use ai_dev_project.Artifacts.{Schemas, validate_document}
use ai_dev_project.Evidence.Store.{EvidenceStore}
use ai_dev_project.Evidence.Compression.{default_max_bytes}
use ai_dev_project.Evidence.Output.{OutputArgs, process_tool_output}
use ai_dev_project.Policy.Client.{PolicyResult}
use ai_dev_project.Policy.Decision.{DecisionArgs, build_policy_decision}
use ai_dev_project.Runner.Capability.{CapabilityCheck}
use ai_dev_project.Runner.Registry.{Run, RunRegistry, get_run, check}
use ai_dev_project.Runner.Executor.{PolicyEvaluator, policy_point, first_code}
use ai_dev_project.Skills.Base.{
  ContextInput, Skill, SkillRegistry, LlmAdapter, LlmRequest, LlmResponse, get_skill, build_context,
  extract_json,
}
use ai_dev_project.Skills.Contract.{
  reason_completed, reason_unknown_skill, reason_missing_context, reason_invalid_llm_output,
  reason_schema_invalid, SkillRunResult, SkillRunner, SkillRequest, SkillState, SkillGate, lacks,
  tool_of, skill_payload, skill_decision, envelope_of, denied, admitted,
}

module _ (P : Platform) where
  abbrev pub evidence_args : SkillRequest → Fields → Fields → String → OutputArgs
  evidence_args q actor decision action = record {
    action = action;
    actor = actor;
    run_id = q.run_id;
    artifact_id = q.evidence_id;
    created_at = q.created_at;
    tier = untrusted;
    sensitivity = "none";
    max_bytes = default_max_bytes;
    artifact_ref = none;
    policy_decision_ref = some (to_text P.repr (get_or decision "id" (str "")));
    links = nil;
  }

  module _ {L : Type 0} (x : SkillRunner L) where
    -- `_record`
    unfoldable pub record_output :
        SkillRequest
        → Fields
        → Fields
        → String
        → String
        → SkillState L
        → Result Fields × SkillState L
    record_output q actor decision action text s =
        let (r, store) =
          process_tool_output P text (evidence_args q actor decision action) s.store in
        (do out ← r; ok out.evidence, record s { store = store })

    -- `_deny`, which no caller gives a detail
    unfoldable pub deny_skill :
        SkillRequest
        → Fields
        → Fields
        → String
        → SkillState L
        → Result SkillRunResult × SkillState L
    deny_skill q actor decision reason s =
        let (r, s') = record_output q actor decision "skill.denied" reason s in
        (
          do
            evidence ← r
            ok (record {
              allowed = false;
              reason = reason;
              decision = decision;
              evidence = evidence;
              artifact = none;
            }),
          s',
        )

    unfoldable pub gate_skill : SkillRequest → Result Skill → Result SkillGate
    gate_skill q (raised e) = ok (denied reason_unknown_skill)
    gate_skill q (ok skill) = do
      context ← build_context q.inputs
      ok (
          if any (lacks context) skill.context_keys
          then denied reason_missing_context
          else admitted skill context)

    -- The tests of `run` up to the call of the model, in their order.
    unfoldable pub gate : SkillRequest → PolicyResult → Result SkillGate
    gate q result =
        if not result.allow
        then (do code ← first_code result.reason_codes; ok (denied code))
        else do
          k ← check P x.capabilities q.token (tool_of q) q.scope q.now
          if not k.valid
              then ok (denied k.reason)
              else gate_skill q (get_skill q.skill_name x.skills)

    abbrev completed : Bool → String → Fields → Fields → Option Fields → SkillRunResult
    completed allowed reason decision evidence artifact = record {
      allowed = allowed;
      reason = reason;
      decision = decision;
      evidence = evidence;
      artifact = artifact;
    }

    -- What becomes of the text of the model, once it is stored.
    unfoldable pub assemble_artifact :
        SkillRequest → Fields → Fields → Skill → Fields → String → Result SkillRunResult
    assemble_artifact q actor decision skill evidence text = elim (extract_json P text) [
      | raised _ ↦ ok (completed false reason_invalid_llm_output decision evidence none)
      | ok content ↦ do
        artifact ← skill.assemble content (envelope_of q actor)
        errors ← validate_document x.schemas artifact skill.output_schema
        ok (
            if is_empty errors
            then completed true reason_completed decision evidence (some artifact)
            else completed false reason_schema_invalid decision evidence none)
    ]

    unfoldable pub use_response :
        SkillRequest
        → Fields
        → Fields
        → Skill
        → Result LlmResponse
        → SkillState L
        → Result SkillRunResult × SkillState L
    use_response q actor decision skill (raised e) s = (raised e, s)
    use_response q actor decision skill (ok response) s =
        let (r, s') =
          record_output q actor decision (skill.tool_name <> ".output") response.text s in
        (do evidence ← r; assemble_artifact q actor decision skill evidence response.text, s')

    unfoldable pub call_model :
        SkillRequest
        → Fields
        → Fields
        → Skill
        → Fields
        → SkillState L
        → Result SkillRunResult × SkillState L
    call_model q actor decision skill context s =
        let request : LlmRequest = record {
          role = skill.role;
          system_prompt = skill.system_prompt;
          context = context;
        } in
        let (r, provider) = x.llm request s.provider in
        use_response q actor decision skill r (record s { provider = provider })

    unfoldable pub pass_skill :
        SkillRequest
        → Fields
        → Fields
        → Result SkillGate
        → SkillState L
        → Result SkillRunResult × SkillState L
    pass_skill q actor decision (raised e) s = (raised e, s)
    pass_skill q actor decision (ok (denied reason)) s = deny_skill q actor decision reason s
    pass_skill q actor decision (ok (admitted skill context)) s =
        call_model q actor decision skill context s

    unfoldable pub evaluated_skill :
        SkillRequest
        → Fields
        → Result PolicyResult
        → SkillState L
        → Result SkillRunResult × SkillState L
    evaluated_skill q actor (raised e) s = (raised e, s)
    evaluated_skill q actor (ok result) s =
        pass_skill q actor (skill_decision q actor result) (gate q result) s

    unfoldable pub run_skill : SkillRequest → SkillState L → Result SkillRunResult × SkillState L
    run_skill q s = elim (get_run x.capabilities q.run_id) [
      | none ↦ (raised (run_unknown_error q.run_id), s)
      | some run ↦ evaluated_skill q run.actor (x.policy policy_point (skill_payload q run.actor)) s
    ]
