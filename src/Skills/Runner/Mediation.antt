-- ===== src/Skills/Runner/Mediation.antt =====
-- The tests of a skill run before the model is asked.
use ai_dev_project.Prelude.{
  String, ◌≡◌, ◌⊎◌, inl, inr, ◌∙◌, ap, refl, true, false, some, any, arith, Option-cases,
}
use ai_dev_project.Prelude.Text.{◌<>◌}
use ai_dev_project.Python.{Result, ok, raised, >>=-eq-ok, Result-cases}
use ai_dev_project.Json.{Fields}
use ai_dev_project.Platform.{Platform}
use ai_dev_project.Policy.Client.{PolicyResult}
use ai_dev_project.Runner.Capability.{CapabilityCheck}
use ai_dev_project.Runner.Registry.{Run, get_run, check}
use ai_dev_project.Runner.Executor.{policy_point}
use ai_dev_project.Skills.Base.{Skill, LlmRequest, LlmResponse, get_skill, build_context}
use ai_dev_project.Skills.Contract.{
  SkillRunner, SkillRequest, SkillState, SkillGate, denied, admitted, lacks, tool_of, skill_payload,
  skill_decision,
}
use ai_dev_project.Skills.Runner.{
  record_output, deny_skill, gate_skill, gate, use_response, call_model, pass_skill,
  evaluated_skill, run_skill,
}

Gate-cases :
    (g : SkillGate)
    → ((reason : String) × (g ≡ denied reason))
      ⊎ ((skill : Skill) × (context : Fields) × (g ≡ admitted skill context))
Gate-cases (denied reason) = inl (reason, refl)
Gate-cases (admitted skill context) = inr (skill, context, refl)

module _ (P : Platform) {L : Type 0} (x : SkillRunner L) (q : SkillRequest) where
  -- The run is known, the policy allows, the token is valid for the skill and the scope, the skill is
  -- registered, no input is sensitive, and the context has every key that the skill needs.
  pub record Admits (skill : Skill) (context : Fields) : Type 0 where
    pub run : Run
    pub result : PolicyResult
    pub capability : CapabilityCheck
    pub known : get_run x.capabilities q.run_id ≡ some run
    pub asked : x.policy policy_point (skill_payload q run.actor) ≡ ok result
    pub allowed : result.allow ≡ true
    pub checked : check P x.capabilities q.token (tool_of q) q.scope q.now ≡ ok capability
    pub valid : capability.valid ≡ true
    pub registered : get_skill q.skill_name x.skills ≡ ok skill
    pub built : build_context q.inputs ≡ ok context
    pub complete : any (lacks context) skill.context_keys ≡ false

  gate_skill-admitted :
      (r : Result Skill) (skill : Skill) (context : Fields)
      → gate_skill P x q r ≡ ok (admitted skill context)
      → (r ≡ ok skill)
        × (build_context q.inputs ≡ ok context)
        × (any (lacks context) skill.context_keys ≡ false)
  unfolding gate_skill
  gate_skill-admitted (raised e) skill context h = ground arith
  gate_skill-admitted (ok skill') skill context h =
      let (c, b, h₁) = >>=-eq-ok (build_context q.inputs) _ h in
      (ground arith, ground arith, ground arith)

  gate-admitted :
      (result : PolicyResult) (skill : Skill) (context : Fields)
      → gate P x q result ≡ ok (admitted skill context)
      → (k : CapabilityCheck) × (result.allow ≡ true)
        × (check P x.capabilities q.token (tool_of q) q.scope q.now ≡ ok k)
        × (k.valid ≡ true)
        × (gate_skill P x q (get_skill q.skill_name x.skills) ≡ ok (admitted skill context))
  unfolding gate
  gate-admitted result skill context h =
      elim (Result-cases (check P x.capabilities q.token (tool_of q) q.scope q.now)) [
        | inl (k, e) ↦ (k, ground (arith, e), e, ground (arith, e), ground (arith, e))
        | inr (k, e) ↦ ground (arith, e)
      ]

  module _ (actor decision : Fields) (s : SkillState L) where
    provider-record_output :
        (action text : String)
        → (record_output P x q actor decision action text s).1.provider ≡ s.provider
    unfolding record_output
    provider-record_output action text = refl

    provider-deny_skill :
        (reason : String) → (deny_skill P x q actor decision reason s).1.provider ≡ s.provider
    unfolding deny_skill
    provider-deny_skill reason = provider-record_output "skill.denied" reason

    provider-use_response :
        (skill : Skill) (r : Result LlmResponse)
        → (use_response P x q actor decision skill r s).1.provider ≡ s.provider
    unfolding use_response
    provider-use_response skill (raised e) = refl
    provider-use_response skill (ok response) =
        provider-record_output (skill.tool_name <> ".output") response.text

  abbrev pub prompt_of : Skill → Fields → LlmRequest
  prompt_of skill context = record {
    role = skill.role;
    system_prompt = skill.system_prompt;
    context = context;
  }

  passed :
      (run : Run) (result : PolicyResult)
      → get_run x.capabilities q.run_id ≡ some run
      → x.policy policy_point (skill_payload q run.actor) ≡ ok result
      → (s : SkillState L)
      → let s' =
          (pass_skill P x q run.actor
            (skill_decision q run.actor result)
            (gate P x q result)
            s).1 in
        (s'.provider ≡ s.provider)
        ⊎ ((skill : Skill) × (context : Fields) × Admits skill context
            × (s'.provider ≡ (x.llm (prompt_of skill context) s.provider).1))
  unfolding pass_skill call_model
  passed run result known asked s = elim (Result-cases (gate P x q result)) [
    | inr (e, g) ↦ inl (rw (g, pass_skill))
    | inl (g, e) ↦ elim (Gate-cases g) [
      | inl (reason, d) ↦
          inl (rw (e ∙ ap ok d, pass_skill) (provider-deny_skill run.actor _ s reason))
      | inr (skill, context, d) ↦
          let (k, allowed, checked, valid, inner) =
            gate-admitted result skill context (e ∙ ap ok d) in
          let (registered, built, complete) = gate_skill-admitted _ skill context inner in
          inr (
            skill,
            context,
            record {
              run = run;
              result = result;
              capability = k;
              known = known;
              asked = asked;
              allowed = allowed;
              checked = checked;
              valid = valid;
              registered = registered;
              built = built;
              complete = complete;
            },
            rw (e ∙ ap ok d, pass_skill) (provider-use_response run.actor _ _ skill _),
          )
    ]
  ]

  -- The provider of the model is left alone, or it is asked once, with the prompt of a skill that is
  -- admitted and with the context of the inputs.
  pub provider-run_skill :
      (s : SkillState L)
      → ((run_skill P x q s).1.provider ≡ s.provider)
        ⊎ ((skill : Skill) × (context : Fields) × Admits skill context
            × ((run_skill P x q s).1.provider ≡ (x.llm (prompt_of skill context) s.provider).1))
  provider-run_skill s = elim (Option-cases (get_run x.capabilities q.run_id)) [
    | inl e ↦ inl (unfold run_skill in rw (e, run_skill))
    | inr (run, known) ↦ elim (Result-cases (x.policy policy_point (skill_payload q run.actor))) [
      | inr (fault, asked) ↦
          inl (
            unfold run_skill evaluated_skill in rw (known, run_skill) (rw (asked, evaluated_skill)))
      | inl (result, asked) ↦
          unfold run_skill evaluated_skill in
          rw (known, run_skill) (rw (asked, evaluated_skill) (passed run result known asked s))
    ]
  ]
