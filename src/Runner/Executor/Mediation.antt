-- ===== src/Runner/Executor/Mediation.antt =====
-- The courses of `execute`: stopped, refused, or run.
use ai_dev_project.Prelude.{
  String, ◌≡◌, ◌↔◌, ◌⊎◌, inl, inr, ◌∙◌, ap, refl, true, some, arith, Option-cases,
}
use ai_dev_project.Python.{Result, Exn, ok, raised, Result-cases, run_unknown_error}
use ai_dev_project.Json.{Fields}
use ai_dev_project.Platform.{Platform}
use ai_dev_project.Policy.Client.{PolicyResult}
use ai_dev_project.Tools.Registry.{ToolSpec}
use ai_dev_project.Runner.Registry.{Run, get_run}
use ai_dev_project.Runner.Executor.{
  RunnerExecutor, Request, State, ExecutionResult, Gate, denied, admitted, policy_point,
  policy_payload, decision_of, deny, gate, call_handler, pass, evaluated, execute,
}
use ai_dev_project.Runner.Executor.Gates.{Admits, gate_tool-admitted, gate-admitted, gate-Admits}
use ai_dev_project.Runner.Executor.Endings.{
  deny_lem, Succeeds, call_handler_world, call_handler-allowed, call_handler-Succeeds,
}

Gate-cases :
    {W : Type 0} (g : Gate W)
    → ((reason : String) × (g ≡ denied reason)) ⊎ ((spec : ToolSpec W) × (g ≡ admitted spec))
Gate-cases (denied reason) = inl (reason, refl)
Gate-cases (admitted spec) = inr (spec, refl)

module _ (P : Platform) {W : Type 0} (x : RunnerExecutor W) (q : Request) (s : State W) where
  -- An execution returns early, or runs a tool that was admitted.
  pub data Course : Type 0 where
    stopped : (e : Exn) → execute P x q s ≡ (raised e, s) → Course
    refused :
        (actor : Fields) (result : PolicyResult) (reason : String)
        → execute P x q s ≡ deny P x q actor (decision_of P q actor result) reason s
        → Course
    ran :
        (spec : ToolSpec W) (a : Admits P x q spec)
        → execute P x q s
          ≡ call_handler P x q a.run.actor (decision_of P q a.run.actor a.result) spec s
        → Course

  module _ (run : Run) (known : get_run x.capabilities q.run_id ≡ some run) where
    execute-evaluated :
        execute P x q s
        ≡ evaluated P x q run.actor (x.policy policy_point (policy_payload P q run.actor)) s
    unfolding execute
    execute-evaluated = rw (known, execute)

    module _ (result : PolicyResult)
        (asked : x.policy policy_point (policy_payload P q run.actor) ≡ ok result) where
      execute-pass :
          (g : Result (Gate W))
          → gate P x q result ≡ g
          → execute P x q s ≡ pass P x q run.actor (decision_of P q run.actor result) g s
      unfolding evaluated
      execute-pass g e = execute-evaluated ∙ rw (asked, evaluated) (rw e)

      course_gated : Course
      unfolding pass
      course_gated = elim (Result-cases (gate P x q result)) [
        | inr (e, g) ↦ stopped e (execute-pass (raised e) g)
        | inl (g, e) ↦ elim (Gate-cases g) [
          | inl (reason, d) ↦
              refused run.actor result reason (execute-pass (ok (denied reason)) (e ∙ ap ok d))
          | inr (spec, d) ↦
              let (k, allowed, checked, valid, tool) =
                gate-admitted P x q result spec (e ∙ ap ok d) in
              let (registered, in_scope, fits) = gate_tool-admitted P x q spec tool in
              ran spec
                (record {
                  run = run;
                  result = result;
                  capability = k;
                  known = known;
                  asked = asked;
                  allowed = allowed;
                  checked = checked;
                  valid = valid;
                  registered = registered;
                  in_scope = in_scope;
                  fits = fits;
                })
                (execute-pass (ok (admitted spec)) (e ∙ ap ok d))
        ]
      ]

  pub course : Course
  course = elim (Option-cases (get_run x.capabilities q.run_id)) [
    | inl e ↦ stopped (run_unknown_error q.run_id) (unfold execute in rw (e, execute))
    | inr (run, e) ↦ elim (Result-cases (x.policy policy_point (policy_payload P q run.actor))) [
      | inl (result, asked) ↦ course_gated run e result asked
      | inr (fault, asked) ↦
          stopped fault (unfold evaluated in execute-evaluated run e ∙ rw (asked, evaluated))
    ]
  ]

  execute-Admits :
      (spec : ToolSpec W) (a : Admits P x q spec)
      → execute P x q s
        ≡ call_handler P x q a.run.actor (decision_of P q a.run.actor a.result) spec s
  unfolding pass
  execute-Admits spec a =
      execute-pass a.run a.known a.result a.asked (ok (admitted spec)) (gate-Admits P x q spec a)

  allowed_course :
      (e : ExecutionResult)
      → (execute P x q s).0 ≡ ok e
      → e.allowed ≡ true
      → Course
      → (spec : ToolSpec W) × (output : Fields) × Admits P x q spec
        × Succeeds P x q spec s.world output
  allowed_course e h a (stopped fault c) = ground (arith, c)
  allowed_course e h a (refused actor result reason c) =
      let (e', r, b, z, w) = deny_lem P x q actor (decision_of P q actor result) reason s in
      ground (arith, c, r, b)
  allowed_course e h a (ran spec m c) =
      let (output, su, o) =
        call_handler-allowed P x q m.run.actor (decision_of P q m.run.actor m.result) spec s e
          (rw c at h) a in
      (spec, output, m, su)

  -- An execution is allowed exactly if the run is known, the policy allows, the token is valid for the
  -- tool and the scope, the tool is registered in that scope, the arguments fit its schema, and the
  -- handler returns an output that fits the result schema.
  pub execute-allowed_iff :
      ((e : ExecutionResult) × ((execute P x q s).0 ≡ ok e) × (e.allowed ≡ true)) ↔ (
        (spec : ToolSpec W) × (output : Fields) × Admits P x q spec
        × Succeeds P x q spec s.world output)
  execute-allowed_iff = (
    λ (e, h, a). allowed_course e h a course,
    λ (spec, output, a, h).
        rw (execute-Admits spec a)
          (let (e, r, b, o) = call_handler-Succeeds P x q _ _ spec s output h in (e, r, b)),
  )

  -- The world of the tools changes only by the handler of a tool that was admitted.
  pub world-execute :
      ((execute P x q s).1.world ≡ s.world)
      ⊎ ((spec : ToolSpec W) × Admits P x q spec
          × ((execute P x q s).1.world ≡ (spec.handler q.args s.world).1))
  world-execute = elim course [
    | stopped fault c ↦ inl (rw c)
    | refused actor result reason c ↦ inl (rw c (deny_lem P x q actor _ reason s).4)
    | ran spec m c ↦ inr (spec, m, rw c (call_handler_world P x q _ _ spec s))
  ]
