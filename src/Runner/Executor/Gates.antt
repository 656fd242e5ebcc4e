-- ===== src/Runner/Executor/Gates.antt =====
-- The tests of `execute` before the handler is called.
use ai_dev_project.Prelude.{
  ◌≡◌, inl, inr, true, some, [], is_empty→nil, arith, eq_iff, Option-cases,
}
use ai_dev_project.Prelude.Dict.{lookup}
use ai_dev_project.Python.{ok, Result-cases}
use ai_dev_project.Json.{obj}
use ai_dev_project.Platform.{Platform}
use ai_dev_project.Policy.Client.{PolicyResult}
use ai_dev_project.Tools.Registry.{ToolSpec, get_tool, validate_instance}
use ai_dev_project.Runner.Capability.{CapabilityCheck}
use ai_dev_project.Runner.Registry.{Run, get_run, check}
use ai_dev_project.Runner.Executor.{
  RunnerExecutor, Request, admitted, policy_point, policy_payload, gate_tool, gate,
}

module _ (P : Platform) {W : Type 0} (x : RunnerExecutor W) (q : Request) where
  -- The run is known, the policy allows, the token is valid for the tool and the scope, the tool is
  -- registered, in the requested scope, and the arguments fit its schema.
  pub record Admits (spec : ToolSpec W) : Type 0 where
    pub run : Run
    pub result : PolicyResult
    pub capability : CapabilityCheck
    pub known : get_run x.capabilities q.run_id ≡ some run
    pub asked : x.policy policy_point (policy_payload P q run.actor) ≡ ok result
    pub allowed : result.allow ≡ true
    pub checked : check P x.capabilities q.token q.tool q.scope q.now ≡ ok capability
    pub valid : capability.valid ≡ true
    pub registered : lookup q.tool x.tools ≡ some spec
    pub in_scope : spec.scope ≡ q.scope
    pub fits : validate_instance x.iter_errors (obj q.args) spec.args_schema ≡ []

  pub gate_tool-admitted :
      (spec : ToolSpec W)
      → gate_tool P x q (get_tool q.tool x.tools) ≡ admitted spec
      → (lookup q.tool x.tools ≡ some spec)
        × (spec.scope ≡ q.scope)
        × (validate_instance x.iter_errors (obj q.args) spec.args_schema ≡ [])
  unfolding gate_tool get_tool
  gate_tool-admitted spec h = elim (Option-cases (lookup q.tool x.tools)) [
    | inl e ↦ ground (arith, e)
    | inr (found, e) ↦ (
      ground (arith, e),
      ground (arith, e, eq_iff spec.scope q.scope),
      ground
          (arith, e, is_empty→nil (validate_instance x.iter_errors (obj q.args) spec.args_schema)),
    )
  ]

  pub gate-admitted :
      (result : PolicyResult) (spec : ToolSpec W)
      → gate P x q result ≡ ok (admitted spec)
      → (k : CapabilityCheck) × (result.allow ≡ true)
        × (check P x.capabilities q.token q.tool q.scope q.now ≡ ok k)
        × (k.valid ≡ true)
        × (gate_tool P x q (get_tool q.tool x.tools) ≡ admitted spec)
  unfolding gate
  gate-admitted result spec h =
      elim (Result-cases (check P x.capabilities q.token q.tool q.scope q.now)) [
        | inl (k, e) ↦ (k, ground (arith, e), e, ground (arith, e), ground (arith, e))
        | inr (k, e) ↦ ground (arith, e)
      ]

  pub gate-Admits : (spec : ToolSpec W) (a : Admits spec) → gate P x q a.result ≡ ok (admitted spec)
  unfolding gate gate_tool get_tool
  gate-Admits spec a =
      rw (a.allowed, a.checked)
        (ground (arith, a.valid, a.registered, a.fits, a.in_scope, eq_iff spec.scope q.scope))
