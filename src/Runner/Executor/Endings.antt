-- ===== src/Runner/Executor/Endings.antt =====
-- The endings of `execute`: the record of a denial and the record of an output.
use ai_dev_project.Prelude.{
  String, ◌≡◌, ◌⊎◌, inl, inr, refl, Bool, true, false, some, [], is_empty, arith, Bool-cases,
}
use ai_dev_project.Prelude.Text.{utf8}
use ai_dev_project.Python.{ok, raised, Result-cases, Exn}
use ai_dev_project.Json.{str, obj, Fields, end, field}
use ai_dev_project.Platform.{Platform}
use ai_dev_project.Prelude.{is_empty→nil}
use ai_dev_project.Evidence.Store.{store_bytes}
use ai_dev_project.Evidence.Output.{outcome}
use ai_dev_project.Evidence.Recovery.{process_tool_output_lem}
use ai_dev_project.Tools.Registry.{ToolSpec, validate_instance}
use ai_dev_project.Runner.Executor.{
  RunnerExecutor, Request, State, ExecutionResult, audit_text, audit_args, record_call, deny,
  executed, call_handler, reason_execution_failed, reason_invalid_result,
}

module _ (P : Platform) {W : Type 0} (x : RunnerExecutor W) (q : Request) where
  -- Recording a call never raises: its tier is not sensitive.
  pub record_call_lem :
      (actor decision detail : Fields) (s : State W)
      → record_call P x q actor decision detail s ≡ (
        ok (outcome P (audit_text P q detail) (audit_args P q actor decision)).evidence,
        record s { store = (store_bytes P (utf8 (audit_text P q detail)) s.store).1 },
      )
  unfolding record_call
  record_call_lem actor decision detail s = rw (
      process_tool_output_lem P (audit_text P q detail) (audit_args P q actor decision) s.store
        refl)

  pub deny_lem :
      (actor decision : Fields) (reason : String) (s : State W)
      → (e : ExecutionResult) × ((deny P x q actor decision reason s).0 ≡ ok e)
        × (e.allowed ≡ false)
        × (e.reason ≡ reason)
        × ((deny P x q actor decision reason s).1.world ≡ s.world)
  unfolding deny
  deny_lem actor decision reason s =
      rw (record_call_lem actor decision (field "denied" (str reason) end) s)
        (_, refl, refl, refl, refl)

  executed_lem :
      (actor decision output : Fields) (s : State W)
      → (e : ExecutionResult) × ((executed P x q actor decision output s).0 ≡ ok e)
        × (e.allowed ≡ true)
        × (e.output ≡ some output)
        × ((executed P x q actor decision output s).1.world ≡ s.world)
  unfolding executed
  executed_lem actor decision output s =
      rw (record_call_lem actor decision (field "output" (obj output) end) s)
        (_, refl, refl, refl, refl)

  -- The handler returns, and its result fits the schema.
  pub record Succeeds (spec : ToolSpec W) (world : W) (output : Fields) : Type 0 where
    pub returns : (spec.handler q.args world).0 ≡ ok output
    pub fits : validate_instance x.iter_errors (obj output) spec.result_schema ≡ []

  module _ (actor decision : Fields) (spec : ToolSpec W) (s : State W) where
    -- the state behind the handler
    abbrev pub after : State W
    after = record s { world = (spec.handler q.args s.world).1 }

    fits? : Fields → Bool
    fits? output = is_empty (validate_instance x.iter_errors (obj output) spec.result_schema)

    call_handler_raised :
        (fault : Exn)
        → (spec.handler q.args s.world).0 ≡ raised fault
        → call_handler P x q actor decision spec s
          ≡ deny P x q actor decision reason_execution_failed after
    unfolding call_handler
    call_handler_raised fault e = rw (e, call_handler)

    call_handler_invalid :
        (output : Fields)
        → (spec.handler q.args s.world).0 ≡ ok output
        → fits? output ≡ false
        → call_handler P x q actor decision spec s
          ≡ deny P x q actor decision reason_invalid_result after
    unfolding call_handler fits?
    call_handler_invalid output e f = rw (e, call_handler) (rw f)

    call_handler_valid :
        (output : Fields)
        → (spec.handler q.args s.world).0 ≡ ok output
        → fits? output ≡ true
        → call_handler P x q actor decision spec s ≡ executed P x q actor decision output after
    unfolding call_handler fits?
    call_handler_valid output e f = rw (e, call_handler) (rw f)

    pub call_handler-cases :
        ((reason : String) × (call_handler P x q actor decision spec s
            ≡ deny P x q actor decision reason after))
        ⊎ ((output : Fields) × (call_handler P x q actor decision spec s
              ≡ executed P x q actor decision output after))
    call_handler-cases = elim (Result-cases (spec.handler q.args s.world).0) [
      | inl (output, e) ↦ elim (Bool-cases (fits? output)) [
        | inl f ↦ inr (output, call_handler_valid output e f)
        | inr f ↦ inl (reason_invalid_result, call_handler_invalid output e f)
      ]
      | inr (fault, e) ↦ inl (reason_execution_failed, call_handler_raised fault e)
    ]

    -- The world behind the call is the one that the handler left.
    pub call_handler_world :
        (call_handler P x q actor decision spec s).1.world ≡ (spec.handler q.args s.world).1
    call_handler_world = elim (Result-cases (spec.handler q.args s.world).0) [
      | inl (output, e) ↦ elim (Bool-cases (fits? output)) [
        | inl f ↦ rw (call_handler_valid output e f) (executed_lem actor decision output after).4
        | inr f ↦
            rw (call_handler_invalid output e f)
              (deny_lem actor decision reason_invalid_result after).4
      ]
      | inr (fault, e) ↦
          rw (call_handler_raised fault e) (deny_lem actor decision reason_execution_failed after).4
    ]

    deny_not_allowed :
        (reason : String) (e : ExecutionResult)
        → (deny P x q actor decision reason after).0 ≡ ok e
        → e.allowed ≡ false
    deny_not_allowed reason e h =
        let (e', r, a, b, c) = deny_lem actor decision reason after in ground (arith, r, a)

    pub call_handler-allowed :
        (e : ExecutionResult)
        → (call_handler P x q actor decision spec s).0 ≡ ok e
        → e.allowed ≡ true
        → (output : Fields) × Succeeds spec s.world output × (e.output ≡ some output)
    call_handler-allowed e h a = elim (Result-cases (spec.handler q.args s.world).0) [
      | inl (output, r) ↦ elim (Bool-cases (fits? output)) [
        | inl f ↦
            let (e', r', a', o, w) = executed_lem actor decision output after in
            (
              output,
              record { returns = r; fits = unfold fits? in is_empty→nil _ f },
              ground (arith, call_handler_valid output r f, r', o),
            )
        | inr f ↦
            ground
              (arith, call_handler_invalid output r f, deny_not_allowed reason_invalid_result e)
      ]
      | inr (fault, r) ↦
          ground (arith, call_handler_raised fault r, deny_not_allowed reason_execution_failed e)
    ]

    pub call_handler-Succeeds :
        (output : Fields)
        → Succeeds spec s.world output
        → (e : ExecutionResult) × ((call_handler P x q actor decision spec s).0 ≡ ok e)
          × (e.allowed ≡ true)
          × (e.output ≡ some output)
    call_handler-Succeeds output h =
        let (e, r, a, o, w) = executed_lem actor decision output after in
        (e, rw (call_handler_valid output h.returns (unfold fits? in rw h.fits)) r, a, o)
