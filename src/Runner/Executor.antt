-- ===== src/Runner/Executor.antt =====
-- runner/executor.py. An execution acts on the evidence store and on the world `W` of the tools; what
-- an exception leaves behind stays, so the state comes back beside the error too.
pub mod Gates
pub mod Endings
pub mod Mediation
pub mod FileWrites
pub mod Audit
pub mod Binding
pub mod Session
use ai_dev_project.Prelude.{
  ℕ, String, Bool, true, false, not, Option, none, some, List, [], ◌∷◌, ◌==◌, map, is_empty,
  if◌then◌else◌,
}
use ai_dev_project.Prelude.Int.{ℤ}
use ai_dev_project.Prelude.Text.{◌<>◌, is_blank, join}
use ai_dev_project.Python.{Result, ok, raised, ◌>>=◌, index_error, run_unknown_error}
use ai_dev_project.Json.{
  Value, str, arr, obj, Items, nil, cons, Fields, end, field, get, get_or, truthy, to_text, to_list,
}
use ai_dev_project.Platform.{Platform, audit_style}
use ai_dev_project.Trust.{untrusted}
use ai_dev_project.Evidence.Store.{EvidenceStore}
use ai_dev_project.Evidence.Compression.{default_max_bytes}
use ai_dev_project.Evidence.Output.{ToolOutputResult, OutputArgs, process_tool_output}
use ai_dev_project.Policy.Client.{PolicyResult}
use ai_dev_project.Policy.Decision.{DecisionArgs, build_policy_decision}
use ai_dev_project.Tools.Registry.{ToolSpec, ToolRegistry, IterErrors, get_tool, validate_instance}
use ai_dev_project.Runner.Capability.{CapabilityCheck}
use ai_dev_project.Runner.Registry.{Run, RunRegistry, get_run, check}

abbrev pub policy_point : String
policy_point = "pre-tool-call"

abbrev pub reason_executed : String
reason_executed = "EXECUTED"

abbrev pub reason_unknown_tool : String
reason_unknown_tool = "UNKNOWN_TOOL"

abbrev pub reason_invalid_args : String
reason_invalid_args = "INVALID_TOOL_ARGS"

abbrev pub reason_invalid_result : String
reason_invalid_result = "INVALID_TOOL_RESULT"

abbrev pub reason_execution_failed : String
reason_execution_failed = "EXECUTION_FAILED"

abbrev pub reason_scope_mismatch : String
reason_scope_mismatch = "SCOPE_MISMATCH"

-- The protocol of the policy: a point and a payload give a result, or the call raises.
abbrev pub PolicyEvaluator : Type 0
PolicyEvaluator = String → Fields → Result PolicyResult

pub record ExecutionResult : Type 0 where
  pub allowed : Bool
  pub reason : String
  pub decision : Fields
  pub evidence : Fields
  pub output : Option Fields

-- The keyword arguments of `execute`, and the time at which the token is checked.
pub record Request : Type 0 where
  pub run_id : String
  pub token : String
  pub tool : String
  pub args : Fields
  pub scope : String
  pub created_at : String
  pub decision_id : String
  pub evidence_id : String
  pub resource : String
  pub now : ℤ

pub record RunnerExecutor (W : Type 0) : Type 0 where
  pub policy : PolicyEvaluator
  pub capabilities : RunRegistry
  pub tools : ToolRegistry W
  pub iter_errors : IterErrors

pub record State (W : Type 0) : Type 0 where
  pub store : EvidenceStore
  pub world : W

-- `reason_codes[0]`
abbrev pub first_code : List String → Result String
first_code [] = raised index_error
first_code (code ∷ codes) = ok code

-- What the tests before the handler come to.
pub data Gate (W : Type 0) : Type 0 where
  denied : String → Gate W
  admitted : ToolSpec W → Gate W

module _ (P : Platform) where
  -- `str(args.get("path", "") or "")`
  abbrev path_text : Fields → String
  path_text args =
      let path = get_or args "path" (str "") in if truthy path then to_text P.repr path else ""

  abbrev paths_text : Option Value → String
  paths_text (some (arr items)) = join "," (map (to_text P.repr) (to_list items))
  paths_text _ = ""

  -- The target that the policy sees.
  unfoldable pub resource_of : Request → String
  resource_of q =
      let first = if is_blank q.resource then path_text q.args else q.resource in
      if is_blank first then paths_text (get q.args "paths") else first

  abbrev pub policy_payload : Request → Fields → Fields
  policy_payload q actor = field "tool" (str q.tool) (
      field "path" (str (resource_of q))
        (field "scope" (str q.scope) (field "actor" (obj actor) end)))

  abbrev pub decision_of : Request → Fields → PolicyResult → Fields
  decision_of q actor result = build_policy_decision result (record {
    artifact_id = q.decision_id;
    created_at = q.created_at;
    actor = actor;
    run_id = q.run_id;
    point = policy_point;
    links = nil;
  })

  -- the text that `_record` stores
  abbrev pub audit_text : Request → Fields → String
  audit_text q detail = P.dumps audit_style (
      obj (field "tool" (str q.tool) (field "args" (obj q.args) (field "detail" (obj detail) end))))

  abbrev pub audit_args : Request → Fields → Fields → OutputArgs
  audit_args q actor decision = record {
    action = "tool." <> q.tool;
    actor = actor;
    run_id = q.run_id;
    artifact_id = q.evidence_id;
    created_at = q.created_at;
    tier = untrusted;
    sensitivity = "none";
    max_bytes = default_max_bytes;
    artifact_ref = none;
    policy_decision_ref = some (to_text P.repr (get_or decision "id" (str "")));
    links = nil;
  }

  module _ {W : Type 0} (x : RunnerExecutor W) where
    -- `_record`
    unfoldable pub record_call :
        Request → Fields → Fields → Fields → State W → Result Fields × State W
    record_call q actor decision detail s =
        let (r, store) =
          process_tool_output P (audit_text q detail) (audit_args q actor decision) s.store in
        (do out ← r; ok out.evidence, record s { store = store })

    -- `_deny`
    unfoldable pub deny :
        Request → Fields → Fields → String → State W → Result ExecutionResult × State W
    deny q actor decision reason s =
        let (r, s') = record_call q actor decision (field "denied" (str reason) end) s in
        (
          do
            evidence ← r
            ok (record {
              allowed = false;
              reason = reason;
              decision = decision;
              evidence = evidence;
              output = none;
            }),
          s',
        )

    unfoldable pub executed :
        Request → Fields → Fields → Fields → State W → Result ExecutionResult × State W
    executed q actor decision output s =
        let (r, s') = record_call q actor decision (field "output" (obj output) end) s in
        (
          do
            evidence ← r
            ok (record {
              allowed = true;
              reason = reason_executed;
              decision = decision;
              evidence = evidence;
              output = some output;
            }),
          s',
        )

    -- The tests of `execute` up to the call of the handler, in their order.
    unfoldable pub gate_tool : Request → Result (ToolSpec W) → Gate W
    gate_tool q (raised e) = denied reason_unknown_tool
    gate_tool q (ok spec) =
        if not (spec.scope == q.scope)
        then denied reason_scope_mismatch
        else if not (is_empty (validate_instance x.iter_errors (obj q.args) spec.args_schema))
        then denied reason_invalid_args
        else admitted spec

    unfoldable pub gate : Request → PolicyResult → Result (Gate W)
    gate q result =
        if not result.allow
        then (do code ← first_code result.reason_codes; ok (denied code))
        else do
          k ← check P x.capabilities q.token q.tool q.scope q.now
          ok (if not k.valid then denied k.reason else gate_tool q (get_tool q.tool x.tools))

    -- the call of the handler, whose exceptions are all caught, and the test of its result
    unfoldable pub call_handler :
        Request → Fields → Fields → ToolSpec W → State W → Result ExecutionResult × State W
    call_handler q actor decision spec s =
        let (r, world) = spec.handler q.args s.world in
        let s' : State W = record s { world = world } in
        elim r [
          | raised e ↦ deny q actor decision reason_execution_failed s'
          | ok output ↦
              if is_empty (validate_instance x.iter_errors (obj output) spec.result_schema)
              then executed q actor decision output s'
              else deny q actor decision reason_invalid_result s'
        ]

    unfoldable pub pass :
        Request → Fields → Fields → Result (Gate W) → State W → Result ExecutionResult × State W
    pass q actor decision (raised e) s = (raised e, s)
    pass q actor decision (ok (denied reason)) s = deny q actor decision reason s
    pass q actor decision (ok (admitted spec)) s = call_handler q actor decision spec s

    unfoldable pub evaluated :
        Request → Fields → Result PolicyResult → State W → Result ExecutionResult × State W
    evaluated q actor (raised e) s = (raised e, s)
    evaluated q actor (ok result) s = pass q actor (decision_of q actor result) (gate q result) s

    unfoldable pub execute : Request → State W → Result ExecutionResult × State W
    execute q s = elim (get_run x.capabilities q.run_id) [
      | none ↦ (raised (run_unknown_error q.run_id), s)
      | some run ↦ evaluated q run.actor (x.policy policy_point (policy_payload q run.actor)) s
    ]
