-- ===== src/Examples/Calls.antt =====
-- A call of a tool with the token of `Tokens`, under a policy server that allows.
use ai_dev_project.Prelude.{ℕ, suc, String, ◌≡◌, ◌↔◌, ◌⊎◌, refl, true, some, List, [], ◌∷◌}
use ai_dev_project.Prelude.Dict.{lookup}
use ai_dev_project.Prelude.Int.{pos}
use ai_dev_project.Prelude.Text.{utf8}
use ai_dev_project.Python.{Exn, ok, raised}
use ai_dev_project.Json.{bool, Fields, end, field, get}
use ai_dev_project.Platform.{loaded}
use ai_dev_project.Policy.Client.{
  PolicyClient, PolicyResult, Server, evaluate, request_url, request_body, parse_reply,
  compute_input_digest,
}
use ai_dev_project.Policy.Client.FailClosed.{Grants, evaluate-allow_iff}
use ai_dev_project.Tools.Registry.{ToolSpec, default_schema, validate_instance}
use ai_dev_project.Prelude.Sort.{sort}
use ai_dev_project.Runner.Registry.{get_run, accept}
use ai_dev_project.Runner.Executor.{RunnerExecutor, Request, State, ExecutionResult, execute}
use ai_dev_project.Runner.Executor.Gates.{Admits}
use ai_dev_project.Runner.Executor.Endings.{Succeeds}
use ai_dev_project.Runner.Executor.Audit.{IsAudited, execute-IsAudited}
use ai_dev_project.Runner.Executor.Mediation.{execute-allowed_iff, world-execute}
use ai_dev_project.Runner.Executor.Binding.{execute_other_run}
use ai_dev_project.Examples.World.{platform, capability}
use ai_dev_project.Examples.Tokens.{human, run, run_2, registry, token, test_check}

abbrev pub client : PolicyClient
client = record { base_url = "http://policy"; bundle_version = "1" }

abbrev pub server : Server
server url body = some (b'1' ∷ [])

evaluate-allow_iff_example :
    ((r : PolicyResult) × (evaluate platform client server "pre-tool-call" human ≡ ok r)
      × (r.allow ≡ true))
    ↔ ((raw : List ℕ) × (v : _) × (server
            (request_url platform client "pre-tool-call")
            (request_body platform client human)
          ≡ some raw)
        × (platform.loads_bytes raw ≡ loaded v)
        × Grants v)
evaluate-allow_iff_example = evaluate-allow_iff platform client server "pre-tool-call" human

abbrev answered : String → PolicyResult
answered key = record {
  allow = true;
  reason_codes = "ALLOWED" ∷ [];
  policy_bundle_version = "1";
  input_digest = platform.sha256 (utf8 key);
}

test_evaluate : evaluate platform client server "pre-tool-call" human ≡ ok (answered "type")
unfolding evaluate parse_reply get utf8 compute_input_digest
test_evaluate = refl

abbrev pub counter : ToolSpec ℕ
counter = record {
  name = "count";
  scope = "counter";
  description = "Counts.";
  args_schema = default_schema;
  result_schema = default_schema;
  handler = λ args n. (ok (field "ok" (bool true) end), suc n);
}

abbrev pub executor : RunnerExecutor ℕ
executor = record {
  policy = evaluate platform client server;
  capabilities = registry;
  tools = ("count", counter) ∷ [];
  iter_errors = λ schema instance. [];
}

abbrev request : Request
request = record {
  run_id = "RUN-1";
  token = token;
  tool = "count";
  args = end;
  scope = "counter";
  created_at = "2026-01-01";
  decision_id = "PD-1";
  evidence_id = "EV-1";
  resource = "";
  now = pos 5;
}

abbrev pub start_state : State ℕ
start_state = record { store = []; world = 4 }

execute-allowed_iff_example :
    ((e : ExecutionResult) × ((execute platform executor request start_state).0 ≡ ok e)
      × (e.allowed ≡ true))
    ↔ ((spec : ToolSpec ℕ) × (output : Fields) × Admits platform executor request spec
        × Succeeds platform executor request spec 4 output)
execute-allowed_iff_example = execute-allowed_iff platform executor request start_state

world-execute_example :
    ((execute platform executor request start_state).1.world ≡ 4)
    ⊎ ((spec : ToolSpec ℕ) × Admits platform executor request spec
        × ((execute platform executor request start_state).1.world ≡ (spec.handler end 4).1))
world-execute_example = world-execute platform executor request start_state

execute-IsAudited_example :
    ((fault : Exn) × (execute platform executor request start_state ≡ (raised fault, start_state)))
    ⊎ IsAudited platform request (execute platform executor request start_state)
execute-IsAudited_example = execute-IsAudited platform request executor start_state

counter-Admits : Admits platform executor request counter
unfolding get_run lookup evaluate parse_reply get validate_instance sort utf8 compute_input_digest
counter-Admits = record {
  run = run;
  result = answered "tool";
  capability = accept capability;
  known = refl;
  asked = refl;
  allowed = refl;
  checked = test_check;
  valid = refl;
  registered = refl;
  in_scope = refl;
  fits = refl;
}

test_execute :
    (e : ExecutionResult) × ((execute platform executor request start_state).0 ≡ ok e)
    × (e.allowed ≡ true)
unfolding validate_instance sort
test_execute =
    (execute-allowed_iff platform executor request start_state).1
      (counter, field "ok" (bool true) end, counter-Admits, record { returns = refl; fits = refl })

execute_other_run_example :
    (e : ExecutionResult) × ((execute platform executor
        (record request { run_id = "RUN-2" })
        start_state).0
      ≡ ok e)
    × (e.allowed ≡ true)
unfolding get_run lookup
execute_other_run_example =
    execute_other_run platform executor request "RUN-2" run run_2 refl refl refl start_state
      test_execute
