-- ===== src/Examples/Bridge.antt =====
-- Messages to the server, with and without the bridge.
use ai_dev_project.Prelude.{ℕ, String, ◌≡◌, ◌⊎◌, refl, true, some, [], ◌∷◌}
use ai_dev_project.Prelude.Dict.{lookup}
use ai_dev_project.Prelude.Int.{pos, ◌+ℤ◌}
use ai_dev_project.Prelude.Text.{utf8, is_ascii, strip_equals, has_code}
use ai_dev_project.Python.{ok, ◌>>=◌}
use ai_dev_project.Json.{null, int, str, obj, Fields, end, field, get, get_or, insert, set_default}
use ai_dev_project.Tools.Registry.{ToolSpec, get_tool}
use ai_dev_project.Runner.Capability.{
  Capability, CapabilityCheck, issue_token, sign, b64encode, b64decode,
}
use ai_dev_project.Runner.Capability.Decoding.{Encodes, raw_of, mac_of}
use ai_dev_project.Runner.Registry.{issue, check}
use ai_dev_project.Runner.Executor.Gates.{Admits}
use ai_dev_project.Mcp.Server.{
  McpServer, ServerState, Clock, ToolCall, call, read_call, given_params, request_of, payload_of,
  handle,
}
use ai_dev_project.Mcp.Server.Calls.{world-handle}
use ai_dev_project.Mcp.Bootstrap.{add_capability, inject_params}
use ai_dev_project.Mcp.Bootstrap.Injection.{inject_params-check}
use ai_dev_project.Mcp.Client.{ClientState, call_tool}
use ai_dev_project.Mcp.Client.Calls.{counted, call_tool-execute}
use ai_dev_project.Runner.Executor.{execute}
use ai_dev_project.Examples.World.{platform}
use ai_dev_project.Examples.Tokens.{run, registry, token, secret}
use ai_dev_project.Examples.Calls.{counter, executor, start_state}

abbrev server : McpServer ℕ
server = record { executor = executor; tools = ("count", counter) ∷ [] }

abbrev idle : ServerState ℕ
idle = record { decision_seq = 0; evidence_seq = 0; state = start_state }

abbrev clock : Clock
clock = record { text = "2026-01-01T00:00:00Z"; seconds = pos 600 }

abbrev bare_params : Fields
bare_params = field "name" (str "count") (field "arguments" (obj end) end)

abbrev message : Fields
message = field "jsonrpc" (str "2.0") (
    field "id" (int (pos 1))
      (field "method" (str "tools/call") (field "params" (obj bare_params) end)))

world-handle_example :
    ((handle platform server message clock idle).1.state.world ≡ 4)
    ⊎ ((c : ToolCall) × (spec : ToolSpec ℕ) × (read_call
            (get_or message "id" null)
            (given_params (get message "params"))
          ≡ call c)
        × Admits platform executor (request_of platform server c clock idle) spec
        × ((handle platform server message clock idle).1.state.world
            ≡ (spec.handler c.arguments 4).1))
world-handle_example = world-handle platform server message clock idle

abbrev issued : Capability
issued = record { run_id = "RUN-1"; tool = "count"; scope = "counter"; expires_at = pos 900 }

payload-Encodes : Encodes platform (raw_of platform secret issued)
unfolding b64encode b64decode is_ascii has_code strip_equals utf8
payload-Encodes = record { ascii = refl; no_dot = refl; nonblank = refl; decodes = refl }

signature-Encodes : Encodes platform (mac_of platform secret issued)
unfolding b64encode b64decode is_ascii has_code strip_equals utf8
signature-Encodes = record { ascii = refl; no_dot = refl; nonblank = refl; decodes = refl }

abbrev injected : Fields
injected = field "name" (str "count") (
    field "arguments" (obj end) (
      field "run_id" (str "RUN-1") (field "scope" (str "counter") (field "token" (str token) end))))

test_inject :
    inject_params platform registry server.tools "RUN-1" (pos 600) bare_params ≡ ok (some injected)
unfolding inject_params add_capability get_tool lookup issue issue_token ◌+ℤ◌ sign b64encode utf8
    is_ascii strip_equals get insert set_default
test_inject = refl

inject_params-check_example :
    (p : Fields) × (t : String) × (inject_params platform registry server.tools "RUN-1"
        (pos 600)
        bare_params
      ≡ ok (some p))
    × (read_call null p
        ≡ call (record {
          name = "count";
          arguments = end;
          run_id = "RUN-1";
          token = t;
          scope = "counter";
        }))
    × (k : CapabilityCheck) × (check platform registry t "count" "counter" (pos 600) ≡ ok k)
    × (k.valid ≡ true)
    × (k.run_id ≡ some "RUN-1")
    × (k.tool ≡ some "count")
    × (k.scope ≡ some "counter")
unfolding get get_tool lookup utf8 ◌+ℤ◌
inject_params-check_example =
    inject_params-check platform registry server.tools "RUN-1" (pos 600) null bare_params end
      "count" counter run refl refl refl refl refl refl refl refl refl refl refl payload-Encodes
      signature-Encodes refl

abbrev named : ToolCall
named = record {
  name = "count";
  arguments = end;
  run_id = "RUN-1";
  token = token;
  scope = "counter";
}

abbrev connected : ClientState ℕ
connected = record { counter = 0; server = idle }

call_tool-execute_example :
    let (r, state) =
      execute platform executor (request_of platform server named clock idle) start_state in
    call_tool platform server named clock connected ≡ (
      r >>= λ e. ok (obj (payload_of platform server e)),
      counted platform server named clock connected state,
    )
unfolding utf8
call_tool-execute_example =
    call_tool-execute platform server named clock connected refl refl refl refl
