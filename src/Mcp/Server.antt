-- ===== src/Mcp/Server.antt =====
-- mcp/server.py. The two counters stand beside the state on which executions act.
pub mod Calls
use ai_dev_project.Prelude.{
  ◌≡◌, arith, ℕ, suc, String, Bool, true, false, not, ◌||◌, Option, none, some, List, [], ◌∷◌, ◌==◌,
  if◌then◌else◌,
}
use ai_dev_project.Prelude.Int.{ℤ}
use ai_dev_project.Prelude.Text.{◌<>◌, is_blank, decimal4}
use ai_dev_project.Python.{Result, ok, raised, ◌>>=◌}
use ai_dev_project.Json.{
  Value, null, bool, str, arr, obj, nil, cons, Fields, end, field, get, get_or, is_text, to_items,
}
use ai_dev_project.Platform.{Platform, plain, plain_utf8}
use ai_dev_project.Tools.Registry.{ToolSpec, ToolRegistry, get_tool, tool_names}
use ai_dev_project.Runner.Executor.{RunnerExecutor, Request, State, ExecutionResult, execute}
use ai_dev_project.Mcp.Protocol.{
  jsonrpc_version, parse_error, invalid_request, method_not_found, invalid_params, result, error,
  parse_line,
}

abbrev pub protocol_version : String
protocol_version = "2024-11-05"

abbrev pub server_name : String
server_name = "secure-agentic-sdlc"

abbrev pub server_version : String
server_version = "0.1.0"

pub record McpServer (W : Type 0) : Type 0 where
  pub executor : RunnerExecutor W
  pub tools : ToolRegistry W

pub record ServerState (W : Type 0) : Type 0 where
  pub decision_seq : ℕ
  pub evidence_seq : ℕ
  pub state : State W

-- The clock at one message: `_now()`, and `int(time.time())`.
pub record Clock : Type 0 where
  pub text : String
  pub seconds : ℤ

-- `isinstance(value, str)` and the text is not empty
abbrev pub filled : Option Value → Option String
filled (some (str s)) = if is_blank s then none else some s
filled _ = none

abbrev pub given_text : Option Value → Option String
given_text (some (str s)) = some s
given_text _ = none

pub given_text→eq : (o : Option Value) (s : String) → given_text o ≡ some s → o ≡ some (str s)
given_text→eq (some (str s')) s h = ground arith
given_text→eq none s h = ground arith
given_text→eq (some _) s h = ground arith

-- `params if isinstance(params, Mapping) else {}`
abbrev pub given_params : Option Value → Fields
given_params (some (obj d)) = d
given_params _ = end

-- `params.get("arguments", {})`, where it is an object
abbrev pub given_arguments : Option Value → Option Fields
given_arguments none = some end
given_arguments (some (obj d)) = some d
given_arguments (some _) = none

abbrev initialize : Fields
initialize = field "protocolVersion" (str protocol_version) (
    field "serverInfo"
      (obj (field "name" (str server_name) (field "version" (str server_version) end)))
      (field "capabilities" (obj (field "tools" (obj end) end)) end))

abbrev text_content : String → Value
text_content s = arr (cons (obj (field "type" (str "text") (field "text" (str s) end))) nil)

abbrev denied_payload : String → Fields
denied_payload reason = field "content" (text_content reason) (
    field "isError" (bool true)
      (field "structuredContent" (obj (field "reason" (str reason) end)) end))

-- `dict(result.output or {})`
abbrev pub output_or_empty : Option Fields → Fields
output_or_empty none = end
output_or_empty (some d) = d

abbrev tool_entry : {W : Type 0} → ToolSpec W → Value
tool_entry spec = obj (
    field "name" (str spec.name)
      (field "description" (str spec.description) (field "inputSchema" (obj spec.args_schema) end)))

module _ {W : Type 0} where
  tool_entries : ToolRegistry W → List String → Result (List Value)
  tool_entries tools [] = ok []
  tool_entries tools (name ∷ names) = do
    spec ← get_tool name tools
    rest ← tool_entries tools names
    ok (tool_entry spec ∷ rest)

  unfoldable pub list_tools : ToolRegistry W → Result Fields
  unfolding tool_entries
  list_tools tools = do
    entries ← tool_entries tools (tool_names tools)
    ok (field "tools" (arr (to_items entries)) end)

-- the message of a missing field of the capability
abbrev missing_field : Value → String → Fields
missing_field id name = error id invalid_params ("missing capability field '" <> (name <> "'"))

-- The parts of a `tools/call` that is well formed.
pub record ToolCall : Type 0 where
  pub name : String
  pub arguments : Fields
  pub run_id : String
  pub token : String
  pub scope : String

-- What the parameters of a `tools/call` come to: an error, or a call.
pub data Parsed : Type 0 where
  malformed : Fields → Parsed
  call : ToolCall → Parsed

unfoldable pub read_call : Value → Fields → Parsed
read_call id params = elim (filled (get params "name")) [
  | none ↦ malformed (error id invalid_params "missing tool name")
  | some name ↦ elim (given_arguments (get params "arguments")) [
    | none ↦ malformed (error id invalid_params "arguments must be an object")
    | some arguments ↦ elim (filled (get params "run_id")) [
      | none ↦ malformed (missing_field id "run_id")
      | some run_id ↦ elim (filled (get params "token")) [
        | none ↦ malformed (missing_field id "token")
        | some token ↦ elim (filled (get params "scope")) [
          | none ↦ malformed (missing_field id "scope")
          | some scope ↦ call (record {
            name = name;
            arguments = arguments;
            run_id = run_id;
            token = token;
            scope = scope;
          })
        ]
      ]
    ]
  ]
]

module _ (P : Platform) {W : Type 0} (server : McpServer W) where
  -- The request of `execute`, with the next ids.
  abbrev pub request_of : ToolCall → Clock → ServerState W → Request
  request_of c clock s = record {
    run_id = c.run_id;
    token = c.token;
    tool = c.name;
    args = c.arguments;
    scope = c.scope;
    created_at = clock.text;
    decision_id = "PD-" <> decimal4 (suc s.decision_seq);
    evidence_id = "EV-" <> decimal4 (suc s.evidence_seq);
    resource = "";
    now = clock.seconds;
  }

  abbrev pub allowed_payload : Fields → Fields
  allowed_payload payload =
      field "content" (text_content (P.dumps plain_utf8 (obj payload)))
        (field "isError" (bool false) (field "structuredContent" (obj payload) end))

  abbrev pub payload_of : ExecutionResult → Fields
  payload_of e =
      if e.allowed then allowed_payload (output_or_empty e.output) else denied_payload e.reason

  unfoldable pub reply_of : Value → ExecutionResult → Fields
  reply_of id e = result id (payload_of e)

  unfoldable pub run_call : Value → ToolCall → Clock → ServerState W → Result Fields × ServerState W
  run_call id c clock s =
      let (r, state) = execute P server.executor (request_of c clock s) s.state in
      (
        do e ← r; ok (reply_of id e),
        record {
          decision_seq = suc s.decision_seq;
          evidence_seq = suc s.evidence_seq;
          state = state;
        },
      )

  -- `_call`
  unfoldable pub call_tool : Value → Fields → Clock → ServerState W → Result Fields × ServerState W
  call_tool id params clock s = elim (read_call id params) [
    | malformed reply ↦ (ok reply, s)
    | call c ↦ run_call id c clock s
  ]

  unfoldable pub dispatch :
      Value → String → Fields → Clock → ServerState W → Result Fields × ServerState W
  dispatch id method params clock s =
      if method == "initialize"
      then (ok (result id initialize), s)
      else if method == "notifications/initialized" || method == "ping"
      then (ok (result id end), s)
      else if method == "tools/list"
      then (do payload ← list_tools server.tools; ok (result id payload), s)
      else if method == "tools/call"
      then call_tool id params clock s
      else (ok (error id method_not_found ("unknown method " <> P.repr (str method))), s)

  unfoldable pub handle : Fields → Clock → ServerState W → Result Fields × ServerState W
  handle message clock s =
      let id = get_or message "id" null in
      if not (is_text (get message "jsonrpc") jsonrpc_version)
      then (ok (error id invalid_request "jsonrpc must be 2.0"), s)
      else elim (given_text (get message "method")) [
        | none ↦ (ok (error id invalid_request "missing method"), s)
        | some method ↦ dispatch id method (given_params (get message "params")) clock s
      ]

  unfoldable pub handle_line : String → Clock → ServerState W → Result String × ServerState W
  handle_line line clock s = elim (parse_line P line) [
    | none ↦ (ok (P.dumps plain (obj (error null parse_error "invalid JSON"))), s)
    | some message ↦
        let (r, s') = handle message clock s in
        (do reply ← r; ok (P.dumps plain_utf8 (obj reply)), s')
  ]
