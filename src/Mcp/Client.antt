-- ===== src/Mcp/Client.antt =====
-- mcp/client.py: the client that calls a server in its own process.
pub mod Calls
use ai_dev_project.Prelude.{ℕ, suc, String, Option, none, some, if◌then◌else◌}
use ai_dev_project.Prelude.Int.{ℤ, pos}
use ai_dev_project.Python.{Result, ok, raised, ◌>>=◌, mcp_error, type_error}
use ai_dev_project.Json.{Value, int, str, obj, Fields, end, field, get, item, to_text}
use ai_dev_project.Platform.{Platform}
use ai_dev_project.Mcp.Protocol.{request}
use ai_dev_project.Mcp.Server.{McpServer, ServerState, Clock, ToolCall, handle}

-- The counter of the client, and the state of its server.
pub record ClientState (W : Type 0) : Type 0 where
  pub counter : ℕ
  pub server : ServerState W

-- The parameters of `call_tool`.
abbrev pub call_params : ToolCall → Fields
call_params c = field "name" (str c.name) (
    field "arguments" (obj c.arguments) (
      field "run_id" (str c.run_id)
        (field "token" (str c.token) (field "scope" (str c.scope) end))))

module _ (P : Platform) where
  -- `raise MCPError(int(error["code"]), str(error["message"]))`; a code that is no integer, which the
  -- server does not give, is taken for a wrong type.
  unfoldable pub raise_error : Value → Result Value
  raise_error (obj error) = do
    code ← item error "code"
    message ← item error "message"
    elim code [ int n ↦ raised (mcp_error n (to_text P.repr message)) | _ ↦ raised type_error ]
  raise_error _ = raised type_error

  -- What `_request` makes of a response.
  unfoldable pub answer_of : Fields → Result Value
  answer_of response = elim (get response "error") [
    | some error ↦ raise_error error
    | none ↦ item response "result"
  ]

  module _ {W : Type 0} (x : McpServer W) where
    -- `_request`, with `_next_id`
    unfoldable pub send_request :
        String → Option Fields → Clock → ClientState W → Result Value × ClientState W
    send_request method params clock s =
        let id = suc s.counter in
        let (r, server) = handle P x (request (int (pos id)) method params) clock s.server in
        (do response ← r; answer_of response, record { counter = id; server = server })

    abbrev pub initialize : Clock → ClientState W → Result Value × ClientState W
    initialize = send_request "initialize" none

    abbrev pub list_tools : Clock → ClientState W → Result Value × ClientState W
    list_tools = send_request "tools/list" none

    abbrev pub call_tool : ToolCall → Clock → ClientState W → Result Value × ClientState W
    call_tool c = send_request "tools/call" (some (call_params c))
