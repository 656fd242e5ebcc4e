-- ===== src/Mcp/Protocol.antt =====
-- mcp/protocol.py
use ai_dev_project.Prelude.{String, Option, none, some}
use ai_dev_project.Prelude.Int.{ℤ, negsuc}
use ai_dev_project.Json.{Value, int, str, obj, Fields, end, field, as_obj}
use ai_dev_project.Platform.{Platform}

abbrev pub jsonrpc_version : String
jsonrpc_version = "2.0"

-- -32700
abbrev pub parse_error : ℤ
parse_error = negsuc 32699

-- -32600
abbrev pub invalid_request : ℤ
invalid_request = negsuc 32599

-- -32601
abbrev pub method_not_found : ℤ
method_not_found = negsuc 32600

-- -32602
abbrev pub invalid_params : ℤ
invalid_params = negsuc 32601

-- -32603
abbrev pub internal_error : ℤ
internal_error = negsuc 32602

abbrev pub request : Value → String → Option Fields → Fields
request id method none =
    field "jsonrpc" (str "2.0") (field "id" id (field "method" (str method) end))
request id method (some params) =
    field "jsonrpc" (str "2.0")
      (field "id" id (field "method" (str method) (field "params" (obj params) end)))

abbrev pub result : Value → Fields → Fields
result id payload = field "jsonrpc" (str "2.0") (field "id" id (field "result" (obj payload) end))

abbrev pub error : Value → ℤ → String → Fields
error id code message = field "jsonrpc" (str "2.0") (
    field "id" id
      (field "error" (obj (field "code" (int code) (field "message" (str message) end))) end))

unfoldable pub parse_line : Platform → String → Option Fields
parse_line P line = elim (P.loads line) [ none ↦ none | some v ↦ as_obj v ]
