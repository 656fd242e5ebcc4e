-- ===== src/Mcp/Client/Calls.antt =====
-- What a call of a client comes to at the server.
use ai_dev_project.Prelude.{suc, ◌≡◌, ap, refl, false}
use ai_dev_project.Prelude.Int.{pos}
use ai_dev_project.Prelude.Text.{is_blank}
use ai_dev_project.Python.{Result, ok, raised, ◌>>=◌}
use ai_dev_project.Json.{Value, int, obj, get, item}
use ai_dev_project.Platform.{Platform}
use ai_dev_project.Runner.Executor.{State, ExecutionResult, execute}
use ai_dev_project.Mcp.Server.{
  McpServer, ServerState, Clock, ToolCall, call, handle, dispatch, run_call, reply_of, request_of,
  read_call, payload_of,
}
use ai_dev_project.Mcp.Bootstrap.Given.{read_call_lem}
use ai_dev_project.Mcp.Client.{ClientState, call_params, answer_of, send_request, call_tool}

module _ (P : Platform) {W : Type 0} (x : McpServer W) (c : ToolCall) (clock : Clock)
    (s : ClientState W) where
  read_back :
      (id : Value)
      → is_blank c.name ≡ false
      → is_blank c.run_id ≡ false
      → is_blank c.token ≡ false
      → is_blank c.scope ≡ false
      → read_call id (call_params c) ≡ call c
  unfolding get
  read_back id bn br bt bs =
      read_call_lem id (call_params c) c.name c.arguments c.run_id c.token c.scope bn br bt bs refl
        refl refl refl refl

  -- The state after one execution that has left `state`.
  abbrev pub counted : State W → ClientState W
  counted state = record {
    counter = suc s.counter;
    server = record {
      decision_seq = suc s.server.decision_seq;
      evidence_seq = suc s.server.evidence_seq;
      state = state;
    };
  }

  answered :
      (id : Value) (r : Result ExecutionResult)
      → ((r >>= λ e. ok (reply_of P x id e)) >>= λ response. answer_of P response)
        ≡ (r >>= λ e. ok (obj (payload_of P x e)))
  unfolding reply_of answer_of get item
  answered id (ok e) = refl
  answered id (raised fault) = refl

  -- A call of the client, whose name, run, token and scope are not empty: the server executes that
  -- call, with the next two ids, and the client returns the payload of the result, be it denied or not.
  -- What the execution raises, the client raises. One request is counted, and one execution.
  pub call_tool-execute :
      is_blank c.name ≡ false
      → is_blank c.run_id ≡ false
      → is_blank c.token ≡ false
      → is_blank c.scope ≡ false
      → let (r, state) = execute P x.executor (request_of P x c clock s.server) s.server.state in
        call_tool P x c clock s ≡ (do e ← r; ok (obj (payload_of P x e)), counted state)
  unfolding send_request handle dispatch ai_dev_project.Mcp.Server.call_tool run_call reply_of
      answer_of get item
  call_tool-execute bn br bt bs =
      rw (read_back (int (pos (suc s.counter))) bn br bt bs, ai_dev_project.Mcp.Server.call_tool)
        (ap
          (λ r.
            (r, counted (execute P x.executor (request_of P x c clock s.server) s.server.state).1))
          (answered _ _))
