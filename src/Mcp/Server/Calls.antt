-- ===== src/Mcp/Server/Calls.antt =====
-- What a message to the server does to its state.
use ai_dev_project.Prelude.{
  suc, String, ◌≡◌, ◌⊎◌, refl, ap, inl, inr, ◌||◌, some, ◌==◌, eq_iff, ◌∙◌, Option-cases,
  Bool-cases,
}
use ai_dev_project.Json.{Value, null, Fields, get, get_or, is_text}
use ai_dev_project.Platform.{Platform}
use ai_dev_project.Tools.Registry.{ToolSpec}
use ai_dev_project.Runner.Executor.{execute}
use ai_dev_project.Runner.Executor.Gates.{Admits}
use ai_dev_project.Runner.Executor.Mediation.{world-execute}
use ai_dev_project.Mcp.Server.{
  McpServer, ServerState, Clock, ToolCall, Parsed, malformed, call, read_call, request_of, run_call,
  call_tool, dispatch, handle, given_text, given_text→eq, given_params,
}

Parsed-cases :
    (x : Parsed) → ((reply : Fields) × (x ≡ malformed reply)) ⊎ ((c : ToolCall) × (x ≡ call c))
Parsed-cases (malformed reply) = inl (reply, refl)
Parsed-cases (call c) = inr (c, refl)

module _ (P : Platform) {W : Type 0} (server : McpServer W) (message : Fields) (clock : Clock)
    (s : ServerState W) where
  -- The message names a tool and carries a capability, and the state behind it is that of the execution
  -- with the next ids.
  pub record Runs (s' : ServerState W) : Type 0 where
    pub called : ToolCall
    pub method : get message "method" ≡ some (Value.str "tools/call")
    pub parsed :
        read_call (get_or message "id" null) (given_params (get message "params")) ≡ call called
    pub decision_seq : s'.decision_seq ≡ suc s.decision_seq
    pub evidence_seq : s'.evidence_seq ≡ suc s.evidence_seq
    pub state :
        s'.state ≡ (execute P server.executor (request_of P server called clock s) s.state).1

  call_tool-cases :
      (id : Value) (params : Fields)
      → ((call_tool P server id params clock s).1 ≡ s)
        ⊎ ((c : ToolCall) × (read_call id params ≡ call c)
            × ((call_tool P server id params clock s).1 ≡ (run_call P server id c clock s).1))
  unfolding call_tool
  call_tool-cases id params = elim (Parsed-cases (read_call id params)) [
    | inl (reply, e) ↦ inl (rw (e, call_tool))
    | inr (c, e) ↦ inr (c, e, rw (e, call_tool))
  ]

  dispatch-cases :
      (id : Value) (method : String) (params : Fields)
      → ((dispatch P server id method params clock s).1 ≡ s)
        ⊎ ((method ≡ "tools/call")
            × ((dispatch P server id method params clock s).1
                ≡ (call_tool P server id params clock s).1))
  unfolding dispatch
  dispatch-cases id method params = elim (Bool-cases (method == "initialize")) [
    | inl a ↦ inl (rw a)
    | inr a ↦ elim (Bool-cases (method == "notifications/initialized" || method == "ping")) [
      | inl b ↦ inl (rw (a, b))
      | inr b ↦ elim (Bool-cases (method == "tools/list")) [
        | inl c ↦ inl (rw (a, b, c))
        | inr c ↦ elim (Bool-cases (method == "tools/call")) [
          | inl d ↦ inr ((eq_iff method "tools/call").0 d, rw (a, b, c, d))
          | inr d ↦ inl (rw (a, b, c, d))
        ]
      ]
    ]
  ]

  run_call-Runs :
      (id : Value) (c : ToolCall)
      → get message "method" ≡ some (Value.str "tools/call")
      → read_call (get_or message "id" null) (given_params (get message "params")) ≡ call c
      → Runs (run_call P server id c clock s).1
  unfolding run_call
  run_call-Runs id c m p = record {
    called = c;
    method = m;
    parsed = p;
    decision_seq = refl;
    evidence_seq = refl;
    state = refl;
  }

  routed :
      (method : String)
      → get message "method" ≡ some (Value.str method)
      → let s' =
          (dispatch P server
            (get_or message "id" null)
            method
            (given_params (get message "params"))
            clock
            s).1 in
        (s' ≡ s) ⊎ Runs s'
  routed method m =
      let id = get_or message "id" null in
      let params = given_params (get message "params") in
      elim (dispatch-cases id method params) [
        | inl e ↦ inl e
        | inr (called, e) ↦ elim (call_tool-cases id params) [
          | inl e' ↦ inl (e ∙ e')
          | inr (c, p, e') ↦
              inr (rw (e ∙ e') (run_call-Runs id c (m ∙ ap (λ x. some (Value.str x)) called) p))
        ]
      ]

  -- A message leaves the state as it is, or it is a call that is well formed and runs one execution.
  pub handle-cases :
      ((handle P server message clock s).1 ≡ s) ⊎ Runs (handle P server message clock s).1
  unfolding handle
  handle-cases = elim (Bool-cases (is_text (get message "jsonrpc") "2.0")) [
    | inr a ↦ inl (rw (a, handle))
    | inl a ↦ elim (Option-cases (given_text (get message "method"))) [
      | inl b ↦ inl (rw (a, handle) (rw b))
      | inr (method, b) ↦ rw (a, handle) (rw b (routed method (given_text→eq _ method b)))
    ]
  ]

  -- Whatever a message says, it changes the world of the tools only by the handler of one tool, for
  -- which the run is known, the policy allows, the token that the message carries is valid, and the
  -- arguments fit the schema.
  pub world-handle :
      ((handle P server message clock s).1.state.world ≡ s.state.world)
      ⊎ ((c : ToolCall) × (spec : ToolSpec W) × (read_call
              (get_or message "id" null)
              (given_params (get message "params"))
            ≡ call c)
          × Admits P server.executor (request_of P server c clock s) spec
          × ((handle P server message clock s).1.state.world
              ≡ (spec.handler c.arguments s.state.world).1))
  world-handle = elim handle-cases [
    | inl e ↦ inl (ap (λ s'. s'.state.world) e)
    | inr runs ↦
        elim (world-execute P server.executor (request_of P server runs.called clock s) s.state) [
          | inl e ↦ inl (ap (λ s'. s'.world) runs.state ∙ e)
          | inr (spec, a, e) ↦
              inr (runs.called, spec, runs.parsed, a, ap (λ s'. s'.world) runs.state ∙ e)
        ]
  ]
