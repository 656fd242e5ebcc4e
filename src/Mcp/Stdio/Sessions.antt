-- ===== src/Mcp/Stdio/Sessions.antt =====
-- What the loop `serve_stdio` of cli.py does to its state: a session of executions.
use ai_dev_project.Prelude.{String, inl, inr, List, [], ◌∷◌, Option-cases, Bool-cases}
use ai_dev_project.Prelude.Text.{strip, is_blank}
use ai_dev_project.Python.{Result-cases}
use ai_dev_project.Json.{Fields}
use ai_dev_project.Platform.{Platform}
use ai_dev_project.Tools.Registry.{ToolRegistry}
use ai_dev_project.Runner.Registry.{RunRegistry}
use ai_dev_project.Runner.Executor.{State}
use ai_dev_project.Runner.Executor.Session.{Session, then_call}
use ai_dev_project.Mcp.Protocol.{parse_line}
use ai_dev_project.Mcp.Server.{McpServer, ServerState, Clock, request_of, handle, handle_line}
use ai_dev_project.Mcp.Server.Calls.{handle-cases}
use ai_dev_project.Mcp.Bootstrap.{inject_capability}
use ai_dev_project.Mcp.Stdio.{answer, serve_stdio}

module _ (P : Platform) {W : Type 0} (server : McpServer W) where
  -- The state comes from the start by executions.
  abbrev Follows : State W → ServerState W → Type 0
  Follows start s = Session P server.executor start s.state

  module _ (start : State W) (s : ServerState W) (session : Follows start s) where
    handle-Follows :
        (message : Fields) (clock : Clock) → Follows start (handle P server message clock s).1
    handle-Follows message clock = elim (handle-cases P server message clock s) [
      | inl e ↦ rw e session
      | inr runs ↦
          rw runs.state (then_call (request_of P server runs.called clock s) s.state session)
    ]

    handle_line-Follows :
        (line : String) (clock : Clock) → Follows start (handle_line P server line clock s).1
    unfolding handle_line
    handle_line-Follows line clock = elim (Option-cases (parse_line P line)) [
      | inl e ↦ rw (e, handle_line) session
      | inr (message, e) ↦ rw (e, handle_line) (handle-Follows message clock)
    ]

    answer-Follows :
        (capabilities : RunRegistry) (tools : ToolRegistry W) (run_id stripped : String)
        (clock : Clock)
        → Follows start (answer P server capabilities tools run_id stripped clock s).1
    unfolding answer
    answer-Follows capabilities tools run_id stripped clock =
        elim (Result-cases (inject_capability P capabilities tools run_id clock.seconds stripped)) [
          | inr (fault, e) ↦ rw (e, answer) session
          | inl (bridged, e) ↦ rw (e, answer) (handle_line-Follows bridged clock)
        ]

  -- Whatever the lines are, the loop does to its state what a sequence of executions does.
  pub serve_stdio-Session :
      (capabilities : RunRegistry) (tools : ToolRegistry W) (run_id : String)
      (lines : List (String × Clock)) (start : State W) (s : ServerState W)
      → Session P server.executor start s.state
      → Session P server.executor start
          (serve_stdio P server capabilities tools run_id lines s).1.state
  unfolding serve_stdio
  serve_stdio-Session capabilities tools run_id [] start s session = session
  serve_stdio-Session capabilities tools run_id ((line, clock) ∷ lines) start s session =
      elim (Bool-cases (is_blank (strip line))) [
        | inl b ↦ rw b (serve_stdio-Session capabilities tools run_id lines start s session)
        | inr b ↦ rw b (
            serve_stdio-Session capabilities tools run_id lines start
              (answer P server capabilities tools run_id (strip line) clock s).1
              (answer-Follows start s session capabilities tools run_id (strip line) clock))
      ]
