-- ===== src/Cli/Bridge.antt =====
-- cli.py: the command `mcp`, which sets up the bridge and serves it. The world of the console is the
-- evidence store with the world of the tools.
pub mod Answers
pub mod Sessions
use ai_dev_project.Prelude.{
  ℕ, String, Bool, true, false, Option, none, some, List, [], ◌∷◌, ◌++◌, map, if◌then◌else◌,
}
use ai_dev_project.Prelude.Int.{ℤ}
use ai_dev_project.Prelude.Text.{is_blank}
use ai_dev_project.Python.{Result, ok}
use ai_dev_project.Json.{Value, Fields}
use ai_dev_project.Platform.{Platform}
use ai_dev_project.Policy.Client.{Server, policy_client, evaluate}
use ai_dev_project.Artifacts.{Schemas}
use ai_dev_project.Tools.Effects.{Act, and_then, lift}
use ai_dev_project.Tools.Registry.{ToolRegistry, IterErrors}
use ai_dev_project.Tools.Artifacts.{ArtifactFiles, dict_of, register_artifact_tools}
use ai_dev_project.Tools.Workspace.{Workspace}
use ai_dev_project.Tools.Commands.{Completed, CommandRunner, default_allowed_programs}
use ai_dev_project.Tools.Registration.{register_file_tools, register_test_tools}
use ai_dev_project.Tools.Github.{Github, default_tool, register_vcs_tools}
use ai_dev_project.Runner.Registry.{Run, RunRegistry, start}
use ai_dev_project.Runner.Executor.{RunnerExecutor, State}
use ai_dev_project.Mcp.Server.{McpServer, ServerState, Clock}
use ai_dev_project.Mcp.Stdio.{serve_stdio}
use ai_dev_project.Cli.{Console, Line, err, bare, ◌>>=◌, ◌>>◌, exit, print}
use ai_dev_project.Cli.Setup.{
  Machine, BridgeArgs, secret_of, actor_text, bridge_tools, bridge_executor,
}

module _ (P : Platform) {W : Type 0} (m : Machine W) where
  -- `serve_stdio` on the streams of the console
  unfoldable pub serve :
      McpServer W
      → RunRegistry
      → ToolRegistry W
      → String
      → List (String × Clock)
      → Act (Console (State W)) (Unit {0})
  serve server capabilities tools run_id input s =
      let (responses, t) =
        serve_stdio P server capabilities tools run_id input
          (record { decision_seq = 0; evidence_seq = 0; state = s.world }) in
      (ok tt, record { lines = s.lines ++ map bare responses; world = t.state })

  -- `_cmd_mcp` from the start of the run
  unfoldable pub run_bridge :
      Server → BridgeArgs → List (String × Clock) → List ℕ → Value → Act (Console (State W)) ℕ
  run_bridge server a input secret actor_json = do
    actor ← lift (dict_of actor_json)
    let (run, capabilities) =
        start (record { secret = secret; runs = [] }) actor (m.environ "SDLC_RUN_ID") m.uuid m.now
    tools ← lift (bridge_tools P m a)
    let executor = bridge_executor P m server a capabilities tools
    serve (record { executor = executor; tools = tools }) capabilities tools run.run_id input
    exit 0

  -- `_cmd_mcp`
  unfoldable pub cmd_mcp : Server → BridgeArgs → List (String × Clock) → Act (Console (State W)) ℕ
  cmd_mcp server a input = elim (secret_of P m (m.environ "SDLC_MCP_SECRET")) [
    | none ↦ do print (err "SDLC_MCP_SECRET must be hex-encoded"); exit 1
    | some secret ↦ elim (P.loads (actor_text P m)) [
      | none ↦ do print (err "SDLC_ACTOR_JSON must be valid JSON"); exit 1
      | some actor_json ↦ run_bridge server a input secret actor_json
    ]
  ]
