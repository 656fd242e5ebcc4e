-- ===== src/Cli/Setup.antt =====
-- cli.py: what the command `mcp` sets up.
use ai_dev_project.Prelude.{ℕ, String, Bool, Option, none, some, List, [], if◌then◌else◌}
use ai_dev_project.Prelude.Int.{ℤ}
use ai_dev_project.Prelude.Text.{is_blank}
use ai_dev_project.Python.{Result, ok, ◌>>=◌}
use ai_dev_project.Platform.{Platform}
use ai_dev_project.Policy.Client.{Server, policy_client, evaluate}
use ai_dev_project.Artifacts.{Schemas}
use ai_dev_project.Tools.Registry.{ToolRegistry, IterErrors}
use ai_dev_project.Tools.Artifacts.{ArtifactFiles, register_artifact_tools}
use ai_dev_project.Tools.Workspace.{Workspace}
use ai_dev_project.Tools.Commands.{Completed, CommandRunner, default_allowed_programs}
use ai_dev_project.Tools.Registration.{register_file_tools, register_test_tools}
use ai_dev_project.Tools.Github.{Github, default_tool, register_vcs_tools}
use ai_dev_project.Runner.Registry.{RunRegistry}
use ai_dev_project.Runner.Executor.{RunnerExecutor}

-- What the command uses of the machine: the environment, `bytes.fromhex`, `os.urandom(32)`, the time and the
-- text of a new uuid, and what the tools act on for `--artifacts-dir` and `--root`.
pub record Machine (W : Type 0) : Type 0 where
  pub environ : String → Option String
  pub fromhex : String → Option (List ℕ)
  pub urandom : List ℕ
  pub now : ℤ
  pub uuid : String
  pub files : String → ArtifactFiles W
  pub workspace : String → Workspace W
  pub run : List String → List String → W → Result Completed × W
  pub github : Github W
  pub is_digit : ℕ → Bool
  pub schemas : Schemas
  pub iter_errors : IterErrors

-- The arguments of `mcp`. The evidence directory is the store in the state.
pub record BridgeArgs : Type 0 where
  pub opa_url : String
  pub artifacts_dir : String
  pub root : String

abbrev pub default_actor : String
default_actor = "{\"type\": \"agent\", \"id\": \"opencode\", \"role\": \"implementer\"}"

-- `os.environ.get(name)` when it is neither missing nor empty
abbrev pub given : Option String → Option String
given none = none
given (some s) = if is_blank s then none else some s

module _ (P : Platform) {W : Type 0} (m : Machine W) where
  -- The secret of the registry, unless it is given and not hexadecimal.
  unfoldable pub secret_of : Option String → Option (List ℕ)
  secret_of variable = elim (given variable) [ none ↦ some m.urandom | some text ↦ m.fromhex text ]

  abbrev pub actor_text : String
  actor_text = elim (m.environ "SDLC_ACTOR_JSON") [ none ↦ default_actor | some text ↦ text ]

  -- `if os.environ.get("SDLC_GITHUB_TOKEN"): register_vcs_tools(…)`
  abbrev pub register_vcs : Option String → Workspace W → ToolRegistry W → Result (ToolRegistry W)
  register_vcs none ws tools = ok tools
  register_vcs (some token) ws tools =
      register_vcs_tools P (default_tool P (record m.github { environ = m.environ }) ws m.is_digit)
        tools

  unfoldable pub bridge_tools : BridgeArgs → Result (ToolRegistry W)
  bridge_tools a = do
    let ws = m.workspace a.root
    with_artifacts ← register_artifact_tools P (m.files a.artifacts_dir) m.schemas []
    with_files ← register_file_tools P ws with_artifacts
    let runner : CommandRunner W = record {
      workspace = ws;
      allow = default_allowed_programs;
      run = m.run;
    }
    with_tests ← register_test_tools P runner with_files
    register_vcs (given (m.environ "SDLC_GITHUB_TOKEN")) ws with_tests

  abbrev pub bridge_executor : Server → BridgeArgs → RunRegistry → ToolRegistry W → RunnerExecutor W
  bridge_executor server a capabilities tools = record {
    policy = evaluate P (policy_client a.opa_url "unknown") server;
    capabilities = capabilities;
    tools = tools;
    iter_errors = m.iter_errors;
  }
