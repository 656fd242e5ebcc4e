-- ===== src/Examples/Writes.antt =====
-- The tool that writes files in an executor over the disk of `Tools`.
use ai_dev_project.Prelude.{String, List, ◌≡◌, ◌⊎◌, refl, [], ◌∷◌}
use ai_dev_project.Prelude.Dict.{lookup, put}
use ai_dev_project.Prelude.Int.{pos}
use ai_dev_project.Prelude.Text.{utf8}
use ai_dev_project.Python.{ok}
use ai_dev_project.Json.{str, end, field}
use ai_dev_project.Policy.Client.{evaluate}
use ai_dev_project.Tools.Workspace.{Confined}
use ai_dev_project.Tools.Registration.{file_of, write_file_tool, register_file_tools}
use ai_dev_project.Tools.Registry.{ToolRegistry, register}
use ai_dev_project.Runner.Executor.{RunnerExecutor, Request, State, execute}
use ai_dev_project.Runner.Executor.Gates.{Admits}
use ai_dev_project.Runner.Executor.FileWrites.{world-execute_write_file}
use ai_dev_project.Examples.World.{platform}
use ai_dev_project.Examples.Tokens.{registry, token}
use ai_dev_project.Examples.Calls.{client, server}
use ai_dev_project.Examples.Tools.{Disk, workspace}

abbrev tools : ToolRegistry Disk
tools = ("write_file", write_file_tool platform workspace) ∷ []

test_register : register_file_tools platform workspace [] ≡ ok tools
unfolding register_file_tools register lookup put
test_register = refl

abbrev writer : RunnerExecutor Disk
writer = record {
  policy = evaluate platform client server;
  capabilities = registry;
  tools = tools;
  iter_errors = λ schema instance. [];
}

abbrev request : Request
request = record {
  run_id = "RUN-1";
  token = token;
  tool = "write_file";
  args = field "path" (str "src/a.py") (field "content" (str "x") end);
  scope = "workspace";
  created_at = "2026-01-01";
  decision_id = "PD-1";
  evidence_id = "EV-1";
  resource = "src/a.py";
  now = pos 5;
}

abbrev start_state : State Disk
start_state = record { store = []; world = [] }

world-execute_write_file_example :
    ((execute platform writer request start_state).1.world ≡ [])
    ⊎ (Admits platform writer request (write_file_tool platform workspace)
        × ((path content : String) × (target : List String) × (file_of platform request.args
              ≡ ok (path, content))
            × Confined workspace path [] target
            × ((execute platform writer request start_state).1.world
                ≡ (workspace.write_bytes target (utf8 content) []).1)))
unfolding lookup
world-execute_write_file_example =
    world-execute_write_file platform workspace writer request start_state refl
