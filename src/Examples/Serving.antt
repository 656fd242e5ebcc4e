-- ===== src/Examples/Serving.antt =====
-- The command `mcp` on a machine whose tools count their calls.
use ai_dev_project.Prelude.{
  ◌⊎◌, ℕ, ◌+◌, suc, String, ◌≡◌, ◌↔◌, refl, false, Option, none, some, List, [], ◌∷◌, length, ◌==◌,
  if◌then◌else◌,
}
use ai_dev_project.Prelude.Int.{pos}
use ai_dev_project.Python.{ok, raised, os_error}
use ai_dev_project.Json.{Value, str, obj, Fields, end, field}
use ai_dev_project.Platform.{Platform}
use ai_dev_project.Policy.Client.{Server}
use ai_dev_project.Tools.Artifacts.{dict_of}
use ai_dev_project.Tools.Github.{replied}
use ai_dev_project.Runner.Executor.{State}
use ai_dev_project.Mcp.Server.{Clock}
use ai_dev_project.Mcp.Stdio.{requests}
use ai_dev_project.Cli.{Console, err}
use ai_dev_project.Cli.Setup.{Machine, BridgeArgs, secret_of, actor_text, default_actor}
use ai_dev_project.Cli.Bridge.{cmd_mcp}
use ai_dev_project.Cli.Bridge.Answers.{cmd_mcp_iff}
use ai_dev_project.Cli.Bridge.Sessions.{Served, cmd_mcp-Settled}
use ai_dev_project.Examples.World.{platform}

abbrev reading : Platform
reading = record platform {
  loads = λ s. if s == default_actor then some (obj (field "type" (str "agent") end)) else none;
}

-- A machine with this value of SDLC_MCP_SECRET.
abbrev machine : Option String → Machine ℕ
machine secret = record {
  environ = λ name. if name == "SDLC_MCP_SECRET" then secret else none;
  fromhex = λ s. if s == "0a" then some (10 ∷ []) else none;
  urandom = 7 ∷ [];
  now = pos 600;
  uuid = "abc";
  files = λ dir. record {
    is_file = λ name n. false;
    read_text = λ name n. raised os_error;
    make_root = λ n. (ok tt, n);
    write_bytes = λ name raw n. (ok tt, suc n);
    has_root = λ n. false;
    stems = λ n. [];
  };
  workspace = λ root. record {
    root = root ∷ [];
    resolve = λ path n. ok (root ∷ path ∷ []);
    is_dir = λ path n. false;
    write_bytes = λ path raw n. (ok tt, suc n);
  };
  run = λ argv cwd n. (raised os_error, suc n);
  github = record {
    environ = λ name. none;
    urlencode = λ query. "query";
    send = λ q n. (replied [], suc n);
    run = λ argv n. (ok (record { returncode = pos 0; stdout = "" }), suc n);
  };
  is_digit = λ c. false;
  schemas = record { load_schema = λ name. raised os_error; iter_errors = λ schema v. [] };
  iter_errors = λ schema v. [];
}

abbrev server : Server
server url body = none

abbrev bridge_args : BridgeArgs
bridge_args = record { opa_url = "http://localhost:8181/"; artifacts_dir = "specs"; root = "." }

abbrev clock : Clock
clock = record { text = "2026-01-01T00:00:00Z"; seconds = pos 600 }

abbrev input : List (String × Clock)
input = ("not JSON", clock) ∷ ("  ", clock) ∷ []

abbrev console : Console (State ℕ)
console = record { lines = []; world = record { store = []; world = 0 } }

cmd_mcp_iff_example :
    (((cmd_mcp reading (machine none) server bridge_args input console).0 ≡ ok 0)
      × (length (cmd_mcp reading (machine none) server bridge_args input console).1.lines
          ≡ 0 + requests input))
    ↔ ((secret : List ℕ) × (secret_of reading (machine none) none ≡ some secret)
        × (v : Value) × (reading.loads (actor_text reading (machine none)) ≡ some v)
        × (actor : Fields) × (dict_of v ≡ ok actor))
cmd_mcp_iff_example = cmd_mcp_iff reading (machine none) input server bridge_args console

test_secret :
    cmd_mcp reading (machine (some "zz")) server bridge_args input console
    ≡ (ok 1, record console { lines = err "SDLC_MCP_SECRET must be hex-encoded" ∷ [] })
unfolding cmd_mcp secret_of
test_secret = refl

cmd_mcp-Settled_example :
    let t = (cmd_mcp reading (machine none) server bridge_args input console).1 in
    (t.world ≡ console.world)
    ⊎ Served reading (machine none) server bridge_args input console.world t.world
cmd_mcp-Settled_example = cmd_mcp-Settled reading (machine none) server bridge_args input console
