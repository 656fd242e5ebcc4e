-- ===== src/Cli/Bridge/Sessions.antt =====
-- What the command `mcp` does to the evidence store and to the world of the tools.
use ai_dev_project.Prelude.{ℕ, String, ◌≡◌, ◌⊎◌, refl, inl, inr, some, List, [], Option-cases}
use ai_dev_project.Python.{Result, ok, Result-cases}
use ai_dev_project.Json.{Value, Fields}
use ai_dev_project.Platform.{Platform}
use ai_dev_project.Policy.Client.{Server}
use ai_dev_project.Evidence.Recovery.{IsAddressed}
use ai_dev_project.Tools.Registry.{ToolRegistry}
use ai_dev_project.Tools.Artifacts.{dict_of}
use ai_dev_project.Runner.Registry.{RunRegistry, start}
use ai_dev_project.Runner.Executor.{State}
use ai_dev_project.Runner.Executor.Session.{Session, begun, Session-IsAddressed}
use ai_dev_project.Mcp.Server.{Clock}
use ai_dev_project.Mcp.Stdio.Sessions.{serve_stdio-Session}
use ai_dev_project.Cli.{Console}
use ai_dev_project.Cli.Setup.{
  Machine, BridgeArgs, secret_of, actor_text, bridge_tools, bridge_executor,
}
use ai_dev_project.Cli.Bridge.{serve, run_bridge, cmd_mcp}

module _ (P : Platform) {W : Type 0} (m : Machine W) (server : Server) (a : BridgeArgs)
    (input : List (String × Clock)) where
  -- A registry whose one run is that of the bridge.
  abbrev pub one_run : List ℕ → Fields → RunRegistry
  one_run secret actor =
      (start (record { secret = secret; runs = [] }) actor (m.environ "SDLC_RUN_ID") m.uuid m.now).1

  -- A session of executions with the tools of the bridge, under its policy server and for its one run.
  pub record Served (s t : State W) : Type 0 where
    pub tools : ToolRegistry W
    pub registered : bridge_tools P m a ≡ ok tools
    pub secret : List ℕ
    pub signed : secret_of P m (m.environ "SDLC_MCP_SECRET") ≡ some secret
    pub actor_json : Value
    pub given_actor : P.loads (actor_text P m) ≡ some actor_json
    pub actor : Fields
    pub is_dict : dict_of actor_json ≡ ok actor
    pub session : Session P (bridge_executor P m server a (one_run secret actor) tools) s t

  abbrev Settled : Console (State W) → Result ℕ × Console (State W) → Type 0
  Settled s t = (t.1.world ≡ s.world) ⊎ Served s.world t.1.world

  run_bridge-Settled :
      (secret : List ℕ) (v : Value) (s : Console (State W))
      → secret_of P m (m.environ "SDLC_MCP_SECRET") ≡ some secret
      → P.loads (actor_text P m) ≡ some v
      → Settled s (run_bridge P m server a input secret v s)
  unfolding run_bridge serve
  run_bridge-Settled secret v s signed read = elim (Result-cases (dict_of v)) [
    | inr (fault, d) ↦ inl (rw (d, run_bridge) refl)
    | inl (actor, d) ↦ elim (Result-cases (bridge_tools P m a)) [
      | inr (fault, t) ↦ inl (rw (d, run_bridge) (rw t refl))
      | inl (tools, t) ↦ inr (record {
        tools = tools;
        registered = t;
        secret = secret;
        signed = signed;
        actor_json = v;
        given_actor = read;
        actor = actor;
        is_dict = d;
        session = rw (d, run_bridge) (rw t (serve_stdio-Session P _ _ _ _ input s.world _ begun));
      })
    ]
  ]

  settled_lem : (s : Console (State W)) → Settled s (cmd_mcp P m server a input s)
  unfolding cmd_mcp
  settled_lem s = elim (Option-cases (secret_of P m (m.environ "SDLC_MCP_SECRET"))) [
    | inl e ↦ inl (rw (e, cmd_mcp) refl)
    | inr (secret, e) ↦ elim (Option-cases (P.loads (actor_text P m))) [
      | inl l ↦ inl (rw (e, cmd_mcp) (rw l refl))
      | inr (v, l) ↦ rw (e, cmd_mcp) (rw l (run_bridge-Settled secret v s e l))
    ]
  ]

  -- Whatever its input is, `mcp` leaves the evidence store and the world of the tools as they are or does to
  -- them what a sequence of executions does under its policy server, with the tools that it registered and a
  -- registry whose one run is its own, of the actor that it reads from the environment or takes by default.
  pub cmd_mcp-Settled :
      (s : Console (State W))
      → let t = (cmd_mcp P m server a input s).1 in (t.world ≡ s.world) ⊎ Served s.world t.world
  cmd_mcp-Settled s = settled_lem s

  -- If every entry of the store stood under the digest of its bytes, then every entry does so after it.
  pub cmd_mcp-IsAddressed :
      (s : Console (State W))
      → IsAddressed P s.world.store
      → IsAddressed P (cmd_mcp P m server a input s).1.world.store
  cmd_mcp-IsAddressed s inv = elim (settled_lem s) [
    | inl e ↦ rw e inv
    | inr served ↦ Session-IsAddressed P _ served.session inv
  ]
