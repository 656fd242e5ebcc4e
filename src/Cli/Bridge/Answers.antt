-- ===== src/Cli/Bridge/Answers.antt =====
-- The command `mcp` serves until the end of its input.
use ai_dev_project.Prelude.{
  ℕ, ◌+◌, String, ◌≡◌, ◌∙◌, ap, refl, ◌↔◌, inl, inr, some, List, [], ◌∷◌, map, length,
  length-append, arith, Option-cases,
}
use ai_dev_project.Prelude.Dict.{lookup, put}
use ai_dev_project.Python.{Result, ok}
use ai_dev_project.Json.{Value, Fields}
use ai_dev_project.Platform.{Platform}
use ai_dev_project.Policy.Client.{Server}
use ai_dev_project.Tools.Effects.{lift, and_then-eq-ok}
use ai_dev_project.Tools.Registry.{ToolRegistry, register}
use ai_dev_project.Tools.Artifacts.{dict_of, register_artifact_tools}
use ai_dev_project.Tools.Registration.{register_file_tools, register_test_tools}
use ai_dev_project.Tools.Github.{register_vcs_tools}
use ai_dev_project.Runner.Registry.{RunRegistry}
use ai_dev_project.Runner.Executor.{State}
use ai_dev_project.Mcp.Server.{McpServer, Clock}
use ai_dev_project.Mcp.Stdio.{requests, length-serve_stdio}
use ai_dev_project.Cli.{Console, bare, ◌>>◌, exit}
use ai_dev_project.Cli.Setup.{
  register_vcs, Machine, BridgeArgs, given, secret_of, actor_text, bridge_tools,
}
use ai_dev_project.Cli.Bridge.{serve, run_bridge, cmd_mcp}

length-map : {A B : Type 0} (f : A → B) (xs : List A) → length (map f xs) ≡ length xs
length-map f [] = refl
length-map f (x ∷ xs) = ap ℕ.suc (length-map f xs)

module _ (P : Platform) {W : Type 0} (m : Machine W) where
  -- The names of the tools differ, so that none of the registrations raises.
  tools_register : (a : BridgeArgs) → (tools : ToolRegistry W) × (bridge_tools P m a ≡ ok tools)
  unfolding bridge_tools register_artifact_tools register_file_tools register_test_tools
      register_vcs_tools register lookup put
  tools_register a = elim (Option-cases (given (m.environ "SDLC_GITHUB_TOKEN"))) [
    | inl e ↦ rw (e, register_vcs) (_, refl)
    | inr (token, e) ↦ rw (e, register_vcs) (_, refl)
  ]

  module _ (input : List (String × Clock)) where
    -- The status is 0, and there is a line for each request.
    abbrev Serves : Console (State W) → Result ℕ × Console (State W) → Type 0
    Serves s t = (t.0 ≡ ok 0) × (length t.1.lines ≡ length s.lines + requests input)

    serve-Serves :
        (server : McpServer W) (capabilities : RunRegistry) (tools : ToolRegistry W)
        (run_id : String) (s : Console (State W))
        → Serves s ((serve P m server capabilities tools run_id input >> exit 0) s)
    unfolding serve
    serve-Serves server capabilities tools run_id s = (
      refl,
      length-append s.lines _
          ∙ ap (λ n. length s.lines + n)
              (length-map bare _ ∙ length-serve_stdio P server capabilities tools run_id input _),
    )

    module _ (server : Server) (a : BridgeArgs) where
      run_bridge-Serves :
          (secret : List ℕ) (v : Value) (actor : Fields) (s : Console (State W))
          → dict_of v ≡ ok actor
          → Serves s (run_bridge P m server a input secret v s)
      unfolding run_bridge
      run_bridge-Serves secret v actor s d =
          let (tools, t) = tools_register a in rw (d, run_bridge) (rw t (serve-Serves _ _ _ _ s))

      run_actor :
          (secret : List ℕ) (v : Value) (s : Console (State W))
          → (run_bridge P m server a input secret v s).0 ≡ ok 0
          → (actor : Fields) × (dict_of v ≡ ok actor)
      unfolding run_bridge
      run_actor secret v s e =
          let (actor, d, _, _) = and_then-eq-ok (lift (dict_of v)) _ s e in (actor, d)

      -- `mcp` ends with the status 0, after a line for every request in its input, exactly if the secret in
      -- the environment is hexadecimal, where there is one, and the actor, of the environment or the default
      -- one, is JSON that `dict` takes.
      pub cmd_mcp_iff :
          (s : Console (State W))
          → Serves s (cmd_mcp P m server a input s) ↔ (
              (secret : List ℕ) × (secret_of P m (m.environ "SDLC_MCP_SECRET") ≡ some secret)
              × (v : Value) × (P.loads (actor_text P m) ≡ some v)
              × (actor : Fields) × (dict_of v ≡ ok actor))
      unfolding cmd_mcp
      cmd_mcp_iff s = (
        λ (e, _). elim (Option-cases (secret_of P m (m.environ "SDLC_MCP_SECRET"))) [
          | inl n ↦ ground (arith, rw (n, cmd_mcp) at e)
          | inr (secret, q) ↦ elim (Option-cases (P.loads (actor_text P m))) [
            | inl n ↦ ground (arith, rw n at (rw (q, cmd_mcp) at e))
            | inr (v, l) ↦
                let (actor, d) = run_actor secret v s (rw l at (rw (q, cmd_mcp) at e)) in
                (secret, q, v, l, actor, d)
          ]
        ],
        λ (secret, q, v, l, actor, d).
            rw (q, cmd_mcp) (rw l (run_bridge-Serves secret v actor s d)),
      )
