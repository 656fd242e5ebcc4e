-- ===== src/Mcp/Stdio.antt =====
-- `serve_stdio` of cli.py. A line comes with the clock at which it is read.
pub mod Sessions
use ai_dev_project.Prelude.{
  ℕ, suc, ◌≡◌, refl, ap, inl, inr, String, List, [], ◌∷◌, length, if◌then◌else◌, Bool-cases,
}
use ai_dev_project.Prelude.Text.{◌<>◌, strip, is_blank}
use ai_dev_project.Python.{ok, raised}
use ai_dev_project.Json.{null, obj}
use ai_dev_project.Platform.{Platform, plain}
use ai_dev_project.Mcp.Protocol.{error, internal_error}
use ai_dev_project.Mcp.Server.{McpServer, ServerState, Clock, handle_line}
use ai_dev_project.Mcp.Bootstrap.{inject_capability}
use ai_dev_project.Runner.Registry.{RunRegistry}
use ai_dev_project.Tools.Registry.{ToolRegistry}

-- How many lines are requests: those that are not blank.
abbrev pub requests : List (String × Clock) → ℕ
requests [] = 0
requests ((line, clock) ∷ lines) =
    let rest = requests lines in if is_blank (strip line) then rest else suc rest

module _ (P : Platform) {W : Type 0} (server : McpServer W) (capabilities : RunRegistry)
    (tools : ToolRegistry W) (run_id : String) where
  abbrev internal : String
  internal = P.dumps plain (obj (error null internal_error "internal error"))

  -- the `try` block with its handler, which catches every exception
  unfoldable pub answer : String → Clock → ServerState W → String × ServerState W
  answer stripped clock s =
      elim (inject_capability P capabilities tools run_id clock.seconds stripped) [
        | raised _ ↦ (internal, s)
        | ok bridged ↦
            let (r, s') = handle_line P server bridged clock s in
            (elim r [ raised _ ↦ internal | ok response ↦ response ], s')
      ]

  -- The lines that are written, and the state behind the last of them.
  unfoldable pub serve_stdio : List (String × Clock) → ServerState W → List String × ServerState W
  serve_stdio [] s = ([], s)
  serve_stdio ((line, clock) ∷ lines) s =
      let stripped = strip line in
      let (response, s') = answer stripped clock s in
      let (responses, s'') = serve_stdio lines s' in
      let skipped = serve_stdio lines s in
      if is_blank stripped then skipped else ((response <> "\n") ∷ responses, s'')

  -- The loop answers every line that is not blank with one line, whatever the request does.
  pub length-serve_stdio :
      (lines : List (String × Clock)) (s : ServerState W)
      → length (serve_stdio lines s).0 ≡ requests lines
  unfolding serve_stdio
  length-serve_stdio [] s = refl
  length-serve_stdio ((line, clock) ∷ lines) s = elim (Bool-cases (is_blank (strip line))) [
    | inl b ↦ rw b (length-serve_stdio lines s)
    | inr b ↦ rw b (ap suc (length-serve_stdio lines (answer (strip line) clock s).1))
  ]
