-- ===== src/Runner/Executor/FileWrites.antt =====
-- An execution of the tool `write_file`: the gates of the executor and the confinement of the path.
use ai_dev_project.Prelude.{String, List, ◌≡◌, ◌⊎◌, ◌∙◌, sym, ap, some, inl, inr}
use ai_dev_project.Prelude.Dict.{lookup}
use ai_dev_project.Prelude.Text.{utf8}
use ai_dev_project.Python.{ok, Result-cases}
use ai_dev_project.Json.{Fields}
use ai_dev_project.Platform.{Platform}
use ai_dev_project.Tools.Registry.{ToolSpec}
use ai_dev_project.Tools.Workspace.{Workspace, Confined, world-write_file}
use ai_dev_project.Tools.Registration.{file_of, write_file_tool, write_file_handler}
use ai_dev_project.Runner.Executor.{RunnerExecutor, Request, State, execute}
use ai_dev_project.Runner.Executor.Gates.{Admits}
use ai_dev_project.Runner.Executor.Mediation.{world-execute}

some-eq {ℓ} : {A : Type ℓ} {a b : A} → some a ≡ some b → a ≡ b
some-eq h = cc

module _ (P : Platform) {W : Type 0} (ws : Workspace W) where
  world-write_file_handler :
      (args : Fields) (w : W)
      → ((write_file_handler P ws args w).1 ≡ w)
        ⊎ ((path content : String) × (target : List String) × (file_of P args ≡ ok (path, content))
            × Confined ws path w target
            × ((write_file_handler P ws args w).1 ≡ (ws.write_bytes target (utf8 content) w).1))
  unfolding write_file_handler
  world-write_file_handler args w = elim (Result-cases (file_of P args)) [
    | inr (e, q) ↦ inl (rw q)
    | inl ((path, content), q) ↦ elim (world-write_file ws P path content w) [
      | inl same ↦ inl (rw q same)
      | inr (target, c, e) ↦ inr (path, content, target, q, c, rw q e)
    ]
  ]

  -- Where the executor has the tool that writes files: an execution of it leaves the files alone, or it
  -- was admitted, its run known, the policy in favour, its token valid and its arguments of the declared
  -- form, and it writes the encoded content of the arguments at a target that their path resolves to in
  -- the root of the workspace.
  pub world-execute_write_file :
      (x : RunnerExecutor W) (q : Request) (s : State W)
      → lookup q.tool x.tools ≡ some (write_file_tool P ws)
      → ((execute P x q s).1.world ≡ s.world)
        ⊎ (Admits P x q (write_file_tool P ws)
            × ((path content : String) × (target : List String) × (file_of P q.args
                  ≡ ok (path, content))
                × Confined ws path s.world target
                × ((execute P x q s).1.world ≡ (ws.write_bytes target (utf8 content) s.world).1)))
  world-execute_write_file x q s found = elim (world-execute P x q s) [
    | inl same ↦ inl same
    | inr (spec, a, e) ↦
        let same : spec ≡ write_file_tool P ws = some-eq (sym a.registered ∙ found) in
        let step = ap (λ (t : ToolSpec W). (t.handler q.args s.world).1) same in
        elim (world-write_file_handler q.args s.world) [
          | inl kept ↦ inl (e ∙ (step ∙ kept))
          | inr (path, content, target, g, c, w) ↦
              inr (rw (sym same) a, (path, content, target, g, c, e ∙ (step ∙ w)))
        ]
  ]
