-- ===== src/Cli/Validate.antt =====
-- cli.py: the command `validate`.
use ai_dev_project.Prelude.{
  ℕ, suc, String, Bool, true, false, List, [], ◌∷◌, is_empty, if◌then◌else◌, eqb,
}
use ai_dev_project.Prelude.Text.{◌<>◌}
use ai_dev_project.Python.{ok}
use ai_dev_project.Platform.{Platform}
use ai_dev_project.Tools.Effects.{Act, lift}
use ai_dev_project.Artifacts.{Schemas, validate_file}
use ai_dev_project.Cli.{
  Console, Host, out, ◌>>=◌, ◌>>◌, exit, print, looks, reads, skip, report_invalid,
}

module _ (P : Platform) {W : Type 0} (h : Host W) where
  -- The part of the loop of `_cmd_validate` for a path that is a file.
  unfoldable pub check_file : Schemas → String → Act (Console W) Bool
  check_file schemas raw = do
    text ← reads (h.read_text raw)
    errors ← lift (validate_file P schemas (h.path_text raw) text)
    if is_empty errors
        then (do print (out ("OK      " <> h.path_text raw)); lift (ok false))
        else (do report_invalid h raw errors; lift (ok true))

  -- The body of the loop of `_cmd_validate`: whether the path counts as a failure.
  unfoldable pub check_path : Schemas → String → Act (Console W) Bool
  check_path schemas raw = do
    found ← looks (h.is_file raw)
    if found then check_file schemas raw else (do skip h raw; lift (ok true))

  unfoldable pub check_paths : Schemas → ℕ → List String → Act (Console W) ℕ
  check_paths schemas failures [] = exit (if eqb failures 0 then 0 else 1)
  check_paths schemas failures (raw ∷ rest) = do
    failed ← check_path schemas raw
    check_paths schemas (if failed then suc failures else failures) rest

  -- `_cmd_validate`
  unfoldable pub cmd_validate : List String → Act (Console W) ℕ
  cmd_validate paths = do schemas ← lift h.repository; check_paths schemas 0 paths
