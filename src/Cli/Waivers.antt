-- ===== src/Cli/Waivers.antt =====
-- cli.py: the command `waiver`.
use ai_dev_project.Prelude.{ℕ, String, Option, is_empty, if◌then◌else◌}
use ai_dev_project.Prelude.Text.{◌<>◌}
use ai_dev_project.Python.{Result, ok, raised, attribute_error}
use ai_dev_project.Json.{Value, obj, Fields}
use ai_dev_project.Platform.{Platform}
use ai_dev_project.Tools.Effects.{Act, lift}
use ai_dev_project.Artifacts.{validate_artifact}
use ai_dev_project.Waiver.Enforcement.{WaiverCheck, check_waiver}
use ai_dev_project.Cli.{
  Console, Host, out, err, ◌>>=◌, ◌>>◌, exit, print, print_items, looks, reads, skip,
  report_invalid, read_json, moment_of,
}

module _ (P : Platform) {W : Type 0} (h : Host W) where
  -- The check of a waiver needs a dict: any other value has no method `get`.
  abbrev pub need_dict : Value → Result Fields
  need_dict (obj d) = ok d
  need_dict _ = raised attribute_error

  abbrev pub report_waiver : String → WaiverCheck → Act (Console W) ℕ
  report_waiver raw check =
      if check.valid
      then (do print (out ("OK      " <> (h.path_text raw <> " (active)"))); exit 0)
      else do
        print (err ("BLOCKED " <> (h.path_text raw <> (" state=" <> check.state))))
        print_items check.reason_codes
        exit 1

  -- The part of `_cmd_waiver` for a document that fits its schema.
  unfoldable pub judge_waiver : String → Option String → Fields → Act (Console W) ℕ
  judge_waiver raw now instance = do
    moment ← lift (moment_of P h now)
    check ← lift (check_waiver P instance moment)
    report_waiver raw check

  -- The part of `_cmd_waiver` for a path that is a file.
  unfoldable pub check_waiver_file : String → Option String → Act (Console W) ℕ
  check_waiver_file raw now = do
    value ← reads (read_json P h raw)
    schemas ← lift h.repository
    instance ← lift (need_dict value)
    errors ← lift (validate_artifact schemas instance)
    if is_empty errors
        then judge_waiver raw now instance
        else (do report_invalid h raw errors; exit 1)

  -- `_cmd_waiver`
  unfoldable pub cmd_waiver : String → Option String → Act (Console W) ℕ
  cmd_waiver raw now = do
    found ← looks (h.is_file raw)
    if found then check_waiver_file raw now else (do skip h raw; exit 1)
