-- ===== src/Mcp/Bootstrap.antt =====
-- mcp/bootstrap.py
pub mod Given
pub mod Injection
use ai_dev_project.Prelude.{String, Bool, true, false, not, ◌&&◌, Option, none, some, if◌then◌else◌}
use ai_dev_project.Prelude.Int.{ℤ, pos}
use ai_dev_project.Python.{Result, ok, raised, ◌>>=◌}
use ai_dev_project.Json.{Value, str, obj, Fields, get, insert, set_default, is_text, as_obj}
use ai_dev_project.Platform.{Platform, plain}
use ai_dev_project.Tools.Registry.{ToolSpec, ToolRegistry, get_tool}
use ai_dev_project.Runner.Registry.{RunRegistry, issue, default_ttl_seconds}
use ai_dev_project.Mcp.Server.{filled, given_text}

abbrev is_filled : Fields → String → Bool
is_filled params key = elim (filled (get params key)) [ none ↦ false | some _ ↦ true ]

abbrev pub has_capability : Fields → Bool
has_capability params =
    is_filled params "run_id" && (is_filled params "token" && is_filled params "scope")

abbrev pub object_at : Fields → String → Option Fields
object_at d key = elim (get d key) [ none ↦ none | some v ↦ as_obj v ]

module _ (P : Platform) {W : Type 0} (capabilities : RunRegistry) (tools : ToolRegistry W)
    (run_id : String) (now : ℤ) where
  -- The three `setdefault` calls; the token is issued even where it is not used.
  unfoldable pub add_capability : ToolSpec W → String → Fields → Result Fields
  add_capability spec name params = do
    token ← issue P capabilities run_id name spec.scope (pos default_ttl_seconds) now
    ok (
        set_default "token" (str token)
          (set_default "scope" (str spec.scope) (set_default "run_id" (str run_id) params)))

  -- What `params` become; `none` where the line is passed on as it is.
  unfoldable pub inject_params : Fields → Result (Option Fields)
  inject_params params =
      if has_capability params then ok none else elim (given_text (get params "name")) [
        | none ↦ ok none
        | some name ↦ elim (get_tool name tools) [
          | raised _ ↦ ok none
          | ok spec ↦ do injected ← add_capability spec name params; ok (some injected)
        ]
      ]

  abbrev inject_message : Fields → Result (Option Fields)
  inject_message message =
      if not (is_text (get message "method") "tools/call")
      then ok none
      else elim (object_at message "params") [
        | none ↦ ok none
        | some params ↦ do
          injected ← inject_params params
          ok (elim injected [ none ↦ none | some p ↦ some (insert "params" (obj p) message) ])
      ]

  unfoldable pub inject_capability : String → Result String
  inject_capability line = elim (P.loads line) [
    | some (obj message) ↦ do
      injected ← inject_message message
      ok (elim injected [ none ↦ line | some m ↦ P.dumps plain (obj m) ])
    | _ ↦ ok line
  ]
