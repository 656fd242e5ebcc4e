-- ===== src/Cli/Render.antt =====
-- cli.py: the command `render`.
use ai_dev_project.Prelude.{
  ℕ, String, Bool, true, false, not, ◌&&◌, Option, none, some, ◌==◌, if◌then◌else◌,
}
use ai_dev_project.Prelude.Text.{◌<>◌, is_blank, has_part}
use ai_dev_project.Python.{Result, raised, type_error, attribute_error}
use ai_dev_project.Json.{Value, str, arr, obj, Items, nil, cons}
use ai_dev_project.Platform.{Platform}
use ai_dev_project.Tools.Effects.{Act, lift}
use ai_dev_project.Artifacts.Render.Dispatch.{render_artifact}
use ai_dev_project.Cli.{Console, Host, out, bare, ◌>>=◌, ◌>>◌, exit, print, reads, acts, read_json}

-- `key in v`, for a list `v`
abbrev has_item : Items → String → Bool
has_item nil key = false
has_item (cons (str s) vs) key = if s == key then true else has_item vs key
has_item (cons _ vs) key = has_item vs key

-- `key in v`, `v["baseline_id"]` and `v.get` on a value that is not a dict: a list or a text may have the
-- key as an item or as a part, but has no item of that name and no method `get`.
unfoldable pub render_value : Platform → Value → String → Result String
unfolding has_part
render_value P (obj instance) source = render_artifact P instance source
render_value P (arr vs) source = raised (
    if not (has_item vs "artifact_type") && has_item vs "baseline_id"
    then type_error
    else attribute_error)
render_value P (str s) source = raised (
    if not (has_part s "artifact_type") && has_part s "baseline_id"
    then type_error
    else attribute_error)
render_value P _ source = raised type_error

module _ (P : Platform) {W : Type 0} (h : Host W) where
  abbrev pub deliver : Option String → String → Act (Console W) ℕ
  deliver none markdown = do print (bare markdown); exit 0
  deliver (some output) markdown =
      if is_blank output
      then (do print (bare markdown); exit 0)
      else (do acts (h.write_text output markdown); print (out ("wrote " <> output)); exit 0)

  -- `_cmd_render`
  unfoldable pub cmd_render : String → Option String → Act (Console W) ℕ
  cmd_render raw output = do
    instance ← reads (read_json P h raw)
    markdown ← lift (render_value P instance (h.path_name raw))
    deliver output markdown
