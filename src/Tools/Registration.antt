-- ===== src/Tools/Registration.antt =====
-- `register_file_tools` of tools/builtin.py and `register_test_tools` of tools/commands.py.
use ai_dev_project.Prelude.{String, [], ◌∷◌}
use ai_dev_project.Prelude.Int.{pos}
use ai_dev_project.Python.{Result, ok, ◌>>=◌}
use ai_dev_project.Json.{str, int, obj, Fields, end, field, item, to_text}
use ai_dev_project.Platform.{Platform}
use ai_dev_project.Tools.Schema.{of_type, object_schema, closed}
use ai_dev_project.Tools.Registry.{ToolSpec, ToolRegistry, register}
use ai_dev_project.Tools.Effects.{Act, and_then, lift}
use ai_dev_project.Tools.Workspace.{Workspace, write_file}
use ai_dev_project.Tools.Commands.{CommandRunner, run_handler}

abbrev pub file_write_schema : Fields
file_write_schema =
    object_schema ("path" ∷ "content" ∷ [])
      (field "path" (of_type "string") (field "content" (of_type "string") end)) closed

abbrev pub file_write_result : Fields
file_write_result =
    object_schema ("path" ∷ "digest" ∷ "bytes" ∷ [])
      (field "path" (of_type "string")
        (field "digest" (of_type "string") (field "bytes" (of_type "integer") end)))
      end

abbrev pub run_schema : Fields
run_schema =
    object_schema ("argv" ∷ [])
      (field "argv"
        (obj (
          field "type" (str "array")
            (field "items" (of_type "string") (field "minItems" (int (pos 1)) end))))
        (field "cwd" (of_type "string") end))
      closed

abbrev pub run_result : Fields
run_result =
    object_schema ("exit_code" ∷ "stdout" ∷ "stderr" ∷ "truncated" ∷ [])
      (field "exit_code" (of_type "integer") (
        field "stdout" (of_type "string")
          (field "stderr" (of_type "string") (field "truncated" (of_type "boolean") end))))
      end

abbrev pub file_of : Platform → Fields → Result (String × String)
file_of P args = do
  path ← item args "path"
  content ← item args "content"
  ok (to_text P.repr path, to_text P.repr content)

module _ (P : Platform) {W : Type 0} where
  -- `_write_file_handler`
  unfoldable pub write_file_handler : Workspace W → Fields → Act W Fields
  write_file_handler ws args =
      and_then (lift (file_of P args)) λ file. write_file ws P file.0 file.1

  abbrev pub write_file_tool : Workspace W → ToolSpec W
  write_file_tool ws = record {
    name = "write_file";
    scope = "workspace";
    description = "Write a UTF-8 text file confined to the workspace root";
    args_schema = file_write_schema;
    result_schema = file_write_result;
    handler = write_file_handler ws;
  }

  abbrev pub run_tests_tool : CommandRunner W → ToolSpec W
  run_tests_tool runner = record {
    name = "run_tests";
    scope = "workspace";
    description = "Run an allowlisted repository check (pytest/ruff/mypy/opa) via explicit argv";
    args_schema = run_schema;
    result_schema = run_result;
    handler = run_handler runner P;
  }

  unfoldable pub register_file_tools : Workspace W → ToolRegistry W → Result (ToolRegistry W)
  register_file_tools ws = register (write_file_tool ws)

  unfoldable pub register_test_tools : CommandRunner W → ToolRegistry W → Result (ToolRegistry W)
  register_test_tools runner = register (run_tests_tool runner)
