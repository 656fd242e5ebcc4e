-- ===== src/Cli/Trace.antt =====
-- cli.py: the command `trace`.
use ai_dev_project.Prelude.{ℕ, String, Bool, Option, none, some, map, if◌then◌else◌}
use ai_dev_project.Json.{Value, null, str, arr, obj, end, field, strs, to_items}
use ai_dev_project.Platform.{Platform}
use ai_dev_project.Tools.Effects.{Act, lift}
use ai_dev_project.Traceability.{TraceNode, Traceability, complete, format_report}
use ai_dev_project.Traceability.Loading.{trace_repository}
use ai_dev_project.Cli.{Console, Host, out, ◌>>=◌, ◌>>◌, exit, print, reads}

module _ (P : Platform) {W : Type 0} (h : Host W) where
  abbrev pub node_value : TraceNode → Value
  node_value node = obj (
      field "artifact_id" (str node.artifact_id) (
        field "artifact_type" (str node.artifact_type) (
          field "path" (str node.path)
            (field "feature_id" (elim node.feature_id [ none ↦ null | some v ↦ v ]) end))))

  -- `asdict(report)`
  abbrev pub report_value : Traceability → Value
  report_value r = obj (
      field "feature_id" (str r.feature_id) (
        field "nodes" (arr (to_items (map node_value r.nodes))) (
          field "ordered_types" (arr (strs r.ordered_types)) (
            field "missing_types" (arr (strs r.missing_types))
              (field "dangling" (arr (strs r.dangling)) end)))))

  -- `_cmd_trace`
  unfoldable pub cmd_trace : Option String → String → Bool → Act (Console W) ℕ
  cmd_trace repo_root feature as_json = do
    documents ← reads (h.documents repo_root)
    report ← lift (trace_repository P documents feature)
    print (out (if as_json then h.pretty (report_value report) else format_report report))
    exit (if complete report then 0 else 1)
