-- ===== src/Artifacts/Render/Plans.antt =====
-- artifacts/render.py: the plan and the task.
use ai_dev_project.Prelude.{String, [], ◌∷◌, ◌++◌, if◌then◌else◌}
use ai_dev_project.Prelude.Text.{◌<>◌, join}
use ai_dev_project.Python.{Result, ok, ◌>>=◌}
use ai_dev_project.Json.{Value, str, arr, obj, nil, Fields, get_or, item, truthy, need_obj}
use ai_dev_project.Platform.{Platform}
use ai_dev_project.Artifacts.Render.{
  item_at, tick, commas, ticked_commas, row, shown, shown_at, bullets, ticked_bullets, meta,
}
use ai_dev_project.Artifacts.Render.Documents.{table}

module _ (P : Platform) where
  unfoldable pub slice_line : Value → Result String
  slice_line s = do
    slice_id ← shown_at P s "slice_id"
    title ← shown_at P s "title"
    requirement_ids ← item_at s "requirement_ids" >>= ticked_commas
    control_ids ← item_at s "control_ids" >>= ticked_commas
    fields ← need_obj s
    depends_on ← commas (get_or fields "depends_on" (arr nil))
    ok (row (slice_id ∷ title ∷ requirement_ids ∷ control_ids ∷ depends_on ∷ []))

  unfoldable pub test_line : Value → Result String
  test_line t = do
    kind ← shown_at P t "kind"
    ref ← shown_at P t "ref"
    requirement_id ← shown_at P t "requirement_id"
    ok (row (kind ∷ tick ref ∷ tick requirement_id ∷ []))

  -- `_render_plan`
  unfoldable pub render_plan : Fields → Result String
  render_plan instance = do
    id ← shown_at P (obj instance) "id"
    about ← meta P instance
    slices ← table slice_line instance "slices"
    ok (
        join "\n" (
          ("# Implementation Plan: " <> id)
          ∷ ""
          ∷ about
          ∷ ""
          ∷ "## Slices"
          ∷ "| Slice | Title | Requirements | Controls | Depends on |"
          ∷ "|---|---|---|---|---|"
          ∷ slices))

  -- `_render_task`
  unfoldable pub render_task : Fields → Result String
  render_task instance = do
    title ← shown_at P (obj instance) "title"
    about ← meta P instance
    feature_id ← shown_at P (obj instance) "feature_id"
    plan_id ← shown_at P (obj instance) "plan_id"
    requirement_ids ← item instance "requirement_ids" >>= ticked_bullets P
    control_ids ← item instance "control_ids"
    controls ← if truthy control_ids then ticked_bullets P control_ids else ok []
    contract_changes ← item instance "contract_changes" >>= bullets P
    code_changes ← item instance "code_changes" >>= bullets P
    tests ← table test_line instance "tests"
    ok (
        join "\n" (
          (("# Task: " <> title)
            ∷ ""
            ∷ about
            ∷ ""
            ∷ ("- Feature: " <> tick feature_id)
            ∷ ("- Plan: " <> tick plan_id)
            ∷ ("- Branch: " <> tick (shown P (get_or instance "branch" (str "n/a"))))
            ∷ ""
            ∷ "## Requirements"
            ∷ requirement_ids)
          ++ ("" ∷ [])
          ++ (if truthy control_ids then ("## Controls" ∷ controls) ++ ("" ∷ []) else [])
          ++ ("## Contract changes" ∷ contract_changes)
          ++ ("" ∷ "## Code changes" ∷ code_changes)
          ++ ("" ∷ "## Tests" ∷ "| Kind | Ref | Requirement |" ∷ "|---|---|---|" ∷ tests)))
