-- ===== src/Artifacts/Render/Documents.antt =====
-- artifacts/render.py: the idea, the specification and the threat model.
use ai_dev_project.Prelude.{String, List, [], ◌∷◌, ◌++◌}
use ai_dev_project.Prelude.Text.{◌<>◌, join}
use ai_dev_project.Python.{Result, ok, ◌>>=◌}
use ai_dev_project.Json.{Value, str, obj, Fields, get_or, item, need_obj}
use ai_dev_project.Platform.{Platform}
use ai_dev_project.Artifacts.Render.{
  item_at, iterate, each, need_text, tick, commas, row, shown, shown_at, shown_get, bullets, meta,
}

-- The rows of a table: `line` of each item of `instance[key]`.
abbrev pub table : (Value → Result String) → Fields → String → Result (List String)
table line instance key = item instance key >>= iterate >>= each line

module _ (P : Platform) where
  -- `_render_idea`
  unfoldable pub render_idea : Fields → Result String
  render_idea instance = do
    title ← shown_at P (obj instance) "title"
    about ← meta P instance
    problem ← item instance "problem"
    actor_goal ← item instance "actor_goal"
    source ← item instance "source" >>= need_obj
    problem_text ← need_text problem
    goal_text ← need_text actor_goal
    ok (
        join "\n" (
          ("# Idea: " <> title)
          ∷ ""
          ∷ about
          ∷ ""
          ∷ "## Problem"
          ∷ problem_text
          ∷ ""
          ∷ "## Actor & goal"
          ∷ goal_text
          ∷ ""
          ∷ ("Source: "
              <> (tick (shown_get P source "kind")
                  <> (" (trust tier: " <> (tick (shown_get P source "trust_tier") <> ")"))))
          ∷ []))

  unfoldable pub entity_line : Value → Result String
  entity_line e = do
    entity ← shown_at P e "entity"
    fields ← item_at e "fields" >>= commas
    ok (row (entity ∷ fields ∷ []))

  unfoldable pub operation_line : Value → Result String
  operation_line op = do
    operation_id ← shown_at P op "operation_id"
    kind ← shown_at P op "kind"
    summary ← shown_at P op "summary"
    ok (row (tick operation_id ∷ kind ∷ summary ∷ []))

  unfoldable pub transition_line : Value → Result String
  transition_line t = do
    from ← shown_at P t "from"
    to ← shown_at P t "to"
    actor ← shown_at P t "actor"
    ok (row (from ∷ to ∷ actor ∷ []))

  unfoldable pub criterion_line : Value → Result String
  criterion_line ac = do
    requirement_id ← shown_at P ac "requirement_id"
    criterion ← shown_at P ac "criterion"
    fields ← need_obj ac
    ok (
        row
          (tick requirement_id ∷ criterion ∷ shown P (get_or fields "verification" (str "")) ∷ []))

  -- `_render_specification`
  unfoldable pub render_specification : Fields → Result String
  render_specification instance = do
    id ← shown_at P (obj instance) "id"
    about ← meta P instance
    actor_goal ← item instance "actor_goal"
    actors ← item_at actor_goal "actors" >>= commas
    goal ← shown_at P actor_goal "goal"
    scope ← item instance "scope_boundary"
    in_scope ← item_at scope "in_scope" >>= bullets P
    out_of_scope ← item_at scope "out_of_scope" >>= bullets P
    data_model ← table entity_line instance "data_model"
    api_contract ← table operation_line instance "api_contract"
    state_lifecycle ← table transition_line instance "state_lifecycle"
    acceptance_criteria ← table criterion_line instance "acceptance_criteria"
    non_goals ← item instance "non_goals" >>= bullets P
    ok (
        join "\n" (
          (("# Specification: " <> id)
            ∷ ""
            ∷ about
            ∷ ""
            ∷ "## Actor & goal"
            ∷ ("- Actors: " <> actors)
            ∷ ("- Goal: " <> goal)
            ∷ ""
            ∷ "## Scope boundary"
            ∷ "**In scope**"
            ∷ in_scope)
          ++ ("" ∷ "**Out of scope**" ∷ out_of_scope)
          ++ ("" ∷ "## Data model" ∷ "| Entity | Fields |" ∷ "|---|---|" ∷ data_model)
          ++ ("" ∷ "## API contract" ∷ "| Operation | Kind | Summary |" ∷ "|---|---|---|"
              ∷ api_contract)
          ++ ("" ∷ "## State / lifecycle" ∷ "| From | To | Actor |" ∷ "|---|---|---|"
              ∷ state_lifecycle)
          ++ ("" ∷ "## Acceptance criteria" ∷ "| Requirement | Criterion | Verification |"
              ∷ "|---|---|---|" ∷ acceptance_criteria)
          ++ ("" ∷ "## Non-goals" ∷ non_goals)))

  unfoldable pub flow_line : Value → Result String
  flow_line f = do
    id ← shown_at P f "id"
    from ← shown_at P f "from"
    to ← shown_at P f "to"
    data_kinds ← item_at f "data" >>= commas
    crosses ← shown_at P f "crosses_trust_boundary"
    ok (row (id ∷ from ∷ to ∷ data_kinds ∷ crosses ∷ []))

  unfoldable pub risk_line : Value → Result String
  risk_line r = do
    id ← shown_at P r "id"
    category ← shown_at P r "category"
    severity ← shown_at P r "severity"
    scenario ← shown_at P r "scenario"
    control_id ← shown_at P r "control_id"
    verification_test ← shown_at P r "verification_test"
    ok (
        row (
          tick id
          ∷ category
          ∷ ("**" <> (severity <> "**"))
          ∷ scenario
          ∷ tick control_id
          ∷ verification_test
          ∷ []))

  -- `_render_threat_model`
  unfoldable pub render_threat_model : Fields → Result String
  render_threat_model instance = do
    id ← shown_at P (obj instance) "id"
    about ← meta P instance
    method ← shown_at P (obj instance) "method"
    data_flows ← table flow_line instance "data_flows"
    risks ← table risk_line instance "risks"
    ok (
        join "\n" (
          (("# Threat Model: " <> id)
            ∷ ""
            ∷ about
            ∷ ""
            ∷ ("Method: **" <> (method <> "**"))
            ∷ ""
            ∷ "## Data flows"
            ∷ "| ID | From | To | Data | Crosses trust boundary |"
            ∷ "|---|---|---|---|---|"
            ∷ data_flows)
          ++ ("" ∷ "## Risks (STRIDE)"
              ∷ "| ID | Category | Severity | Scenario | Control | Verification test |"
              ∷ "|---|---|---|---|---|---|" ∷ risks)))
