-- ===== src/Examples/Rendering.antt =====
-- The documents of the control plane as Markdown.
use ai_dev_project.Prelude.{◌≡◌, ◌↔◌, refl, false, none, [], ◌∷◌, Each}
use ai_dev_project.Prelude.Text.{join}
use ai_dev_project.Prelude.Dict.{lookup}
use ai_dev_project.Python.{ok, ◌>>=◌}
use ai_dev_project.Json.{
  str, obj, Items, nil, cons, end, field, get, insert, item, to_text, to_list,
}
use ai_dev_project.Trust.{trusted}
use ai_dev_project.Evidence.Record.{RecordArgs, build_evidence_record}
use ai_dev_project.Policy.Client.{PolicyResult}
use ai_dev_project.Policy.Decision.{DecisionArgs, build_policy_decision}
use ai_dev_project.Artifacts.Render.{each, meta, link_line, links_section, approval_section}
use ai_dev_project.Artifacts.Render.Records.{render_evidence_record}
use ai_dev_project.Artifacts.Render.Dispatch.{render_artifact}
use ai_dev_project.Artifacts.Render.Totality.{Returns, Readable}
use ai_dev_project.Pipeline.{build_security_review}
use ai_dev_project.Artifacts.Render.Stored.{render_artifact_iff}
use ai_dev_project.Examples.World.{platform}
use ai_dev_project.Examples.Reviews.{args, threat_model}

abbrev links : Items
links = cons (obj (field "rel" (str "subject") (field "href" (str "specs/PLAN-1.json") end))) nil

abbrev record_args : RecordArgs
record_args = record {
  artifact_id = "EV-1";
  created_at = "2026-01-01";
  actor = end;
  run_id = "RUN-1";
  action = "tool.count";
  trust_tier = trusted;
  sensitivity = "none";
  artifact_digest = none;
  artifact_ref = none;
  policy_decision_ref = none;
  compression = none;
  links = links;
}

abbrev decision_args : DecisionArgs
decision_args = record {
  artifact_id = "PD-1";
  created_at = "2026-01-01";
  actor = end;
  run_id = "RUN-1";
  point = "pre_tool_call";
  links = nil;
}

abbrev denied : PolicyResult
denied = record {
  allow = false;
  reason_codes = "A" ∷ "B" ∷ [];
  policy_bundle_version = "1";
  input_digest = "d";
}

test_record :
    render_artifact platform (build_evidence_record record_args) "EV-1.json"
    ≡ ok (
        join "\n" (
          "<!-- GENERATED FILE. DO NOT EDIT. Source of truth: EV-1.json. Regenerate with `sdlc render`. -->"
          ∷ "" ∷ "# Evidence Record: EV-1" ∷ "" ∷ "| Поле | Значение |" ∷ "|---|---|"
          ∷ "| Artifact | `evidence-record` |" ∷ "| ID | `EV-1` |" ∷ "| Schema | `1.0.0` |"
          ∷ "| Created at | 2026-01-01 |" ∷ "| Run ID | `RUN-1` |" ∷ "" ∷ "- Action: tool.count"
          ∷ "- Trust tier: `trusted`" ∷ "- Sensitivity: `none`" ∷ "" ∷ "## Links" ∷ ""
          ∷ "| Relation | Reference |" ∷ "|---|---|" ∷ "| subject | `specs/PLAN-1.json` |" ∷ ""
          ∷ []))
unfolding render_artifact build_evidence_record insert get lookup item to_text meta each link_line
    links_section approval_section render_evidence_record join
test_record = refl

render_artifact_iff_example :
    (Returns (render_artifact platform (build_evidence_record record_args) "EV-1.json")
      ↔ Each Readable (to_list record_args.links))
    × (Returns (render_artifact platform (build_policy_decision denied decision_args) "EV-1.json")
        ↔ Each Readable (to_list decision_args.links))
    × (Returns (
          build_security_review platform args threat_model >>= λ review.
          render_artifact platform review "EV-1.json")
        ↔ Returns (build_security_review platform args threat_model))
render_artifact_iff_example =
    render_artifact_iff platform record_args denied decision_args args threat_model "EV-1.json"
