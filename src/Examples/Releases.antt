-- ===== src/Examples/Releases.antt =====
-- The verification of a release, and the tracing of a feature.
use ai_dev_project.Prelude.{
  String, ◌≡◌, ◌↔◌, refl, true, false, some, List, [], ◌∷◌, contains, if◌then◌else◌,
}
use ai_dev_project.Prelude.Dict.{Dict}
use ai_dev_project.Prelude.Sort.{sort}
use ai_dev_project.Prelude.Text.{utf8, drop_chars}
use ai_dev_project.Python.{ok, raised}
use ai_dev_project.Json.{Value, str, arr, obj, nil, cons, Fields, end, field, get, item, to_text}
use ai_dev_project.Artifacts.{Schemas, validate_document}
use ai_dev_project.Tools.Registry.{validate_instance}
use ai_dev_project.Policy.Client.{PolicyResult, evaluate, parse_reply}
use ai_dev_project.Policy.Points.{
  DeploymentArgs, deployment_point, build_deployment_input, evaluate_deployment,
}
use ai_dev_project.Deploy.Candidate.{candidate_schema, validate_candidate, sha256_digest}
use ai_dev_project.Deploy.Bundle.{build_evidence_bundle, collect_items}
use ai_dev_project.Deploy.Verify.{
  ReleaseVerification, VerifyArgs, deployment_input, verify_release, verify_release_lem,
}
use ai_dev_project.Traceability.{
  Index, all_targets, local_link_targets, initial, of_feature, fuel_of, search,
}
use ai_dev_project.Traceability.Reach.{Reach, search-Reach_iff}
use ai_dev_project.Examples.World.{platform}
use ai_dev_project.Examples.Tokens.{human}
use ai_dev_project.Examples.Calls.{client, server}

abbrev schemas : Schemas
schemas = record { load_schema = λ name. ok end; iter_errors = λ schema instance. [] }

abbrev pub candidate : Fields
candidate = field "image" (str "registry/app") (
    field "signature" (obj human) (
      field "sbom" (obj end) (
        field "provenance" (obj end) (
          field "policy_decisions" (arr (cons (obj human) nil)) (
            field "required_approver_role" (str "release-manager")
              (field "approvals" (arr nil) end))))))

abbrev args : VerifyArgs
args = record {
  bundle_id = "EB-1";
  decision_id = "PD-1";
  created_at = "2026-01-01";
  actor = human;
  run_id = "RUN-1";
}

abbrev nothing : ReleaseVerification
nothing = record { allow = false; reason_codes = []; decision = end; bundle = end }

abbrev verified : ReleaseVerification
verified = elim (verify_release platform schemas client server candidate args) [
  | raised _ ↦ nothing
  | ok v ↦ v
]

test_verify : verify_release platform schemas client server candidate args ≡ ok verified
unfolding verify_release validate_candidate validate_document validate_instance sort
    build_evidence_bundle collect_items get deployment_input item evaluate_deployment evaluate
    parse_reply utf8
test_verify = refl

verify_release_lem_example :
    (input : DeploymentArgs) × (result : PolicyResult) × (validate_document schemas candidate
        candidate_schema
      ≡ ok [])
    × (deployment_input candidate ≡ ok input)
    × (evaluate platform client server deployment_point (build_deployment_input input) ≡ ok result)
    × (verified.allow ≡ result.allow)
    × (verified.reason_codes ≡ result.reason_codes)
    × (get verified.decision "decision" ≡ some (str (if verified.allow then "allow" else "deny")))
    × (get verified.decision "input_digest" ≡ some (str result.input_digest))
    × (get verified.bundle "candidate_digest" ≡ some (str (sha256_digest platform candidate)))
    × (get verified.bundle "policy_decision_ref" ≡ get verified.decision "id")
verify_release_lem_example =
    verify_release_lem platform schemas client server candidate args verified test_verify

abbrev link : String → Value
link href = arr (cons (obj (field "rel" (str "plan") (field "href" (str href) end))) nil)

-- A review links to the task, the task to a plan that does not exist.
abbrev index : Index
index =
    ("task.json", field "feature_id" (str "FEAT-1") (field "links" (link "plan.json") end))
    ∷ ("review.json", field "links" (link "task.json") end)
    ∷ []

abbrev targets : Dict (List String)
targets = ("task.json", "plan.json" ∷ []) ∷ ("review.json", "task.json" ∷ []) ∷ []

test_targets : all_targets platform index ≡ ok targets
unfolding all_targets local_link_targets get to_text drop_chars
test_targets = refl

search-Reach_iff_example :
    ((search targets (fuel_of index (initial index "FEAT-1")) (initial index "FEAT-1")).frontier
      ≡ [])
    × ((path : String)
        → (contains
              (search targets
                (fuel_of index (initial index "FEAT-1"))
                (initial index "FEAT-1")).selected
              path
            ≡ true)
          ↔ Reach targets (of_feature index "FEAT-1") path)
search-Reach_iff_example = search-Reach_iff platform index "FEAT-1" targets test_targets
