-- ===== src/Examples/Reviews.antt =====
-- A security review of a threat model with two risks.
use ai_dev_project.Prelude.{◌≡◌, ◌↔◌, refl, some}
use ai_dev_project.Python.{ok, raised}
use ai_dev_project.Json.{str, arr, obj, Items, nil, cons, Fields, end, field, get, insert, to_text}
use ai_dev_project.Pipeline.{
  ReviewArgs, risks_of, dispositions, disposition_of, build_security_review,
}
use ai_dev_project.Pipeline.Verdict.{AllSettled, build_security_review-approved_iff}
use ai_dev_project.Examples.World.{platform}
use ai_dev_project.Examples.Tokens.{human}

abbrev pub args : ReviewArgs
args = record {
  feature_id = "FEAT-1";
  artifact_id = "SECREV-0001";
  created_at = "2026-01-01";
  actor = human;
  run_id = "RUN-1";
  threat_model_href = "specs/TM-0001.json";
}

abbrev pub threat_model : Fields
threat_model = field "id" (str "TM-0001") (
    field "risks"
      (arr (
        cons
          (obj (
            field "id" (str "RISK-1")
              (field "severity" (str "high") (field "verification_test" (str "test_a") end))))
          (cons (obj (field "id" (str "RISK-2") (field "severity" (str "medium") end))) nil)))
      end)

abbrev refused : Fields
refused = elim (build_security_review platform args threat_model) [ raised _ ↦ end | ok d ↦ d ]

test_review : build_security_review platform args threat_model ≡ ok refused
unfolding build_security_review risks_of dispositions disposition_of get to_text insert
test_review = refl

test_verdict : get refused "verdict" ≡ some (str "changes_requested")
unfolding build_security_review risks_of dispositions disposition_of get to_text insert
test_verdict = refl

build_security_review-approved_iff_example :
    (get refused "verdict" ≡ some (str "approved"))
    ↔ ((risks : Items) × (risks_of platform threat_model ≡ ok risks) × AllSettled platform risks)
build_security_review-approved_iff_example =
    build_security_review-approved_iff platform args threat_model refused test_review
