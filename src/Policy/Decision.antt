-- ===== src/Policy/Decision.antt =====
-- policy/decision.py
use ai_dev_project.Prelude.{String, ◌≡◌, some, arith, if◌then◌else◌}
use ai_dev_project.Json.{str, arr, obj, strs, Items, Fields, end, field, insert, get}
use ai_dev_project.Evidence.Record.{set_links}
use ai_dev_project.Policy.Client.{PolicyResult}

-- The keyword arguments of `build_policy_decision`.
pub record DecisionArgs : Type 0 where
  pub artifact_id : String
  pub created_at : String
  pub actor : Fields
  pub run_id : String
  pub point : String
  pub links : Items

unfoldable pub build_policy_decision : PolicyResult → DecisionArgs → Fields
build_policy_decision result a = set_links a.links (
    field "schema_version" (str "1.0.0") (
      field "artifact_type" (str "policy-decision") (
        field "id" (str a.artifact_id) (
          field "created_at" (str a.created_at) (
            field "actor" (obj a.actor) (
              field "run_id" (str a.run_id) (
                field "point" (str a.point) (
                  field "decision" (str (if result.allow then "allow" else "deny")) (
                    field "reason_codes" (arr (strs result.reason_codes)) (
                      field "policy_bundle_version" (str result.policy_bundle_version)
                        (field "input_digest" (str result.input_digest) end)))))))))))

module _ (result : PolicyResult) (a : DecisionArgs) where
  pub id-build_policy_decision :
      get (build_policy_decision result a) "id" ≡ some (str a.artifact_id)
  unfolding build_policy_decision insert get
  id-build_policy_decision = ground arith
