-- ===== src/Policy/Points.antt =====
-- policy/artifact_transition.py and policy/pre_deployment.py
use ai_dev_project.Prelude.{String, Option, none, some}
use ai_dev_project.Json.{Value, str, arr, obj, Items, nil, cons, Fields, end, field, insert}
use ai_dev_project.Platform.{Platform}
use ai_dev_project.Python.{Result}
use ai_dev_project.Policy.Client.{PolicyClient, PolicyResult, Server, evaluate}
use ai_dev_project.Policy.Decision.{DecisionArgs, build_policy_decision}

abbrev pub transition_point : String
transition_point = "artifact-transition"

abbrev pub deployment_point : String
deployment_point = "pre-deployment"

-- The keyword arguments of `build_transition_input`.
pub record TransitionArgs : Type 0 where
  pub artifact_type : String
  pub from_status : String
  pub to_status : String
  pub actor : Fields
  pub now : Option String
  pub findings : Items
  pub waivers : Items

abbrev set_now : Option String → Fields → Fields
set_now none d = d
set_now (some now) d = insert "now" (str now) d

-- `if items: payload[key] = items`
abbrev set_items : String → Items → Fields → Fields
set_items key nil d = d
set_items key (cons v vs) d = insert key (arr (cons v vs)) d

unfoldable pub build_transition_input : TransitionArgs → Fields
build_transition_input a =
    let payload : Fields = field "artifact_type" (str a.artifact_type) (
      field "from_status" (str a.from_status)
        (field "to_status" (str a.to_status) (field "actor" (obj a.actor) end))) in
    set_items "waivers" a.waivers (set_items "findings" a.findings (set_now a.now payload))

-- The keyword arguments of `build_deployment_input`.
pub record DeploymentArgs : Type 0 where
  pub image : Value
  pub signature : Value
  pub sbom : Value
  pub provenance : Value
  pub policy_decisions : Value
  pub required_approver_role : Value
  pub approvals : Value

unfoldable pub build_deployment_input : DeploymentArgs → Fields
build_deployment_input a = field "image" a.image (
    field "signature" a.signature (
      field "sbom" a.sbom (
        field "provenance" a.provenance (
          field "policy_decisions" a.policy_decisions (
            field "required_approver_role" a.required_approver_role
              (field "approvals" a.approvals end))))))

module _ (P : Platform) (client : PolicyClient) (server : Server) where
  unfoldable pub evaluate_transition : TransitionArgs → Result PolicyResult
  evaluate_transition a = evaluate P client server transition_point (build_transition_input a)

  unfoldable pub evaluate_deployment : DeploymentArgs → Result PolicyResult
  evaluate_deployment a = evaluate P client server deployment_point (build_deployment_input a)

-- `build_transition_decision` and `build_deployment_decision` fix the point.
unfoldable pub build_transition_decision : PolicyResult → DecisionArgs → Fields
build_transition_decision result a =
    build_policy_decision result (record a { point = transition_point })

unfoldable pub build_deployment_decision : PolicyResult → DecisionArgs → Fields
build_deployment_decision result a =
    build_policy_decision result (record a { point = deployment_point })
