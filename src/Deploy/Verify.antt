-- ===== src/Deploy/Verify.antt =====
-- deploy_verify/verify.py
use ai_dev_project.Prelude.{
  String, ◌≡◌, ◌∙◌, sym, refl, ap, Bool, some, List, [], is_empty, is_empty→nil, arith, Bool-cases,
  inl, inr, if◌then◌else◌,
}
use ai_dev_project.Python.{Result, ok, ◌>>=◌, >>=-eq-ok, ok-injective}
use ai_dev_project.Json.{str, obj, nil, cons, Fields, end, field, get, insert, item}
use ai_dev_project.Json.Laws.{get-insert}
use ai_dev_project.Platform.{Platform}
use ai_dev_project.Artifacts.{Schemas, validate_document}
use ai_dev_project.Policy.Client.{PolicyClient, PolicyResult, Server, evaluate}
use ai_dev_project.Policy.Decision.{DecisionArgs, build_policy_decision}
use ai_dev_project.Policy.Points.{
  DeploymentArgs, deployment_point, build_deployment_input, evaluate_deployment,
  build_deployment_decision,
}
use ai_dev_project.Deploy.Candidate.{candidate_schema, validate_candidate, sha256_digest}
use ai_dev_project.Deploy.Bundle.{BundleArgs, collect_items, build_evidence_bundle}

pub record ReleaseVerification : Type 0 where
  pub allow : Bool
  pub reason_codes : List String
  pub decision : Fields
  pub bundle : Fields

-- The keyword arguments of `verify_release`.
pub record VerifyArgs : Type 0 where
  pub bundle_id : String
  pub decision_id : String
  pub created_at : String
  pub actor : Fields
  pub run_id : String

-- `_deployment_input`
unfoldable pub deployment_input : Fields → Result DeploymentArgs
deployment_input candidate = do
  image ← item candidate "image"
  signature ← item candidate "signature"
  sbom ← item candidate "sbom"
  provenance ← item candidate "provenance"
  policy_decisions ← item candidate "policy_decisions"
  required_approver_role ← item candidate "required_approver_role"
  approvals ← item candidate "approvals"
  ok (record {
    image = image;
    signature = signature;
    sbom = sbom;
    provenance = provenance;
    policy_decisions = policy_decisions;
    required_approver_role = required_approver_role;
    approvals = approvals;
  })

abbrev bundle_args : VerifyArgs → BundleArgs
bundle_args a = record {
  artifact_id = a.bundle_id;
  created_at = a.created_at;
  actor = a.actor;
  run_id = a.run_id;
  links = nil;
}

abbrev decision_args : VerifyArgs → DecisionArgs
decision_args a = record {
  artifact_id = a.decision_id;
  created_at = a.created_at;
  actor = a.actor;
  run_id = a.run_id;
  point = deployment_point;
  links = cons (obj (field "rel" (str "evidence") (field "href" (str a.bundle_id) end))) nil;
}

module _ (P : Platform) (schemas : Schemas) (client : PolicyClient) (server : Server) where
  unfoldable pub verify_release : Fields → VerifyArgs → Result ReleaseVerification
  verify_release candidate a = do
    _ ← validate_candidate schemas candidate
    bundle ← build_evidence_bundle P (bundle_args a) candidate
    input ← deployment_input candidate
    result ← evaluate_deployment P client server input
    ok (record {
      allow = result.allow;
      reason_codes = result.reason_codes;
      decision = build_deployment_decision result (decision_args a);
      bundle = insert "policy_decision_ref" (str a.decision_id) bundle;
    })

  bundle_lem :
      (candidate bundle : Fields) (a : VerifyArgs)
      → build_evidence_bundle P (bundle_args a) candidate ≡ ok bundle
      → (get bundle "candidate_digest" ≡ some (str (sha256_digest P candidate)))
        × (get bundle "id" ≡ some (str a.bundle_id))
  unfolding build_evidence_bundle get
  bundle_lem candidate bundle a h =
      let (items, c, h₁) = >>=-eq-ok (collect_items P candidate) _ h in (ground arith, ground arith)

  decision_lem :
      (result : PolicyResult) (a : VerifyArgs)
      → let d = build_deployment_decision result (decision_args a) in
        (get d "id" ≡ some (str a.decision_id))
        × (get d "decision" ≡ some (str (if result.allow then "allow" else "deny")))
        × (get d "input_digest" ≡ some (str result.input_digest))
  unfolding build_deployment_decision build_policy_decision get insert
  decision_lem result a = (refl, refl, refl)

  validate_candidate_lem :
      (candidate d : Fields)
      → validate_candidate schemas candidate ≡ ok d
      → validate_document schemas candidate candidate_schema ≡ ok []
  unfolding validate_candidate
  validate_candidate_lem candidate d h =
      let (errors, v, h₁) = >>=-eq-ok (validate_document schemas candidate candidate_schema) _ h in
      elim (Bool-cases (is_empty errors)) [
        | inl t ↦ v ∙ ap ok (is_empty→nil errors t)
        | inr t ↦ ground (arith, t)
      ]

  -- A verification that returns: the candidate fits its schema; the answer is the policy server's at the
  -- deployment point, on the input that the candidate gives; the decision records that answer; and the
  -- bundle has the digest of the whole candidate and refers to the decision.
  pub verify_release_lem :
      (candidate : Fields) (a : VerifyArgs) (v : ReleaseVerification)
      → verify_release candidate a ≡ ok v
      → (input : DeploymentArgs) × (result : PolicyResult) × (validate_document schemas candidate
            candidate_schema
          ≡ ok [])
        × (deployment_input candidate ≡ ok input)
        × (evaluate P client server deployment_point (build_deployment_input input) ≡ ok result)
        × (v.allow ≡ result.allow)
        × (v.reason_codes ≡ result.reason_codes)
        × (get v.decision "decision" ≡ some (str (if v.allow then "allow" else "deny")))
        × (get v.decision "input_digest" ≡ some (str result.input_digest))
        × (get v.bundle "candidate_digest" ≡ some (str (sha256_digest P candidate)))
        × (get v.bundle "policy_decision_ref" ≡ get v.decision "id")
  unfolding verify_release evaluate_deployment
  verify_release_lem candidate a v h =
      let (valid, c, h₁) = >>=-eq-ok (validate_candidate schemas candidate) _ h in
      let (bundle, b, h₂) = >>=-eq-ok (build_evidence_bundle P (bundle_args a) candidate) _ h₁ in
      let (input, i, h₃) = >>=-eq-ok (deployment_input candidate) _ h₂ in
      let (result, r, h₄) = >>=-eq-ok (evaluate_deployment P client server input) _ h₃ in
      let (digest, _) = bundle_lem candidate bundle a b in
      let (id, decision, input_digest) = decision_lem result a in
      rw (← ok-injective _ _ h₄) (
        input,
        result,
        validate_candidate_lem candidate valid c,
        i,
        r,
        refl,
        refl,
        decision,
        input_digest,
        get-insert "policy_decision_ref" "candidate_digest" (str a.decision_id) bundle ∙ digest,
        get-insert "policy_decision_ref" "policy_decision_ref" (str a.decision_id) bundle ∙ sym id,
      )
