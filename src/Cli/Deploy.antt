-- ===== src/Cli/Deploy.antt =====
-- cli.py: the command `deploy-verify`.
use ai_dev_project.Prelude.{ℕ, String, Option, none, some, [], ◌∷◌, if◌then◌else◌}
use ai_dev_project.Prelude.Text.{◌<>◌, is_blank}
use ai_dev_project.Python.{Result, ok, raised, candidate_error}
use ai_dev_project.Json.{str, obj, Fields, end, field}
use ai_dev_project.Platform.{Platform, Datetime}
use ai_dev_project.Tools.Effects.{Act, lift}
use ai_dev_project.Artifacts.{Schemas}
use ai_dev_project.Policy.Client.{Server, policy_client}
use ai_dev_project.Deploy.Candidate.{load_candidate}
use ai_dev_project.Deploy.Verify.{ReleaseVerification, VerifyArgs, verify_release}
use ai_dev_project.Cli.{
  Console, Host, out, err, ◌>>=◌, ◌>>◌, exit, print, print_items, looks, acts, skip, report_invalid,
  moment_of,
}

-- The arguments of `deploy-verify`.
pub record DeployArgs : Type 0 where
  pub path : String
  pub opa_url : String
  pub bundle_version : String
  pub run_id : String
  pub now : Option String
  pub output_dir : Option String
  pub bundle_id : String
  pub decision_id : String
  pub actor_id : String
  pub actor_role : String

module _ {W : Type 0} (h : Host W) where
  -- `_rfc3339`
  abbrev pub rfc3339 : Datetime → String
  rfc3339 moment = h.strftime "%Y-%m-%dT%H:%M:%SZ" (h.astimezone_utc moment)

module _ (P : Platform) {W : Type 0} (h : Host W) where
  abbrev pub verify_args : DeployArgs → Datetime → VerifyArgs
  verify_args a moment = record {
    bundle_id = a.bundle_id;
    decision_id = a.decision_id;
    created_at = rfc3339 h moment;
    actor =
        field "type" (str "ci") (field "id" (str a.actor_id) (field "role" (str a.actor_role) end));
    run_id = a.run_id;
  }

  -- `(output / name).write_text(json.dumps(…) + "\n")`
  abbrev pub write_json : String → String → Fields → Act (Console W) (Unit {0})
  write_json dir name document =
      acts (h.write_text (dir <> ("/" <> name)) (h.pretty (obj document) <> "\n"))

  abbrev pub write_output : Option String → ReleaseVerification → Act (Console W) (Unit {0})
  write_output none v = lift (ok tt)
  write_output (some dir) v = if is_blank dir then lift (ok tt) else (do
    acts (h.make_dir dir)
    write_json dir "evidence-bundle.json" v.bundle
    write_json dir "policy-decision.json" v.decision)

  abbrev pub report_release : String → ReleaseVerification → Act (Console W) ℕ
  report_release raw v =
      if v.allow
      then (do print (out ("ALLOW   " <> h.path_text raw)); exit 0)
      else (do print (err ("DENY    " <> h.path_text raw)); print_items v.reason_codes; exit 1)

  -- The part of `_cmd_deploy_verify` for a candidate that was loaded.
  unfoldable pub verify_candidate : Schemas → Server → DeployArgs → Fields → Act (Console W) ℕ
  verify_candidate schemas server a candidate = do
    moment ← lift (moment_of P h a.now)
    let client = policy_client a.opa_url a.bundle_version
    v ← lift (verify_release P schemas client server candidate (verify_args a moment))
    write_output a.output_dir v
    report_release a.path v

  -- `except CandidateError`
  abbrev pub after_load : Schemas → Server → DeployArgs → Result Fields → Act (Console W) ℕ
  after_load schemas server a (ok candidate) = verify_candidate schemas server a candidate
  after_load schemas server a (raised candidate_error) = (do
    report_invalid h a.path (h.error_text candidate_error ∷ [])
    exit 1)
  after_load schemas server a (raised e) = lift (raised e)

  -- `load_candidate`, with the reading of the file
  abbrev pub candidate_at : Schemas → String → W → Result Fields
  candidate_at schemas raw w = elim (h.read_text raw w) [
    | raised e ↦ raised e
    | ok text ↦ load_candidate P schemas text
  ]

  unfoldable pub deploy_file : Server → DeployArgs → Act (Console W) ℕ
  deploy_file server a = do
    schemas ← lift h.repository
    loaded ← looks (candidate_at schemas a.path)
    after_load schemas server a loaded

  -- `_cmd_deploy_verify`
  unfoldable pub cmd_deploy_verify : Server → DeployArgs → Act (Console W) ℕ
  cmd_deploy_verify server a = do
    found ← looks (h.is_file a.path)
    if found then deploy_file server a else (do skip h a.path; exit 1)
