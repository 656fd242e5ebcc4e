-- ===== src/Examples/Commands.antt =====
-- The commands of the command line, on a machine whose files are a few texts.
use ai_dev_project.Prelude.{◌||◌, Each, ℕ, ◌≡◌, ◌↔◌, refl, none, some, [], ◌∷◌, ◌==◌, if◌then◌else◌}
use ai_dev_project.Python.{ok, raised, os_error}
use ai_dev_project.Json.{str, obj, Fields, end, field, get, item, to_text}
use ai_dev_project.Platform.{Platform, naive}
use ai_dev_project.Waiver.Enforcement.{
  check_waiver, validate_waiver, waiver_state, role_reasons, time_reasons, timestamp,
  parse_timestamp, is_waivable, may_manage_waiver,
}
use ai_dev_project.Cli.{Console, Host, out, err, read_json}
use ai_dev_project.Prelude.Text.{strip, ends_with_code, drop_last}
use ai_dev_project.Tools.Registry.{validate_instance}
use ai_dev_project.Artifacts.{
  Schemas, artifact_schema_name, validate_document, validate_artifact, validate_file,
}
use ai_dev_project.Cli.Validate.{check_file, check_path, check_paths, cmd_validate}
use ai_dev_project.Cli.Waivers.{judge_waiver, check_waiver_file, cmd_waiver}
use ai_dev_project.Cli.Deploy.{DeployArgs, cmd_deploy_verify, deploy_file, verify_candidate}
use ai_dev_project.Cli.DeployStatus.{HasRelease, cmd_deploy_verify_iff}
use ai_dev_project.Examples.Calls.{server}
use ai_dev_project.Examples.Releases.{candidate}
use ai_dev_project.Deploy.Candidate.{load_candidate, validate_candidate}
use ai_dev_project.Deploy.Verify.{verify_release, deployment_input}
use ai_dev_project.Deploy.Bundle.{build_evidence_bundle, collect_items}
use ai_dev_project.Policy.Points.{evaluate_deployment}
use ai_dev_project.Policy.Client.{evaluate}
use ai_dev_project.Cli.ValidateStatus.{Passes, cmd_validate_iff}
use ai_dev_project.Cli.WaiverStatus.{HasWaiver, cmd_waiver_iff}
use ai_dev_project.Examples.World.{platform}
use ai_dev_project.Examples.Waivers.{waiver}

abbrev document : Fields
document = field "artifact_type" (str "waiver") waiver

abbrev reading : Platform
reading = record platform {
  loads = λ s.
      if s == "waiver"
      then some (obj document)
      else if s == "release"
      then some (obj candidate)
      else if s == "idea"
      then some (obj end)
      else none;
}

abbrev schemas : Schemas
schemas = record { load_schema = λ name. ok end; iter_errors = λ schema v. [] }

-- The files are the texts "waiver" and "release", at the paths of the same name.
abbrev host : Host ℕ
host = record {
  is_file = λ path w. path == "waiver" || path == "release";
  read_text = λ path w. ok path;
  make_dir = λ path w. (ok tt, w);
  write_text = λ path text w. (ok tt, w);
  path_text = λ path. path;
  path_name = λ path. path;
  now = naive 150;
  astimezone_utc = λ moment. moment;
  strftime = λ format moment. "2026-01-01T00:00:00Z";
  pretty = λ v. "{}";
  error_text = λ e. "error";
  repository = ok schemas;
  documents = λ root w. raised os_error;
}

abbrev console : Console ℕ
console = record { lines = []; world = 7 }

cmd_validate_iff_example :
    ((cmd_validate reading host ("waiver" ∷ "waiver" ∷ []) console).0 ≡ ok 0) ↔ (
      (s : Schemas) × (host.repository ≡ ok s)
      × Each (Passes reading host s 7) ("waiver" ∷ "waiver" ∷ []))
cmd_validate_iff_example = cmd_validate_iff reading host ("waiver" ∷ "waiver" ∷ []) console

test_validate :
    cmd_validate reading host ("waiver" ∷ "gone" ∷ []) console
    ≡ (ok 1, record { lines = out "OK      waiver" ∷ err "SKIP gone: not a file" ∷ []; world = 7 })
unfolding cmd_validate check_paths check_path check_file validate_file validate_artifact
    artifact_schema_name get validate_document validate_instance
test_validate = refl

cmd_waiver_iff_example :
    ((cmd_waiver reading host "waiver" none console).0 ≡ ok 0)
    ↔ HasWaiver reading host "waiver" none 7
cmd_waiver_iff_example = cmd_waiver_iff reading host "waiver" none console

test_waiver :
    cmd_waiver reading host "waiver" none console
    ≡ (ok 0, record { lines = out "OK      waiver (active)" ∷ []; world = 7 })
unfolding cmd_waiver check_waiver_file read_json validate_artifact artifact_schema_name get
    validate_document validate_instance judge_waiver check_waiver validate_waiver role_reasons
    time_reasons timestamp item parse_timestamp ends_with_code strip to_text drop_last waiver_state
    is_waivable may_manage_waiver
test_waiver = refl

abbrev deploy_args : DeployArgs
deploy_args = record {
  path = "release";
  opa_url = "http://localhost:8181";
  bundle_version = "1";
  run_id = "RUN-1";
  now = none;
  output_dir = some "out";
  bundle_id = "EB-1";
  decision_id = "PD-1";
  actor_id = "deploy-verify";
  actor_role = "release-approver";
}

cmd_deploy_verify_iff_example :
    ((cmd_deploy_verify reading host server deploy_args console).0 ≡ ok 0)
    ↔ HasRelease reading host server deploy_args console
        (cmd_deploy_verify reading host server deploy_args console).1
cmd_deploy_verify_iff_example = cmd_deploy_verify_iff reading host server deploy_args console

test_deploy :
    cmd_deploy_verify reading host server deploy_args console
    ≡ (ok 0, record { lines = out "ALLOW   release" ∷ []; world = 7 })
unfolding cmd_deploy_verify deploy_file load_candidate validate_candidate validate_document
    validate_instance verify_candidate verify_release build_evidence_bundle collect_items get
    deployment_input item evaluate_deployment evaluate
test_deploy = refl
