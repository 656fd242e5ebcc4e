-- ===== src/Cli/DeployStatus.antt =====
-- When the command `deploy-verify` of cli.py ends with the status 0.
use ai_dev_project.Prelude.{◌≡◌, ◌∙◌, refl, ◌↔◌, inl, inr, true, arith, Bool-cases, ap, sym, String}
use mathlib.Core.Path.{subst}
use ai_dev_project.Python.{Result, ok, raised, Result-cases}
use ai_dev_project.Deploy.Candidate.{load_candidate}
use ai_dev_project.Json.{Fields, str, end, field}
use ai_dev_project.Platform.{Platform, Datetime}
use ai_dev_project.Tools.Effects.{lift, and_then-eq-ok, returns-next}
use ai_dev_project.Artifacts.{Schemas}
use ai_dev_project.Policy.Client.{Server, policy_client}
use ai_dev_project.Deploy.Verify.{ReleaseVerification, verify_release}
use ai_dev_project.Cli.{returns-print_items, Console, Host, moment_of}
use ai_dev_project.Cli.Deploy.{
  DeployArgs, verify_args, rfc3339, write_output, report_release, verify_candidate, after_load,
  candidate_at, deploy_file, cmd_deploy_verify,
}
use ai_dev_project.Cli.Delivery.{Delivered, write_output-Delivered, Delivered-returns}

module _ (P : Platform) {W : Type 0} (h : Host W) (server : Server) (a : DeployArgs) where
  -- The file has a candidate that fits its schema, the policy allows its release at the time of the command,
  -- and what was asked for was written.
  pub record HasRelease (s t : Console W) : Type 0 where
    pub present : h.is_file a.path s.world ≡ true
    pub schemas : Schemas
    pub found_root : h.repository ≡ ok schemas
    pub candidate : Fields
    pub text : String
    pub read : h.read_text a.path s.world ≡ ok text
    pub loaded : load_candidate P schemas text ≡ ok candidate
    pub moment : Datetime
    pub at : moment_of P h a.now ≡ ok moment
    pub verification : ReleaseVerification
    pub verified :
        verify_release P schemas
          (policy_client a.opa_url a.bundle_version)
          server
          candidate
          (record {
            bundle_id = a.bundle_id;
            decision_id = a.decision_id;
            created_at = rfc3339 h moment;
            actor =
                field "type"
                  (str "ci")
                  (field "id" (str a.actor_id) (field "role" (str a.actor_role) end));
            run_id = a.run_id;
          })
        ≡ ok verification
    pub allowed : verification.allow ≡ true
    pub written : Delivered h verification s.world a.output_dir t.world

  -- The report ends with 0 exactly if the release is allowed.
  report_iff :
      (v : ReleaseVerification) (s : Console W)
      → ((report_release P h a.path v s).0 ≡ ok 0) ↔ (v.allow ≡ true)
  report_iff v s = elim (Bool-cases v.allow) [
    | inl y ↦ (λ _. y, λ _. rw y)
    | inr n ↦ (
      λ e. ground (arith, rw (returns-print_items v.reason_codes _) at (rw n at e)),
      λ y. ground arith,
    )
  ]

  -- A candidate that was not loaded does not end with 0.
  loaded_lem :
      (schemas : Schemas) (r : Result Fields) (s : Console W)
      → (after_load P h schemas server a r s).0 ≡ ok 0
      → (c : Fields) × (r ≡ ok c)
  loaded_lem schemas (ok c) s e = (c, refl)
  loaded_lem schemas (raised _) s e = ground arith

  -- The candidate of a file that was loaded comes from its text.
  text_lem :
      (schemas : Schemas) (c : Fields) (w : W)
      → candidate_at P h schemas a.path w ≡ ok c
      → (text : String) × (h.read_text a.path w ≡ ok text) × (load_candidate P schemas text ≡ ok c)
  text_lem schemas c w l = elim (Result-cases (h.read_text a.path w)) [
    | inr (fault, r) ↦ ground (arith, rw (r, candidate_at) at l)
    | inl (text, r) ↦ (text, r, rw (r, candidate_at) at l)
  ]

  world-report_release :
      (v : ReleaseVerification) (s : Console W)
      → v.allow ≡ true
      → (report_release P h a.path v s).1.world ≡ s.world
  world-report_release v s y = rw y refl

  -- What a candidate that was loaded has to pass.
  record Passed (schemas : Schemas) (c : Fields) (s t : Console W) : Type 0 where
    moment : Datetime
    at : moment_of P h a.now ≡ ok moment
    verification : ReleaseVerification
    verified :
        verify_release P schemas
          (policy_client a.opa_url a.bundle_version)
          server
          c
          (verify_args P h a moment)
        ≡ ok verification
    allowed : verification.allow ≡ true
    written : Delivered h verification s.world a.output_dir t.world

  verify_candidate-Passed :
      (schemas : Schemas) (c : Fields) (s : Console W)
      → (verify_candidate P h schemas server a c s).0 ≡ ok 0
      → Passed schemas c s (verify_candidate P h schemas server a c s).1
  unfolding verify_candidate
  verify_candidate-Passed schemas c s e =
      let (moment, m, e2, q2) = and_then-eq-ok (lift (moment_of P h a.now)) _ s e in
      let (v, f, e3, q3) =
        and_then-eq-ok
          (lift (
            verify_release P schemas (policy_client a.opa_url a.bundle_version) server c
              (verify_args P h a moment)))
          _ s e2 in
      let (_, written, e4, q4) = and_then-eq-ok (write_output P h a.output_dir v) _ s e3 in
      let allowed = (report_iff v _).0 e4 in
      record {
        moment = moment;
        at = m;
        verification = v;
        verified = f;
        allowed = allowed;
        written =
            subst (λ w. Delivered h v s.world a.output_dir w)
              (sym (ap (λ t. t.world) (q2 ∙ (q3 ∙ q4)) ∙ world-report_release v _ allowed))
              (write_output-Delivered P h a.output_dir v s written);
      }

  forward :
      (s : Console W)
      → (cmd_deploy_verify P h server a s).0 ≡ ok 0
      → HasRelease s (cmd_deploy_verify P h server a s).1
  unfolding cmd_deploy_verify deploy_file
  forward s e = elim (Bool-cases (h.is_file a.path s.world)) [
    | inr absent ↦ ground (arith, rw absent at e)
    | inl present ↦
        let (schemas, r, e1, q1) = and_then-eq-ok (lift h.repository) _ s (rw present at e) in
        let (c, l) = loaded_lem schemas (candidate_at P h schemas a.path s.world) s e1 in
        let (text, read, loaded) = text_lem schemas c s.world l in
        let passed = verify_candidate-Passed schemas c s (rw l at e1) in
        let end : (cmd_deploy_verify P h server a s).1
            ≡ (verify_candidate P h schemas server a c s).1 =
          rw (present, cmd_deploy_verify)
            (q1 ∙ ap (λ loaded. (after_load P h schemas server a loaded s).1) l) in
        record {
          present = present;
          schemas = schemas;
          found_root = r;
          text = text;
          read = read;
          candidate = c;
          loaded = loaded;
          moment = passed.moment;
          at = passed.at;
          verification = passed.verification;
          verified = passed.verified;
          allowed = passed.allowed;
          written =
              subst
                (λ (t : Console W). Delivered h passed.verification s.world a.output_dir t.world)
                (sym end) passed.written;
        }
  ]

  backward : (s t : Console W) → HasRelease s t → (cmd_deploy_verify P h server a s).0 ≡ ok 0
  unfolding cmd_deploy_verify deploy_file verify_candidate
  backward s t w =
      rw (w.present, deploy_file)
        (returns-next w.found_root _ s
          ∙ rw (w.read, candidate_at)
              (rw w.loaded (
                rw w.at (
                  rw w.verified (
                    returns-next
                      (Delivered-returns P h a.output_dir w.verification s t.world w.written) _ _
                    ∙ (report_iff w.verification _).1 w.allowed)))))

  -- `deploy-verify` ends with the status 0 exactly if its file has a candidate that fits its schema, the
  -- policy allows the release of it at the time of the command, and the world that it leaves is that of the
  -- writing it was asked for: the directory is made, and then the bundle and the decision are written into it
  -- as JSON, each call without an error; or nothing is written where no directory is given.
  pub cmd_deploy_verify_iff :
      (s : Console W)
      → ((cmd_deploy_verify P h server a s).0 ≡ ok 0)
        ↔ HasRelease s (cmd_deploy_verify P h server a s).1
  cmd_deploy_verify_iff s = (forward s, backward s _)
