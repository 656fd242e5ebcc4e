-- ===== src/Cli/WaiverStatus.antt =====
-- When the command `waiver` of cli.py ends with the status 0.
use ai_dev_project.Prelude.{
  String, ◌≡◌, ◌∙◌, ap, ◌↔◌, inl, inr, true, Option, [], is_empty, is_empty→nil, arith, Bool-cases,
}
use ai_dev_project.Python.{ok, ok-injective}
use ai_dev_project.Json.{Value, obj, Fields}
use ai_dev_project.Platform.{Platform, Datetime}
use ai_dev_project.Tools.Effects.{lift, and_then-eq-ok, returns-next}
use ai_dev_project.Artifacts.{Schemas, validate_artifact}
use ai_dev_project.Waiver.Enforcement.{WaiverCheck, check_waiver}
use ai_dev_project.Waiver.Enforcement.Validity.{InForce, check_waiver-valid_iff}
use ai_dev_project.Cli.{returns-print_items, Console, Host, reads, read_json, moment_of}
use ai_dev_project.Cli.Waivers.{
  need_dict, report_waiver, judge_waiver, check_waiver_file, cmd_waiver,
}

module _ (P : Platform) {W : Type 0} (h : Host W) (raw : String) (now : Option String) where
  -- The file has a waiver that is valid against its schema and in force at the time of the command.
  pub record HasWaiver (w : W) : Type 0 where
    pub present : h.is_file raw w ≡ true
    pub schemas : Schemas
    pub found_root : h.repository ≡ ok schemas
    pub instance : Fields
    pub parsed : read_json P h raw w ≡ ok (obj instance)
    pub valid : validate_artifact schemas instance ≡ ok []
    pub moment : Datetime
    pub at : moment_of P h now ≡ ok moment
    pub in_force : InForce P instance moment

  dict_lem : (v : Value) (d : Fields) → need_dict P h v ≡ ok d → v ≡ obj d
  dict_lem (obj d') d e = ap obj (ok-injective d' d e)
  dict_lem _ d e = ground arith

  -- The report ends with 0 exactly if the check is valid.
  report_iff :
      (check : WaiverCheck) (s : Console W)
      → ((report_waiver P h raw check s).0 ≡ ok 0) ↔ (check.valid ≡ true)
  report_iff check s = elim (Bool-cases check.valid) [
    | inl v ↦ (λ _. v, λ _. rw v)
    | inr v ↦ (
      λ e. ground (arith, rw (returns-print_items check.reason_codes _) at (rw v at e)),
      λ v'. ground arith,
    )
  ]

  forward : (s : Console W) → (cmd_waiver P h raw now s).0 ≡ ok 0 → HasWaiver s.world
  unfolding cmd_waiver check_waiver_file judge_waiver
  forward s e = elim (Bool-cases (h.is_file raw s.world)) [
    | inr absent ↦ ground (arith, rw absent at e)
    | inl present ↦
        let (v, p, e1, _) = and_then-eq-ok (reads (read_json P h raw)) _ s (rw present at e) in
        let (schemas, r, e2, _) = and_then-eq-ok (lift h.repository) _ s e1 in
        let (d, i, e3, _) = and_then-eq-ok (lift (need_dict P h v)) _ s e2 in
        let (errors, f, e4, _) = and_then-eq-ok (lift (validate_artifact schemas d)) _ s e3 in
        elim (Bool-cases (is_empty errors)) [
          | inr q ↦ ground (arith, rw (returns-print_items errors _) at (rw q at e4))
          | inl q ↦
              let (moment, m, e5, _) = and_then-eq-ok (lift (moment_of P h now)) _ s (rw q at e4) in
              let (check, c, e6, _) = and_then-eq-ok (lift (check_waiver P d moment)) _ s e5 in
              record {
                present = present;
                schemas = schemas;
                found_root = r;
                instance = d;
                parsed = p ∙ ap ok (dict_lem v d i);
                valid = f ∙ ap ok (is_empty→nil errors q);
                moment = moment;
                at = m;
                in_force =
                    (check_waiver-valid_iff P d moment).0 (check, c, (report_iff check s).0 e6);
              }
        ]
  ]

  backward : (s : Console W) → HasWaiver s.world → (cmd_waiver P h raw now s).0 ≡ ok 0
  unfolding cmd_waiver check_waiver_file judge_waiver
  backward s w =
      let (check, c, v) = (check_waiver-valid_iff P w.instance w.moment).1 w.in_force in
      rw (w.present, check_waiver_file)
        (rw w.parsed
          (returns-next w.found_root _ s ∙ rw w.valid (rw w.at (rw c ((report_iff check s).1 v)))))

  -- `waiver` ends with the status 0 exactly if the file has a waiver that is valid against its schema and
  -- in force at the time of the command.
  pub cmd_waiver_iff : (s : Console W) → ((cmd_waiver P h raw now s).0 ≡ ok 0) ↔ HasWaiver s.world
  cmd_waiver_iff s = (forward s, backward s)
