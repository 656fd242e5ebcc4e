-- ===== src/Pipeline.antt =====
-- `build_security_review` of pipeline/orchestrator.py, which compiles a review from a threat model.
pub mod Verdict
pub mod Contract
pub mod Calls
pub mod Run
pub mod Sequence
pub mod Effects
pub mod Whole
pub mod Outcome
pub mod Stages
pub mod Completion
use ai_dev_project.Prelude.{
  String, Bool, true, false, not, ◌||◌, Option, none, some, List, [], ◌∷◌, ◌==◌, if◌then◌else◌,
}
use ai_dev_project.Python.{Result, ok, raised, ◌>>=◌, type_error, attribute_error}
use ai_dev_project.Json.{
  Value, null, str, arr, obj, Items, nil, cons, Fields, end, field, get, get_or, insert, truthy,
  to_text, need_obj,
}
use ai_dev_project.Platform.{Platform}

-- What a finding comes to.
pub data Disposition : Type 0 where
  mitigated open_blocking waived_medium accepted_low : Disposition

abbrev pub disposition_text : Disposition → String
disposition_text mitigated = "mitigated"
disposition_text open_blocking = "open_blocking"
disposition_text waived_medium = "waived_medium"
disposition_text accepted_low = "accepted_low"

abbrev pub is_open : Disposition → Bool
is_open open_blocking = true
is_open _ = false

-- `bool(risk.get(key))`
abbrev pub has_value : Fields → String → Bool
has_value risk key = elim (get risk key) [ none ↦ false | some v ↦ truthy v ]

-- The keyword arguments of `build_security_review`, but for the threat model.
pub record ReviewArgs : Type 0 where
  pub feature_id : String
  pub artifact_id : String
  pub created_at : String
  pub actor : Fields
  pub run_id : String
  pub threat_model_href : String

module _ (P : Platform) where
  abbrev pub severity_of : Fields → String
  severity_of risk = to_text P.repr (get_or risk "severity" (str ""))

  unfoldable pub disposition_of : Fields → Disposition
  disposition_of risk =
      if severity_of risk == "critical" || severity_of risk == "high"
      then (if has_value risk "verification_test" then mitigated else open_blocking)
      else if severity_of risk == "medium"
      then (if has_value risk "waiver_id" then waived_medium else open_blocking)
      else accepted_low

  -- `if disposition == "mitigated" and verification: entry["verification_evidence"] = …`
  abbrev with_evidence : Disposition → Fields → Fields → Fields
  with_evidence mitigated risk entry =
      if has_value risk "verification_test"
      then insert "verification_evidence"
          (str (to_text P.repr (get_or risk "verification_test" null))) entry
      else entry
  with_evidence _ risk entry = entry

  abbrev pub entry_of : Fields → Fields
  entry_of risk = with_evidence (disposition_of risk) risk (
      field "risk_id" (get_or risk "id" null) (
        field "severity" (str (severity_of risk))
          (field "disposition" (str (disposition_text (disposition_of risk))) end)))

  -- The loop over the risks: the entries, and whether one is open.
  unfoldable pub dispositions : Items → Result (Items × Bool)
  dispositions nil = ok (nil, false)
  dispositions (cons v vs) = do
    risk ← need_obj v
    rest ← dispositions vs
    ok (cons (obj (entry_of risk)) rest.0, is_open (disposition_of risk) || rest.1)

  -- `threat_model.get("risks", [])`. A dict or a text, of which a loop would give texts, raises if it
  -- has any.
  unfoldable pub risks_of : Fields → Result Items
  risks_of threat_model = elim (get threat_model "risks") [
    | none ↦ ok nil
    | some (arr risks) ↦ ok risks
    | some (obj end) ↦ ok nil
    | some (obj _) ↦ raised attribute_error
    | some (str s) ↦ if s == "" then ok nil else raised attribute_error
    | some _ ↦ raised type_error
  ]

  unfoldable pub build_security_review : ReviewArgs → Fields → Result Fields
  build_security_review a threat_model = do
    risks ← risks_of threat_model
    found ← dispositions risks
    ok (
        field "schema_version" (str "1.0.0") (
          field "artifact_type" (str "security-review") (
            field "id" (str a.artifact_id) (
              field "created_at" (str a.created_at) (
                field "created_by" (obj a.actor) (
                  field "run_id" (str a.run_id) (
                    field "links"
                      (arr (
                        cons
                          (obj (
                            field "rel" (str "threat")
                              (field "href" (str a.threat_model_href) end)))
                          nil))
                      (field "feature_id" (str a.feature_id) (
                        field "threat_model_id"
                          (str (to_text P.repr (get_or threat_model "id" (str ""))))
                          (field "verdict"
                            (str (if found.1 then "changes_requested" else "approved"))
                            (field "risk_dispositions" (arr found.0) end)))))))))))
