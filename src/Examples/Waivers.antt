-- ===== src/Examples/Waivers.antt =====
-- A waiver in force, and the decisions about the risk that it names.
use ai_dev_project.Prelude.{◌≡◌, ◌↔◌, ◌⊎◌, refl, true, false, [], ◌∷◌, arith}
use ai_dev_project.Prelude.Text.{strip, ends_with_code, drop_last}
use ai_dev_project.Python.{ok}
use ai_dev_project.Json.{str, obj, Fields, end, field, get, item, to_text}
use ai_dev_project.Platform.{naive}
use ai_dev_project.Waiver.Enforcement.{
  WaiverCheck, BlockDecision, check_waiver, evaluate_risk, severity_low, severity_medium,
  validate_waiver, waiver_state, role_reasons, time_reasons, timestamp, parse_timestamp,
  is_waivable, may_manage_waiver, first_valid,
}
use ai_dev_project.Waiver.Enforcement.Validity.{InForce, check_waiver-valid_iff}
use ai_dev_project.Waiver.Enforcement.Risk.{Waived, evaluate_risk-open_iff, evaluate_risk_expires}
use ai_dev_project.Examples.World.{platform}

abbrev human : Fields
human = field "type" (str "human") end

abbrev reviewer : Fields
reviewer = field "type" (str "human") (field "role" (str "security-reviewer") end)

abbrev pub waiver : Fields
waiver = field "risk_id" (str "RISK-1") (
    field "severity" (str "medium") (
      field "created_by" (obj human) (
        field "approved_by" (obj reviewer) (
          field "created_at" (str "2026-01-01")
            (field "expires_at" (str " 2026-02-01T00:00:00Z") end)))))

check_waiver-valid_iff_example :
    ((k : WaiverCheck) × (check_waiver platform waiver (naive 150) ≡ ok k) × (k.valid ≡ true))
    ↔ InForce platform waiver (naive 150)
check_waiver-valid_iff_example = check_waiver-valid_iff platform waiver (naive 150)

test_check :
    check_waiver platform waiver (naive 150)
    ≡ ok (record { valid = true; state = "active"; reason_codes = [] })
unfolding check_waiver validate_waiver waiver_state role_reasons time_reasons timestamp
    parse_timestamp is_waivable may_manage_waiver get item to_text strip ends_with_code drop_last
test_check = refl

abbrev open_risk : BlockDecision
open_risk = record { blocked = false; reason_codes = [] }

abbrev expired : BlockDecision
expired = record { blocked = true; reason_codes = "WAIVER_EXPIRED" ∷ [] }

test_open : evaluate_risk platform "RISK-1" "medium" (waiver ∷ []) (naive 150) ≡ ok open_risk
unfolding evaluate_risk first_valid check_waiver validate_waiver waiver_state role_reasons
    time_reasons timestamp parse_timestamp is_waivable may_manage_waiver get item to_text strip
    ends_with_code drop_last
test_open = refl

test_expired : evaluate_risk platform "RISK-1" "medium" (waiver ∷ []) (naive 200) ≡ ok expired
unfolding evaluate_risk first_valid check_waiver validate_waiver waiver_state role_reasons
    time_reasons timestamp parse_timestamp is_waivable may_manage_waiver get item to_text strip
    ends_with_code drop_last
test_expired = refl

test_later : evaluate_risk platform "RISK-1" "medium" (waiver ∷ []) (naive 300) ≡ ok expired
unfolding evaluate_risk first_valid check_waiver validate_waiver waiver_state role_reasons
    time_reasons timestamp parse_timestamp is_waivable may_manage_waiver get item to_text strip
    ends_with_code drop_last
test_later = refl

evaluate_risk-open_iff_example : (open_risk.blocked ≡ false) ↔ (
    ("medium" ≡ severity_low)
    ⊎ (("medium" ≡ severity_medium) × Waived platform "RISK-1" (waiver ∷ []) (naive 150)))
evaluate_risk-open_iff_example =
    evaluate_risk-open_iff platform (naive 150) "RISK-1" "medium" (waiver ∷ []) open_risk test_open

evaluate_risk_expires_example : expired.blocked ≡ true
evaluate_risk_expires_example =
    evaluate_risk_expires platform "RISK-1" "medium" (waiver ∷ []) (naive 200) (naive 300) expired
      expired (omega arith) test_expired test_later refl
