-- ===== src/Waiver/Enforcement.antt =====
-- waiver/enforcement.py. A waiver is a JSON object of any shape.
pub mod Parts
pub mod Validity
pub mod Risk
use ai_dev_project.Prelude.{
  ℕ, String, Bool, true, false, not, Option, none, some, List, [], ◌∷◌, ◌++◌, ◌==◌, leb, is_empty,
  contains, filter, unique_onto, if◌then◌else◌,
}
use ai_dev_project.Prelude.Text.{◌<>◌, strip, ends_with_code, drop_last}
use ai_dev_project.Python.{
  Exn, Result, ok, raised, ◌>>=◌, value_error, is_value_error, is_key_error,
}
pub use ai_dev_project.Json.{is_text}
use ai_dev_project.Json.{Value, str, obj, Fields, end, get, get_or, item, truthy, need_obj, to_text}
use ai_dev_project.Platform.{Platform, Datetime, naive, aware}

abbrev pub severity_critical : String
severity_critical = "critical"

abbrev pub severity_high : String
severity_high = "high"

abbrev pub severity_medium : String
severity_medium = "medium"

abbrev pub severity_low : String
severity_low = "low"

abbrev pub security_reviewer_role : String
security_reviewer_role = "security-reviewer"

abbrev pub waivable_severities : List String
waivable_severities = severity_medium ∷ []

abbrev pub reason_agent_may_not_create : String
reason_agent_may_not_create = "AGENT_MAY_NOT_CREATE"

abbrev pub reason_agent_may_not_approve : String
reason_agent_may_not_approve = "AGENT_MAY_NOT_APPROVE"

abbrev pub reason_approver_not_security_reviewer : String
reason_approver_not_security_reviewer = "APPROVER_NOT_SECURITY_REVIEWER"

abbrev pub reason_approver_is_risk_owner : String
reason_approver_is_risk_owner = "APPROVER_IS_RISK_OWNER"

abbrev pub reason_expires_before_created : String
reason_expires_before_created = "EXPIRES_BEFORE_CREATED"

abbrev pub reason_severity_not_waivable : String
reason_severity_not_waivable = "SEVERITY_NOT_WAIVABLE"

abbrev pub reason_waiver_expired : String
reason_waiver_expired = "WAIVER_EXPIRED"

abbrev pub reason_waiver_revoked : String
reason_waiver_revoked = "WAIVER_REVOKED"

abbrev pub reason_waiver_missing : String
reason_waiver_missing = "WAIVER_MISSING"

abbrev pub reason_critical_never_waived : String
reason_critical_never_waived = "CRITICAL_NEVER_WAIVED"

abbrev pub reason_high_never_waived : String
reason_high_never_waived = "HIGH_NEVER_WAIVED"

abbrev pub reason_invalid_waiver : String
reason_invalid_waiver = "INVALID_WAIVER"

pub record WaiverCheck : Type 0 where
  pub valid : Bool
  pub state : String
  pub reason_codes : List String

pub record BlockDecision : Type 0 where
  pub blocked : Bool
  pub reason_codes : List String

-- `_as_utc`, and the `replace(tzinfo=UTC)` of `parse_timestamp`
abbrev pub as_utc : Datetime → Datetime
as_utc (naive n) = aware n
as_utc (aware n) = aware n

-- By this, datetimes that have a zone are compared.
abbrev pub instant : Datetime → ℕ
instant (naive n) = n
instant (aware n) = n

unfoldable pub is_waivable : String → Bool
is_waivable severity = contains waivable_severities severity

unfoldable pub may_manage_waiver : Fields → Bool
may_manage_waiver actor = is_text (get actor "type") "human"

-- `waiver.get(key) or {}`
abbrev pub or_empty : Option Value → Value
or_empty none = obj end
or_empty (some v) = if truthy v then v else obj end

abbrev pub part : Fields → String → Value
part waiver key = or_empty (get waiver key)

-- `if failed: reasons.append(reason)`
abbrev pub reason_if : Bool → String → List String
reason_if true reason = reason ∷ []
reason_if false reason = []

-- `except (KeyError, ValueError)`
abbrev pub is_caught : Exn → Bool
is_caught e = if is_key_error e then true else is_value_error e

abbrev times_of : Result (Datetime × Datetime) → Result (List String)
times_of (ok (created_at, expires_at)) =
    ok (reason_if (leb (instant expires_at) (instant created_at)) reason_expires_before_created)
times_of (raised e) = if is_caught e then ok (reason_invalid_waiver ∷ []) else raised e

abbrev expiry_state : Result Datetime → Datetime → Result String
expiry_state (ok expires_at) now =
    ok (if leb (instant expires_at) (instant (as_utc now)) then "expired" else "active")
expiry_state (raised e) now = if is_caught e then ok "invalid" else raised e

abbrev state_reasons : String → List String
state_reasons state =
    if state == "expired"
    then reason_waiver_expired ∷ []
    else if state == "revoked"
    then reason_waiver_revoked ∷ []
    else reason_if (not (state == "active")) reason_invalid_waiver

module _ (P : Platform) where
  unfoldable pub parse_timestamp : String → Result Datetime
  parse_timestamp value =
      let text = strip value in
      let iso = if ends_with_code b'Z' text then drop_last text <> "+00:00" else text in
      elim (P.fromisoformat iso) [ none ↦ raised value_error | some d ↦ ok (as_utc d) ]

  -- `parse_timestamp(str(waiver[key]))`
  unfoldable pub timestamp : Fields → String → Result Datetime
  timestamp waiver key = do v ← item waiver key; parse_timestamp (to_text P.repr v)

  abbrev pub severity_of : Fields → String
  severity_of waiver = to_text P.repr (get_or waiver "severity" (str ""))

  -- The reasons about the approver's role and the owner's, who is read only if the role is right.
  unfoldable pub role_reasons : Fields → Fields → Result (List String)
  role_reasons waiver approved_by =
      if not (is_text (get approved_by "role") security_reviewer_role)
      then ok (reason_approver_not_security_reviewer ∷ [])
      else do
        owner ← need_obj (part waiver "owner")
        ok (
            reason_if (is_text (get owner "role") security_reviewer_role)
              reason_approver_is_risk_owner)

  abbrev both_times : Fields → Result (Datetime × Datetime)
  both_times waiver = do
    created_at ← timestamp waiver "created_at"
    expires_at ← timestamp waiver "expires_at"
    ok (created_at, expires_at)

  unfoldable pub time_reasons : Fields → Result (List String)
  time_reasons waiver = times_of (both_times waiver)

  unfoldable pub validate_waiver : Fields → Result (List String)
  validate_waiver waiver = do
    created_by ← need_obj (part waiver "created_by")
    approved_by ← need_obj (part waiver "approved_by")
    roles ← role_reasons waiver approved_by
    times ← time_reasons waiver
    ok (
        reason_if (not (is_waivable (severity_of waiver))) reason_severity_not_waivable
        ++ (reason_if (not (may_manage_waiver created_by)) reason_agent_may_not_create
            ++ (reason_if (not (may_manage_waiver approved_by)) reason_agent_may_not_approve
                ++ (roles ++ times))))

  unfoldable pub waiver_state : Fields → Datetime → Result String
  waiver_state waiver now =
      let status = to_text P.repr (get_or waiver "status" (str "active")) in
      if not (status == "active")
      then ok status
      else expiry_state (timestamp waiver "expires_at") now

  unfoldable pub check_waiver : Fields → Datetime → Result WaiverCheck
  check_waiver waiver now = do
    reasons ← validate_waiver waiver
    state ← waiver_state waiver now
    let all_reasons = reasons ++ state_reasons state
    ok (record { valid = is_empty all_reasons; state = state; reason_codes = all_reasons })

  -- the loop over the matching waivers
  unfoldable pub first_valid : List Fields → Datetime → List String → Result BlockDecision
  first_valid [] now collected =
      ok (record { blocked = true; reason_codes = unique_onto [] collected })
  first_valid (waiver ∷ rest) now collected = do
    check ← check_waiver waiver now
    if check.valid
        then ok (record { blocked = false; reason_codes = [] })
        else first_valid rest now (collected ++ check.reason_codes)

  abbrev matches : String → Fields → Bool
  matches risk_id waiver = to_text P.repr (get_or waiver "risk_id" (str "")) == risk_id

  abbrev medium_risk : List Fields → Datetime → Result BlockDecision
  medium_risk [] now = ok (record { blocked = true; reason_codes = reason_waiver_missing ∷ [] })
  medium_risk (waiver ∷ rest) now = first_valid (waiver ∷ rest) now []

  unfoldable pub evaluate_risk : String → String → List Fields → Datetime → Result BlockDecision
  evaluate_risk risk_id severity waivers now =
      if severity == severity_critical
      then ok (record { blocked = true; reason_codes = reason_critical_never_waived ∷ [] })
      else if severity == severity_high
      then ok (record { blocked = true; reason_codes = reason_high_never_waived ∷ [] })
      else if severity == severity_low
      then ok (record { blocked = false; reason_codes = [] })
      else if not (severity == severity_medium)
      then ok (record { blocked = true; reason_codes = reason_severity_not_waivable ∷ [] })
      else medium_risk (filter (matches risk_id) waivers) now
