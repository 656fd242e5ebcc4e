-- ===== src/Runner/Registry.antt =====
-- runner/registry.py. The time is an argument: `int(time.time())`, or the `now` of the caller.
pub mod Checks
pub mod Revocation
use ai_dev_project.Prelude.{
  ℕ, String, Bool, true, false, not, Option, none, some, List, ◌==◌, if◌then◌else◌,
}
use ai_dev_project.Prelude.Dict.{Dict, lookup, put}
use ai_dev_project.Prelude.Int.{ℤ, ◌+ℤ◌, lt_int}
use ai_dev_project.Prelude.Text.{◌<>◌, is_blank}
use ai_dev_project.Python.{Result, ok, raised, ◌>>=◌, run_unknown_error}
use ai_dev_project.Json.{Fields}
use ai_dev_project.Platform.{Platform}
use ai_dev_project.Runner.Capability.{
  Capability, CapabilityCheck, DecodeResult, issue_token, decode_token, capability_valid,
  reason_run_unknown, reason_run_finished, reason_capability_expired, reason_tool_mismatch,
  reason_scope_mismatch,
}

abbrev pub default_ttl_seconds : ℕ
default_ttl_seconds = 300

pub record Run : Type 0 where
  pub run_id : String
  pub actor : Fields
  pub created_at : ℤ
  pub finished : Bool

pub record RunRegistry : Type 0 where
  pub secret : List ℕ
  pub runs : Dict Run

-- `x or default` for a text that may be missing
abbrev pub text_or : Option String → String → String
text_or none default = default
text_or (some s) default = if is_blank s then default else s

-- `uuid` is the text of `uuid4().hex`
unfoldable pub start : RunRegistry → Fields → Option String → String → ℤ → Run × RunRegistry
start r actor run_id uuid now =
    let run : Run = record {
      run_id = text_or run_id ("RUN-" <> uuid);
      actor = actor;
      created_at = now;
      finished = false;
    } in
    (run, record r { runs = put run.run_id run r.runs })

unfoldable pub get_run : RunRegistry → String → Option Run
get_run r run_id = lookup run_id r.runs

unfoldable pub finish : RunRegistry → String → Result RunRegistry
finish r run_id = elim (lookup run_id r.runs) [
  | none ↦ raised (run_unknown_error run_id)
  | some run ↦ ok (record r { runs = put run_id (record run { finished = true }) r.runs })
]

-- `_reject`
abbrev pub reject : Capability → String → CapabilityCheck
reject c reason = record {
  valid = false;
  reason = reason;
  run_id = some c.run_id;
  tool = some c.tool;
  scope = some c.scope;
}

abbrev pub accept : Capability → CapabilityCheck
accept c = record {
  valid = true;
  reason = capability_valid;
  run_id = some c.run_id;
  tool = some c.tool;
  scope = some c.scope;
}

-- `check` once the token names a capability
unfoldable pub judge : RunRegistry → Capability → String → String → ℤ → CapabilityCheck
judge r c tool scope now = elim (lookup c.run_id r.runs) [
  | none ↦ reject c reason_run_unknown
  | some run ↦
      if run.finished
      then reject c reason_run_finished
      else if lt_int c.expires_at now
      then reject c reason_capability_expired
      else if not (c.tool == tool)
      then reject c reason_tool_mismatch
      else if not (c.scope == scope)
      then reject c reason_scope_mismatch
      else accept c
]

check_decoded : RunRegistry → DecodeResult → String → String → ℤ → CapabilityCheck
check_decoded r decoded tool scope now = elim decoded.capability [
  | none ↦ record {
    valid = false;
    reason = text_or decoded.error reason_run_unknown;
    run_id = none;
    tool = none;
    scope = none;
  }
  | some c ↦ judge r c tool scope now
]

module _ (P : Platform) (r : RunRegistry) where
  unfoldable pub issue : String → String → String → ℤ → ℤ → Result String
  issue run_id tool scope ttl_seconds issued_at = elim (lookup run_id r.runs) [
    | none ↦ raised (run_unknown_error run_id)
    | some run ↦
        if run.finished
        then raised (run_unknown_error run_id)
        else issue_token P r.secret (record {
          run_id = run_id;
          tool = tool;
          scope = scope;
          expires_at = issued_at +ℤ ttl_seconds;
        })
  ]

  unfoldable pub check : String → String → String → ℤ → Result CapabilityCheck
  unfolding check_decoded
  check token tool scope now = do
    decoded ← decode_token P r.secret token
    ok (check_decoded r decoded tool scope now)
