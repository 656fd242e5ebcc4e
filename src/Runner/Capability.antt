-- ===== src/Runner/Capability.antt =====
-- runner/capability.py
pub mod Decoding
use ai_dev_project.Prelude.{
  ℕ, ◌-◌, ◌%◌, String, Bool, true, false, not, ◌&&◌, ◌||◌, Option, none, some, List, [], ◌∷◌, ◌==◌,
  eqb, if◌then◌else◌,
}
use ai_dev_project.Prelude.Int.{ℤ}
use ai_dev_project.Prelude.Text.{◌<>◌, utf8, is_ascii, is_blank, split, strip_equals}
use ai_dev_project.Prelude.TextLaws.{size}
use ai_dev_project.Python.{Result, ok, raised, ◌>>=◌, unicode_encode_error, type_error}
use ai_dev_project.Json.{Value, int, str, obj, Fields, end, field, get, as_str, as_int}
use ai_dev_project.Platform.{Platform, Loaded, loaded, token_style}

abbrev pub token_version : String
token_version = "v1"

abbrev pub capability_valid : String
capability_valid = "CAPABILITY_VALID"

abbrev pub reason_malformed_token : String
reason_malformed_token = "MALFORMED_TOKEN"

abbrev pub reason_signature_invalid : String
reason_signature_invalid = "SIGNATURE_INVALID"

abbrev pub reason_run_unknown : String
reason_run_unknown = "RUN_UNKNOWN"

abbrev pub reason_run_finished : String
reason_run_finished = "RUN_FINISHED"

abbrev pub reason_capability_expired : String
reason_capability_expired = "CAPABILITY_EXPIRED"

abbrev pub reason_tool_mismatch : String
reason_tool_mismatch = "TOOL_NOT_ALLOWED"

abbrev pub reason_scope_mismatch : String
reason_scope_mismatch = "SCOPE_MISMATCH"

pub record Capability : Type 0 where
  pub run_id : String
  pub tool : String
  pub scope : String
  pub expires_at : ℤ

pub record CapabilityCheck : Type 0 where
  pub valid : Bool
  pub reason : String
  pub run_id : Option String
  pub tool : Option String
  pub scope : Option String

pub record DecodeResult : Type 0 where
  pub capability : Option Capability
  pub error : Option String

abbrev pub decode_failed : String → DecodeResult
decode_failed reason = record { capability = none; error = some reason }

-- `"=" * (-len(text) % 4)`
abbrev padding : ℕ → String
padding n =
    let k = (4 - n % 4) % 4 in
    if eqb k 0 then "" else if eqb k 1 then "=" else if eqb k 2 then "==" else "==="

-- `hmac.compare_digest` of two texts, which takes ASCII texts only
abbrev pub same_digest : String → String → Result Bool
same_digest a b = if is_ascii a && is_ascii b then ok (a == b) else raised type_error

-- The claims, as the dict literal of `issue_token`.
abbrev pub claims : Capability → Fields
claims c =
    field "run_id" (str c.run_id)
      (field "tool" (str c.tool) (field "scope" (str c.scope) (field "exp" (int c.expires_at) end)))

-- A payload names a capability if its four claims have their types.
abbrev pub capability_of :
    Option Value → Option Value → Option Value → Option Value → Option Capability
capability_of (some (str run_id)) (some (str tool)) (some (str scope)) (some (int exp)) =
    some (record { run_id = run_id; tool = tool; scope = scope; expires_at = exp })
capability_of _ _ _ _ = none

module _ (P : Platform) where
  -- `_b64encode`
  unfoldable pub b64encode : List ℕ → String
  b64encode bytes = strip_equals (P.urlsafe_b64encode bytes)

  -- `_b64decode`; `none` is a `binascii.Error`
  unfoldable pub b64decode : String → Option (List ℕ)
  b64decode text = P.urlsafe_b64decode (text <> padding (size text))

  -- `_sign`, which encodes its text as ASCII
  unfoldable pub sign : List ℕ → String → Result String
  sign secret signing_input =
      if is_ascii signing_input
      then ok (b64encode (P.hmac_sha256 secret (utf8 signing_input)))
      else raised unicode_encode_error

  unfoldable pub issue_token : List ℕ → Capability → Result String
  issue_token secret c =
      let raw = utf8 (P.dumps token_style (obj (claims c))) in
      let signing_input = "v1." <> b64encode raw in
      do signature ← sign secret signing_input; ok (signing_input <> ("." <> signature))

  -- the payload of a token whose signature has been verified
  unfoldable pub read_payload : Loaded → DecodeResult
  read_payload (loaded (obj d)) =
      elim (capability_of (get d "run_id") (get d "tool") (get d "scope") (get d "exp")) [
        | none ↦ decode_failed reason_malformed_token
        | some c ↦ record { capability = some c; error = none }
      ]
  read_payload _ = decode_failed reason_malformed_token

  unfoldable pub decode_payload : String → DecodeResult
  decode_payload encoded = elim (b64decode encoded) [
    | none ↦ decode_failed reason_malformed_token
    | some raw ↦ read_payload (P.loads_bytes raw)
  ]

  unfoldable pub decode_parts : List ℕ → List String → Result DecodeResult
  decode_parts secret (version ∷ encoded ∷ signature ∷ []) =
      if not (version == token_version) || is_blank encoded || is_blank signature
      then ok (decode_failed reason_malformed_token)
      else do
        expected ← sign secret ("v1." <> encoded)
        same ← same_digest expected signature
        ok (if same then decode_payload encoded else decode_failed reason_signature_invalid)
  decode_parts secret _ = ok (decode_failed reason_malformed_token)

  unfoldable pub decode_token : List ℕ → String → Result DecodeResult
  decode_token secret token = decode_parts secret (split b'.' token)
