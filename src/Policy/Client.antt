-- ===== src/Policy/Client.antt =====
-- policy/client.py. The server is a function from the address and the body of a request to its reply;
-- `none` is a transport error or a timeout.
pub mod FailClosed
use ai_dev_project.Prelude.{
  ℕ, String, Bool, true, false, Option, none, some, List, [], ◌∷◌, ◌==◌, if◌then◌else◌,
}
use ai_dev_project.Prelude.Text.{strip_slashes, ◌<>◌, utf8}
use ai_dev_project.Json.{
  Value, null, bool, int, float, str, arr, obj, Items, nil, cons, Fields, end, field, get, as_str,
  to_list,
}
use ai_dev_project.Platform.{Platform, Loaded, loaded, bad_json, bad_utf8, canonical, plain}
use ai_dev_project.Python.{Result, ok, raised, unicode_decode_error}

abbrev pub reason_allowed : String
reason_allowed = "ALLOWED"

abbrev pub reason_denied : String
reason_denied = "DENIED"

abbrev pub reason_policy_unavailable : String
reason_policy_unavailable = "POLICY_UNAVAILABLE"

abbrev pub reason_policy_malformed : String
reason_policy_malformed = "POLICY_MALFORMED"

pub record PolicyResult : Type 0 where
  pub allow : Bool
  pub reason_codes : List String
  pub policy_bundle_version : String
  pub input_digest : String

-- The base address with no slash at its end, and the label of the policy bundle.
pub record PolicyClient : Type 0 where
  pub base_url : String
  pub bundle_version : String

-- `PolicyClient(base_url=…, bundle_version=…)`
unfoldable pub policy_client : String → String → PolicyClient
unfolding strip_slashes
policy_client base_url bundle_version = record {
  base_url = strip_slashes base_url;
  bundle_version = bundle_version;
}

abbrev pub Server : Type 0
Server = String → List ℕ → Option (List ℕ)

-- `point.replace('-', '_')`
abbrev underscored : String → String
underscored String.[] = ""
underscored (String.◌∷◌ c s) =
    (if String.◌∷◌ c "" == "-" then "_" else String.◌∷◌ c "") <> underscored s

unfoldable pub decision_path : String → String
decision_path point = "v1/data/sdlc/" <> (underscored point <> "/decision")

-- `isinstance(codes, list) and codes and all(isinstance(code, str) for code in codes)`, with the codes
abbrev texts : List Value → Option (List String)
texts [] = some []
texts (v ∷ vs) = elim (as_str v) [
  | none ↦ none
  | some s ↦ elim (texts vs) [ none ↦ none | some rest ↦ some (s ∷ rest) ]
]

abbrev given_codes : Option Value → Option (List String)
given_codes (some (arr (cons v vs))) = texts (v ∷ to_list vs)
given_codes _ = none

abbrev pub default_code : Bool → String
default_code allow = if allow then reason_allowed else reason_denied

module _ (P : Platform) (client : PolicyClient) where
  unfoldable pub compute_input_digest : Fields → String
  compute_input_digest payload = P.sha256 (utf8 (P.dumps canonical (obj payload)))

  abbrev result_of : Bool → List String → String → PolicyResult
  result_of allow codes digest = record {
    allow = allow;
    reason_codes = codes;
    policy_bundle_version = client.bundle_version;
    input_digest = digest;
  }

  abbrev pub fail_closed : String → String → PolicyResult
  fail_closed reason digest = result_of false (reason ∷ []) digest

  -- `_parse` once `result` is known to be a dict whose `allow` is a bool
  with_codes : Bool → Fields → String → PolicyResult
  with_codes allow result digest =
      result_of allow
        (elim (given_codes (get result "reason_codes")) [
          | none ↦ default_code allow ∷ []
          | some codes ↦ codes
        ])
        digest

  read_result : Value → String → PolicyResult
  unfolding with_codes
  read_result (bool b) digest = result_of b (default_code b ∷ []) digest
  read_result (obj result) digest = elim (get result "allow") [
    | some (bool allow) ↦ with_codes allow result digest
    | _ ↦ fail_closed reason_policy_malformed digest
  ]
  read_result _ digest = fail_closed reason_policy_malformed digest

  read_body : Value → String → PolicyResult
  unfolding read_result
  read_body (obj body) digest = elim (get body "result") [
    | none ↦ fail_closed reason_policy_malformed digest
    | some result ↦ read_result result digest
  ]
  read_body _ digest = fail_closed reason_policy_malformed digest

  -- `_parse`, which catches a `JSONDecodeError` and no other exception of `json.loads`
  unfoldable pub parse_reply : List ℕ → String → Result PolicyResult
  unfolding read_body
  parse_reply raw digest = elim (P.loads_bytes raw) [
    | bad_json ↦ ok (fail_closed reason_policy_malformed digest)
    | bad_utf8 ↦ raised unicode_decode_error
    | loaded body ↦ ok (read_body body digest)
  ]

  -- The request of `_build_request`: its address and its body.
  abbrev pub request_url : String → String
  request_url point = client.base_url <> ("/" <> decision_path point)

  abbrev pub request_body : Fields → List ℕ
  request_body payload = utf8 (P.dumps plain (obj (field "input" (obj payload) end)))

  unfoldable pub evaluate : Server → String → Fields → Result PolicyResult
  unfolding parse_reply
  evaluate server point payload =
      let digest = compute_input_digest payload in
      elim (server (request_url point) (request_body payload)) [
        | none ↦ ok (fail_closed reason_policy_unavailable digest)
        | some raw ↦ parse_reply raw digest
      ]
