-- ===== src/Examples/Tokens.antt =====
-- A run, its token, and what becomes of them.
use ai_dev_project.Prelude.{ℕ, String, ◌≡◌, ◌≢◌, ◌↔◌, refl, true, false, none, some, List, [], ◌∷◌}
use ai_dev_project.Prelude.Dict.{lookup, put}
use ai_dev_project.Prelude.Int.{pos, ◌+ℤ◌}
use ai_dev_project.Prelude.Text.{◌<>◌, utf8, is_ascii, split, has_code, strip_equals}
use ai_dev_project.Python.{ok, raised, unicode_encode_error}
use ai_dev_project.Json.{str, Fields, end, field, get}
use ai_dev_project.Runner.Capability.{
  Capability, CapabilityCheck, DecodeResult, sign, decode_payload, decode_token, issue_token,
  b64encode, b64decode, read_payload, decode_parts,
}
use ai_dev_project.Runner.Capability.Decoding.{
  Encodes, raw_of, mac_of, decode_token-issue_token, decode_token_raises,
}
use ai_dev_project.Runner.Registry.{Run, RunRegistry, finish, issue, judge, check, accept}
use ai_dev_project.Runner.Registry.Checks.{Holds, check_sound, check-issue_iff}
use ai_dev_project.Runner.Registry.Revocation.{check-finish}
use ai_dev_project.Examples.World.{platform, capability, letters}

abbrev pub human : Fields
human = field "type" (str "human") end

abbrev pub run : Run
run = record { run_id = "RUN-1"; actor = human; created_at = pos 0; finished = false }

abbrev pub run_2 : Run
run_2 = record { run_id = "RUN-2"; actor = human; created_at = pos 0; finished = true }

abbrev pub secret : List ℕ
secret = 7 ∷ []

abbrev pub registry : RunRegistry
registry = record { secret = secret; runs = ("RUN-1", run) ∷ ("RUN-2", run_2) ∷ [] }

abbrev pub payload_text : String
payload_text = letters (utf8 "run_id")

abbrev pub signature_text : String
signature_text = letters secret

abbrev pub token : String
token = "v1" <> ("." <> (payload_text <> ("." <> signature_text)))

abbrev decoded : DecodeResult
decoded = record { capability = some capability; error = none }

test_payload : Encodes platform (raw_of platform secret capability)
unfolding b64encode b64decode is_ascii has_code strip_equals utf8
test_payload = record { ascii = refl; no_dot = refl; nonblank = refl; decodes = refl }

test_signature : Encodes platform (mac_of platform secret capability)
unfolding b64encode b64decode is_ascii has_code strip_equals utf8
test_signature = record { ascii = refl; no_dot = refl; nonblank = refl; decodes = refl }

test_issue : issue platform registry "RUN-1" "count" "counter" (pos 900) (pos 0) ≡ ok token
unfolding issue lookup issue_token ◌+ℤ◌ sign b64encode utf8 is_ascii strip_equals
test_issue = refl

test_decode : decode_token platform secret token ≡ ok decoded
unfolding decode_token decode_parts sign b64encode utf8 is_ascii strip_equals split decode_payload
    b64decode read_payload get
test_decode = refl

pub test_check : check platform registry token "count" "counter" (pos 5) ≡ ok (accept capability)
unfolding check decode_token decode_parts sign b64encode utf8 is_ascii strip_equals split
    decode_payload b64decode read_payload get judge lookup
test_check = refl

decode_token-issue_token_example :
    (t : String) × (issue_token platform secret capability ≡ ok t)
    × (decode_token platform secret t ≡ ok decoded)
unfolding utf8
decode_token-issue_token_example =
    decode_token-issue_token platform secret capability test_payload test_signature refl

decode_token_raises_example :
    decode_token platform secret (("v1." <> "é") <> ("." <> "abc")) ≡ raised unicode_encode_error
unfolding has_code is_ascii
decode_token_raises_example = decode_token_raises platform secret "é" "abc" refl refl refl refl

check_sound_example :
    (c : Capability) × (e s : String) × (token ≡ "v1" <> ("." <> (e <> ("." <> s))))
    × (sign platform secret ("v1." <> e) ≡ ok s)
    × ((decode_payload platform e).capability ≡ some c)
    × Holds registry c "count" "counter" (pos 5)
    × (accept capability ≡ accept c)
check_sound_example =
    check_sound platform registry token "count" "counter" (pos 5) (accept capability) test_check
      refl

check-issue_iff_example :
    (t : String) × (k : CapabilityCheck) × (issue platform registry "RUN-1" "count" "counter"
        (pos 900)
        (pos 0)
      ≡ ok t)
    × (check platform registry t "count" "counter" (pos 5) ≡ ok k)
    × ((k.valid ≡ true) ↔ Holds registry capability "count" "counter" (pos 5))
unfolding lookup ◌+ℤ◌ utf8
check-issue_iff_example =
    check-issue_iff platform registry registry run "RUN-1" "count" "counter" "count" "counter"
      (pos 900) (pos 0) (pos 5) refl refl refl test_payload test_signature refl

abbrev run_ended : RunRegistry
run_ended = record registry {
  runs = ("RUN-1", record run { finished = true }) ∷ ("RUN-2", run_2) ∷ [];
}

abbrev other_ended : RunRegistry
other_ended = record registry { runs = ("RUN-1", run) ∷ ("RUN-2", run_2) ∷ [] }

test_finish : finish registry "RUN-1" ≡ ok run_ended
unfolding finish lookup put
test_finish = refl

test_finish_other : finish registry "RUN-2" ≡ ok other_ended
unfolding finish lookup put
test_finish_other = refl

check-finish_example : (accept capability).run_id ≢ some "RUN-2"
check-finish_example =
    check-finish platform registry other_ended "RUN-2" test_finish_other token "count" "counter"
      (pos 5) (accept capability) test_check refl
