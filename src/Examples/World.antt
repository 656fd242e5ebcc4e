-- ===== src/Examples/World.antt =====
-- A platform that computes: base64 writes eight letters for a byte, one for each bit, the hash is the
-- same text, the MAC is the secret with the first byte of the message, and JSON knows a few texts.
use Prim.Native.Char.{code}
use ai_dev_project.Prelude.{
  ℕ, zero, suc, ◌+◌, ◌*◌, ◌/◌, ◌%◌, String, true, false, Option, none, some, List, [], ◌∷◌, ◌==◌,
  eqb, if◌then◌else◌,
}
use ai_dev_project.Prelude.Int.{pos}
use ai_dev_project.Prelude.Text.{◌<>◌}
use ai_dev_project.Json.{Value, bool, obj, end, field}
use ai_dev_project.Platform.{Platform, Loaded, loaded, bad_json, bad_utf8, Datetime, naive, aware}
use ai_dev_project.Runner.Capability.{Capability}
use ai_dev_project.Runner.Capability.Decoding.{sorted_claims}

abbrev letters_of : ℕ → ℕ → String
letters_of zero n = ""
letters_of (suc k) n = letters_of k (n / 2) <> (if eqb (n % 2) 0 then "a" else "b")

abbrev pub letters : List ℕ → String
letters [] = ""
letters (n ∷ ns) = letters_of 8 n <> letters ns

-- Reads `left` more bits into the byte `acc`.
abbrev bits : ℕ → ℕ → String → List ℕ
bits left acc String.[] = []
bits (suc (suc left)) acc (String.◌∷◌ c s) =
    bits (suc left) (2 * acc + (if eqb (code c) b'b' then 1 else 0)) s
bits _ acc (String.◌∷◌ c s) =
    let rest = bits 8 0 s in
    if eqb (code c) b'=' then [] else (2 * acc + (if eqb (code c) b'b' then 1 else 0)) ∷ rest

abbrev first_byte : List ℕ → List ℕ
first_byte [] = []
first_byte (n ∷ ns) = n ∷ []

abbrev first_key : Value → String
first_key (obj (field k v d)) = k
first_key _ = "{}"

abbrev pub capability : Capability
capability = record { run_id = "RUN-1"; tool = "count"; scope = "counter"; expires_at = pos 900 }

abbrev reply : ℕ → Loaded
reply n =
    if eqb n b'r'
    then loaded (obj (sorted_claims capability))
    else if eqb n b'1'
    then loaded (obj (field "result" (bool true) end))
    else if eqb n b'0'
    then loaded (obj (field "result" (obj (field "allow" (bool false) end)) end))
    else if eqb n 255
    then bad_utf8
    else bad_json

abbrev reply_to : List ℕ → Loaded
reply_to [] = bad_json
reply_to (n ∷ ns) = reply n

abbrev read_time : String → Option Datetime
read_time s =
    if s == "2026-01-01"
    then some (naive 100)
    else if s == "2026-02-01T00:00:00+00:00"
    then some (aware 200)
    else none

abbrev pub platform : Platform
platform = record {
  fromisoformat = read_time;
  repr = first_key;
  dumps = λ style v. first_key v;
  loads = λ s. none;
  loads_bytes = reply_to;
  sha256 = letters;
  hmac_sha256 = λ secret message. secret;
  urlsafe_b64encode = letters;
  urlsafe_b64decode = λ s. some (bits 8 0 s);
  compress = first_byte;
  decode_replace = letters;
}
