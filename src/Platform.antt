-- ===== src/Platform.antt =====
-- What the control plane calls and does not implement: hashing, HMAC, base64, compression, and the
-- JSON reader and printer. They are parameters; what a theorem needs of them is a named hypothesis.
use ai_dev_project.Prelude.{ℕ, String, Bool, true, false, Option, List}
use ai_dev_project.Json.{Value}

-- The keyword arguments of `json.dumps` that the program varies.
pub record Style : Type 0 where
  pub sort_keys : Bool
  pub compact : Bool
  pub ensure_ascii : Bool

-- `sort_keys=True, separators=(",", ":"), ensure_ascii=False`
abbrev pub canonical : Style
canonical = record { sort_keys = true; compact = true; ensure_ascii = false }

-- `sort_keys=True, separators=(",", ":")`
abbrev pub token_style : Style
token_style = record { sort_keys = true; compact = true; ensure_ascii = true }

-- `sort_keys=True, ensure_ascii=False`
abbrev pub audit_style : Style
audit_style = record { sort_keys = true; compact = false; ensure_ascii = false }

abbrev pub plain : Style
plain = record { sort_keys = false; compact = false; ensure_ascii = true }

abbrev pub plain_utf8 : Style
plain_utf8 = record { sort_keys = false; compact = false; ensure_ascii = false }

-- `json.loads` of bytes: a value, a `JSONDecodeError`, or a `UnicodeDecodeError`.
pub data Loaded : Type 0 where
  loaded : Value → Loaded
  bad_json bad_utf8 : Loaded

-- A `datetime`, in microseconds from one origin: `naive` has no zone and holds its reading of the
-- clock, `aware` the instant. The origin lies before every instant that `fromisoformat` can give.
pub data Datetime : Type 0 where
  naive aware : ℕ → Datetime

pub record Platform : Type 0 where
  -- `datetime.fromisoformat`; `none` is a `ValueError`
  pub fromisoformat : String → Option Datetime
  -- `repr`, which is also `str` of a list or a dict
  pub repr : Value → String
  -- `none` is a `JSONDecodeError`
  pub dumps : Style → Value → String
  pub loads : String → Option Value
  pub loads_bytes : List ℕ → Loaded
  -- `hashlib.sha256(data).hexdigest()`
  pub sha256 : List ℕ → String
  -- `hmac.new(secret, message, hashlib.sha256).digest()`
  pub hmac_sha256 : List ℕ → List ℕ → List ℕ
  -- `_b64encode` and `_b64decode` of runner/capability.py call these; `none` is a `binascii.Error`
  pub urlsafe_b64encode : List ℕ → String
  pub urlsafe_b64decode : String → Option (List ℕ)
  -- `zlib.compress(data, level=9)`
  pub compress : List ℕ → List ℕ
  -- `data.decode("utf-8", errors="replace")`
  pub decode_replace : List ℕ → String
