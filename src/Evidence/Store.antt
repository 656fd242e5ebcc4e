-- ===== src/Evidence/Store.antt =====
-- evidence/store.py. The directory is a dict from file name to bytes; the operating system's own
-- errors, and digests that are no plain file name, are left out.
use ai_dev_project.Prelude.{ℕ, String, none, some, List, if◌then◌else◌}
use ai_dev_project.Prelude.Dict.{Dict, lookup, put as set_key}
use ai_dev_project.Prelude.Text.{begins_with, drop_chars}
use ai_dev_project.Python.{Result, ok, raised, key_error, value_error}
use ai_dev_project.Platform.{Platform}

abbrev pub EvidenceStore : Type 0
EvidenceStore = Dict (List ℕ)

-- `get`
unfoldable pub read_bytes : String → EvidenceStore → Result (List ℕ)
read_bytes digest s = elim (lookup digest s) [ none ↦ raised key_error | some b ↦ ok b ]

abbrev pub handle_prefix : String
handle_prefix = "sha256:"

unfoldable pub resolve : String → EvidenceStore → Result (List ℕ)
unfolding read_bytes begins_with drop_chars
resolve handle s =
    if begins_with handle handle_prefix
    then read_bytes (drop_chars 7 handle) s
    else raised value_error

module _ (P : Platform) where
  -- `put`
  unfoldable pub store_bytes : List ℕ → EvidenceStore → String × EvidenceStore
  store_bytes bytes s = let digest = P.sha256 bytes in (digest, set_key digest bytes s)
