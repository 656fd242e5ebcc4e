-- ===== src/Examples/Storage.antt =====
-- Tool output that is stored, and its bounded view.
use ai_dev_project.Prelude.{
  ◌⊎◌, ℕ, ◌≡◌, ◌≤◌, ◌<◌, String, true, false, none, some, List, [], ◌∷◌, ◌++◌, length, arith,
  eq_iff,
}
use ai_dev_project.Prelude.Dict.{lookup}
use ai_dev_project.Prelude.Int.{pos}
use ai_dev_project.Prelude.Text.{◌<>◌, utf8}
use ai_dev_project.Python.{ok, raised, sensitive_content_error}
use ai_dev_project.Json.{nil, str, end, get}
use ai_dev_project.Trust.{untrusted, is_sensitive}
use ai_dev_project.Evidence.Store.{EvidenceStore, resolve}
use ai_dev_project.Evidence.Compression.{compress_for_context, marker}
use ai_dev_project.Evidence.Output.{OutputArgs, ToolOutputResult, process_tool_output}
use ai_dev_project.Evidence.Recovery.{
  IsAddressed, process_tool_output_recovers, process_tool_output-IsAddressed,
}
use ai_dev_project.Evidence.Excerpt.{compress_for_context_bounded}
use ai_dev_project.Examples.World.{platform, letters}

abbrev args : OutputArgs
args = record {
  action = "tool.count";
  actor = end;
  run_id = "RUN-1";
  artifact_id = "EV-1";
  created_at = "2026-01-01";
  tier = untrusted;
  sensitivity = "none";
  max_bytes = 4;
  artifact_ref = none;
  policy_decision_ref = none;
  links = nil;
}

abbrev old : List ℕ
old = b'o' ∷ b'l' ∷ []

abbrev store : EvidenceStore
store = (letters old, old) ∷ []

process_tool_output_recovers_example :
    (is_sensitive untrusted ≡ true
      → ((process_tool_output platform "output" args store).0 ≡ raised sensitive_content_error)
        × ((process_tool_output platform "output" args store).1 ≡ store))
    × (is_sensitive untrusted ≡ false
        → (out : ToolOutputResult) × ((process_tool_output platform "output" args store).0 ≡ ok out)
          × (out.digest ≡ platform.sha256 (utf8 "output"))
          × (resolve
                ("sha256:" <> platform.sha256 (utf8 "output"))
                (process_tool_output platform "output" args store).1
              ≡ ok (utf8 "output"))
          × (get out.evidence "artifact_digest" ≡ some (str (platform.sha256 (utf8 "output"))))
          × (args.artifact_ref ≡ none
              → get out.evidence "artifact_ref"
                ≡ some (str ("sha256:" <> platform.sha256 (utf8 "output")))))
process_tool_output_recovers_example = process_tool_output_recovers platform "output" args store

store-IsAddressed : IsAddressed platform store
unfolding lookup
store-IsAddressed = record { at = λ k b h. ground (arith, eq_iff (letters old) k) }

process_tool_output-IsAddressed_example :
    let s' = (process_tool_output platform "output" args store).1 in
    IsAddressed platform s'
    × ((k : String) (c : List ℕ)
        → lookup k store ≡ some c
        → (lookup k s' ≡ some c)
          ⊎ ((platform.sha256 c ≡ platform.sha256 (utf8 "output"))
              × (lookup k s' ≡ some (utf8 "output"))))
process_tool_output-IsAddressed_example =
    process_tool_output-IsAddressed platform "output" args store store-IsAddressed

compress_for_context_bounded_example :
    (length (utf8 "output") ≤ 4
      → ((compress_for_context platform "output" untrusted 4 2).applied ≡ false)
        × ((compress_for_context platform "output" untrusted 4 2).original_size_bytes
            ≡ length (utf8 "output"))
        × ((compress_for_context platform "output" untrusted 4 2).compressed_size_bytes
            ≡ length (utf8 "output"))
        × ((compress_for_context platform "output" untrusted 4 2).context_text ≡ "output"))
    × (4 < length (utf8 "output")
        → ((compress_for_context platform "output" untrusted 4 2).applied ≡ true)
          × ((compress_for_context platform "output" untrusted 4 2).original_size_bytes
              ≡ length (utf8 "output"))
          × ((compress_for_context platform "output" untrusted 4 2).compressed_size_bytes
              ≡ length (platform.compress (utf8 "output")))
          × ((head middle tail : List ℕ) × (utf8 "output" ≡ head ++ (middle ++ tail))
              × (length head ≡ 2)
              × (length tail ≡ 2)
              × ((compress_for_context platform "output" untrusted 4 2).context_text
                  ≡ platform.decode_replace
                      (head ++ (utf8 (marker (pos (length middle))) ++ tail)))))
compress_for_context_bounded_example =
    compress_for_context_bounded platform "output" 4 2 (omega arith) (omega arith)
