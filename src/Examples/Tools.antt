-- ===== src/Examples/Tools.antt =====
-- The tools on a file system that is a list of written files, where a path resolves to its own parts.
use ai_dev_project.Prelude.{
  ℕ, String, ◌≡◌, ◌⊎◌, refl, Bool, true, false, none, some, List, [], ◌∷◌, ◌++◌, any, contains, leb,
  ◌&&◌,
}
use ai_dev_project.Prelude.Int.{pos}
use ai_dev_project.Prelude.Text.{
  has_code, has_part, begins_with, drop_chars, split, join, ends_with_code, drop_last, all_codes,
  replace_code,
}
use ai_dev_project.Python.{ok}
use ai_dev_project.Json.{str, arr, nil, cons, Fields, end, field}
use ai_dev_project.Tools.Workspace.{Workspace, parts_of, within}
use ai_dev_project.Tools.Commands.{
  CommandRunner, default_allowed_programs, execute_command, world-execute_command,
}
use ai_dev_project.Tools.OpenPr.{OpenPrTool, matches_branch, is_protected}

abbrev pub Disk : Type 0
Disk = List (List String × List ℕ)

abbrev root : List String
root = "home" ∷ "work" ∷ []

abbrev pub workspace : Workspace Disk
workspace = record {
  root = root;
  resolve = λ path w. ok (root ++ parts_of path);
  is_dir = λ path w. true;
  write_bytes = λ path bytes w. (ok tt, (path, bytes) ∷ w);
}

abbrev commands : CommandRunner Disk
commands = record {
  workspace = workspace;
  allow = default_allowed_programs;
  run = λ argv cwd w.
      (ok (record { returncode = pos 0; stdout = some "ok"; stderr = none }), (cwd, []) ∷ w);
}

world-execute_command_example :
    ((execute_command commands ("pytest" ∷ "-q" ∷ []) "src" []).1 ≡ [])
    ⊎ ((program : String) × (rest directory : List String) × ("pytest" ∷ "-q" ∷ [] ≡ program ∷ rest)
        × (contains default_allowed_programs program ≡ true)
        × (has_code b'/' program ≡ false)
        × (has_code b'\\' program ≡ false)
        × (any (has_code 0) ("pytest" ∷ "-q" ∷ []) ≡ false)
        × (within root directory ≡ true)
        × ((execute_command commands ("pytest" ∷ "-q" ∷ []) "src" []).1
            ≡ (commands.run ("pytest" ∷ "-q" ∷ []) directory []).1))
world-execute_command_example = world-execute_command commands ("pytest" ∷ "-q" ∷ []) "src" []

abbrev is_digit : ℕ → Bool
is_digit c = leb b'0' c && leb c b'9'

abbrev tool : OpenPrTool Disk
tool = record {
  workspace = workspace;
  is_digit = is_digit;
  git = λ argv w. (ok "abc", (argv, []) ∷ w);
  open_pull_request = λ payload w. (ok "https://pr", w);
}

abbrev args : Fields
args =
    field "branch" (str "feature/FEAT-1-TASK-2-slug")
      (field "commit_message" (str "Add it") (field "paths" (arr (cons (str "src/a.py") nil)) end))

test_branch : matches_branch is_digit "feature/FEAT-0006-TASK-0009-open-pr-tool" ≡ true
unfolding matches_branch begins_with drop_chars split join ends_with_code drop_last all_codes
test_branch = refl

-- A line feed at the end of a branch is let through.
test_branch_feed : matches_branch is_digit "feature/FEAT-0006-TASK-0009-open-pr-tool\n" ≡ true
unfolding matches_branch begins_with drop_chars split join ends_with_code drop_last all_codes
test_branch_feed = refl

test_protected : is_protected "docs/adr/0001.md" ≡ true
unfolding is_protected has_part begins_with replace_code
test_protected = refl

-- The same file, spelled with a dot in between, is not seen to be protected.
test_dotted : is_protected "docs/./adr/0001.md" ≡ false
unfolding is_protected has_part begins_with replace_code
test_dotted = refl

test_dotted_parts : parts_of "docs/./adr/0001.md" ≡ parts_of "docs/adr/0001.md"
unfolding split
test_dotted_parts = refl
