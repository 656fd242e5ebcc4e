-- ===== src/Tools/Commands.antt =====
-- tools/commands.py. A process acts on the world `W`; `run` is `subprocess.run` without a shell.
use ai_dev_project.Prelude.{
  ℕ, String, ◌≡◌, ◌⊎◌, inl, inr, refl, true, false, not, ◌||◌, Option, none, some, List, [], ◌∷◌,
  ◌==◌, eq_refl, contains, any, map, ltb, if◌then◌else◌, arith,
}
use ai_dev_project.Prelude.Int.{ℤ}
use ai_dev_project.Prelude.Text.{is_blank, has_code, take_chars}
use ai_dev_project.Prelude.TextLaws.{size}
use ai_dev_project.Python.{
  Result, ok, raised, ◌>>=◌, >>=-eq-ok, value_error, type_error, Result-cases,
}
use ai_dev_project.Json.{
  Value, bool, int, str, arr, Fields, end, field, get_or, item, to_text, to_list,
}
use ai_dev_project.Platform.{Platform}
use ai_dev_project.Tools.Workspace.{Workspace, parts_of, within, is_rooted}

abbrev pub default_allowed_programs : List String
default_allowed_programs = "ruff" ∷ "mypy" ∷ "pytest" ∷ "opa" ∷ "gofmt" ∷ "go" ∷ []

abbrev pub max_output_chars : ℕ
max_output_chars = 20000

pub record Completed : Type 0 where
  pub returncode : ℤ
  pub stdout : Option String
  pub stderr : Option String

pub record CommandRunner (W : Type 0) : Type 0 where
  pub workspace : Workspace W
  pub allow : List String
  pub run : List String → List String → W → Result Completed × W

-- `completed.stdout or ""`
abbrev output_text : Option String → String
output_text none = ""
output_text (some s) = s

-- `_validate`; the handler has made a list of texts of the arguments.
unfoldable pub validate_argv : List String → List String → Result (Unit {0})
validate_argv allow [] = raised value_error
validate_argv allow (program ∷ rest) =
    if has_code b'/' program || has_code b'\\' program
    then raised value_error
    else if not (contains allow program)
    then raised value_error
    else if any (has_code 0) (program ∷ rest)
    then raised value_error
    else ok tt

validate_argv_lem :
    (allow argv : List String)
    → validate_argv allow argv ≡ ok tt
    → (program : String) × (rest : List String) × (argv ≡ program ∷ rest)
      × (contains allow program ≡ true)
      × (has_code b'/' program ≡ false)
      × (has_code b'\\' program ≡ false)
      × (any (has_code 0) argv ≡ false)
unfolding validate_argv
validate_argv_lem allow [] h = ground arith
validate_argv_lem allow (program ∷ rest) h =
    (program, rest, refl, ground arith, ground arith, ground arith, ground arith)

unfoldable pub result_of : Completed → Fields
result_of c =
    let stdout = output_text c.stdout in
    let stderr = output_text c.stderr in
    field "exit_code" (int c.returncode) (
      field "stdout" (str (take_chars max_output_chars stdout)) (
        field "stderr" (str (take_chars max_output_chars stderr)) (
          field "truncated"
            (bool (ltb max_output_chars (size stdout) || ltb max_output_chars (size stderr))) end)))

module _ {W : Type 0} (x : CommandRunner W) where
  -- `_resolve_cwd`
  unfoldable pub resolve_cwd : String → W → Result (List String)
  resolve_cwd cwd w =
      if is_blank cwd || cwd == "."
      then ok x.workspace.root
      else if is_rooted cwd || contains (parts_of cwd) ".."
      then raised value_error
      else do
        target ← x.workspace.resolve cwd w
        if not (within x.workspace.root target)
            then raised value_error
            else if not (x.workspace.is_dir target w)
            then raised value_error
            else ok target

  unfoldable pub run_in : List String → Result (List String) → W → Result Fields × W
  run_in argv (raised e) w = (raised e, w)
  run_in argv (ok cwd) w = let (r, w') = x.run argv cwd w in (do c ← r; ok (result_of c), w')

  abbrev pub prepared : List String → String → W → Result (List String)
  prepared argv cwd w = do _ ← validate_argv x.allow argv; resolve_cwd cwd w

  -- `execute`
  unfoldable pub execute_command : List String → String → W → Result Fields × W
  execute_command argv cwd w = run_in argv (prepared argv cwd w) w

  -- `_run_handler`. The schema of the arguments lets only an array through.
  unfoldable pub argv_of : Platform → Value → Result (List String)
  argv_of P (arr items) = ok (map (to_text P.repr) (to_list items))
  argv_of P _ = raised type_error

  unfoldable pub run_handler : Platform → Fields → W → Result Fields × W
  run_handler P args w = elim (item args "argv") [
    | raised e ↦ (raised e, w)
    | ok v ↦ elim (argv_of P v) [
      | raised e ↦ (raised e, w)
      | ok argv ↦ execute_command argv (to_text P.repr (get_or args "cwd" (str ""))) w
    ]
  ]

  within_refl : (root : List String) → within root root ≡ true
  within_refl [] = refl
  within_refl (a ∷ root) = ground (arith, eq_refl a, within_refl root)

  resolve_cwd-within :
      (cwd : String) (w : W) (target : List String)
      → resolve_cwd cwd w ≡ ok target
      → within x.workspace.root target ≡ true
  unfolding resolve_cwd
  resolve_cwd-within cwd w target h = elim (Result-cases (x.workspace.resolve cwd w)) [
    | inr (e, q) ↦ ground (arith, q, within_refl x.workspace.root)
    | inl (found, q) ↦ ground (arith, q, within_refl x.workspace.root)
  ]

  -- Running a command leaves the world alone, or it runs one process: of a program on the allowlist whose
  -- name has no slash and no backslash, with the arguments that were given, in a directory of the root.
  pub world-execute_command :
      (argv : List String) (cwd : String) (w : W)
      → ((execute_command argv cwd w).1 ≡ w)
        ⊎ ((program : String) × (rest directory : List String) × (argv ≡ program ∷ rest)
            × (contains x.allow program ≡ true)
            × (has_code b'/' program ≡ false)
            × (has_code b'\\' program ≡ false)
            × (any (has_code 0) argv ≡ false)
            × (within x.workspace.root directory ≡ true)
            × ((execute_command argv cwd w).1 ≡ (x.run argv directory w).1))
  unfolding execute_command run_in
  world-execute_command argv cwd w = elim (Result-cases (prepared argv cwd w)) [
    | inr (e, q) ↦ inl (rw (q, run_in))
    | inl (directory, q) ↦
        let (_, valid, found) = >>=-eq-ok (validate_argv x.allow argv) _ q in
        let (program, rest, shape, allowed, no_slash, no_backslash, no_nul) =
          validate_argv_lem x.allow argv valid in
        inr (
          program,
          rest,
          directory,
          shape,
          allowed,
          no_slash,
          no_backslash,
          no_nul,
          resolve_cwd-within cwd w directory found,
          rw (q, run_in),
        )
  ]
