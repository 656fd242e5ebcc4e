-- ===== src/Tools/OpenPr.antt =====
-- tools/vcs.py. `git` runs one command in the root, `open_pull_request` makes the request to GitHub.
pub mod Guards
use ai_dev_project.Prelude.{
  ℕ, String, Bool, true, false, not, ◌&&◌, ◌||◌, Option, none, some, List, [], ◌∷◌, ◌++◌, ◌==◌, any,
  eqb, leb, is_empty, if◌then◌else◌,
}
use ai_dev_project.Prelude.Text.{
  ◌<>◌, is_blank, begins_with, drop_chars, drop_last, ends_with_code, split, split_lines, join,
  strip, has_part, replace_code, all_codes, first_code_is,
}
use ai_dev_project.Python.{Exn, Result, ok, raised, ◌>>=◌, value_error, type_error, index_error}
use ai_dev_project.Json.{
  Value, str, arr, Items, nil, cons, Fields, end, field, get, item, truthy, to_text,
}
use ai_dev_project.Platform.{Platform}
use ai_dev_project.Tools.Workspace.{Workspace, confine}
use ai_dev_project.Tools.Effects.{Act, and_then, lift}

abbrev pub protected_path_markers : List String
protected_path_markers =
    ".github/" ∷ "contracts/" ∷ "policies/" ∷ "security/" ∷ "infra/" ∷ "specs/" ∷ ".opencode/"
    ∷ "docs/adr/" ∷ "docs/roadmap.md" ∷ "baseline.json" ∷ "ARCHITECTURE_BASELINE.md" ∷ []

-- `is_digit` is `\d` of the regular expression, which knows the decimal digits of all scripts.
pub record OpenPrTool (W : Type 0) : Type 0 where
  pub workspace : Workspace W
  pub is_digit : ℕ → Bool
  pub git : List String → Act W String
  pub open_pull_request : Fields → Act W String

abbrev is_upper : ℕ → Bool
is_upper c = leb b'A' c && leb c b'Z'

abbrev is_ascii_digit : ℕ → Bool
is_ascii_digit c = leb b'0' c && leb c b'9'

abbrev is_slug_start : ℕ → Bool
is_slug_start c = (leb b'a' c && leb c b'z') || is_ascii_digit c

-- `[A-Z][A-Z0-9]*`
abbrev is_key : String → Bool
is_key s = first_code_is is_upper s && all_codes (λ c. is_upper c || is_ascii_digit c) s

-- `[a-z0-9][a-z0-9-]*$`, where `$` also stands before a line feed at the end
abbrev is_slug : String → Bool
is_slug s =
    let body = if ends_with_code 10 s then drop_last s else s in
    first_code_is is_slug_start body && all_codes (λ c. is_slug_start c || eqb c b'-') body

abbrev is_number : (ℕ → Bool) → String → Bool
is_number is_digit s = not (is_blank s) && all_codes is_digit s

abbrev matches_parts : (ℕ → Bool) → List String → Bool
matches_parts is_digit (feature ∷ number ∷ task ∷ task_number ∷ slug) =
    is_key feature
    && (is_number is_digit number
        && (is_key task && (is_number is_digit task_number && is_slug (join "-" slug))))
matches_parts is_digit _ = false

-- `BRANCH_PATTERN.match(branch)`: no part before the slug can have a hyphen.
unfoldable pub matches_branch : (ℕ → Bool) → String → Bool
matches_branch is_digit branch =
    begins_with branch "feature/" && matches_parts is_digit (split b'-' (drop_chars 8 branch))

-- whether `_reject_protected` raises at one of its markers
unfoldable pub is_protected : String → Bool
is_protected path =
    any (λ marker. has_part (replace_code b'\\' "/" path) marker) protected_path_markers

abbrev first_line : String → Result String
first_line message = elim (split_lines message) [ [] ↦ raised index_error | line ∷ lines ↦ ok line ]

-- `str(args.get(key) or default)`
abbrev given_or : Platform → Fields → String → String → String
given_or P args key default = elim (get args key) [
  | none ↦ default
  | some v ↦ if truthy v then to_text P.repr v else default
]

-- `str(args.get("title") or message.splitlines()[0])`
abbrev title_of : Platform → Fields → String → Result String
title_of P args message = elim (get args "title") [
  | none ↦ first_line message
  | some v ↦ if truthy v then ok (to_text P.repr v) else first_line message
]

-- `str(args.get("base") or "main").strip() or "main"`
abbrev base_of : Platform → Fields → String
base_of P args =
    let base = strip (given_or P args "base" "main") in if is_blank base then "main" else base

-- What a request comes to before git is called.
pub record Plan : Type 0 where
  pub branch : String
  pub message : String
  pub paths : List String
  pub base : String

module _ (P : Platform) {W : Type 0} (x : OpenPrTool W) where
  -- `[self._confine(str(path)) for path in args["paths"]]`. The schema lets only an array through.
  unfoldable pub confine_items : Items → W → Result (List String)
  confine_items nil w = ok []
  confine_items (cons v vs) w = do
    _ ← confine x.workspace (to_text P.repr v) w
    rest ← confine_items vs w
    ok (replace_code b'\\' "/" (to_text P.repr v) ∷ rest)

  abbrev confine_paths : Value → W → Result (List String)
  confine_paths (arr items) w = confine_items items w
  confine_paths _ w = raised type_error

  -- The tests of `__call__`, in their order.
  unfoldable pub plan_of : Fields → W → Result Plan
  plan_of args w = do
    branch ← item args "branch"
    if not (matches_branch x.is_digit (to_text P.repr branch)) then raised value_error else do
      message ← item args "commit_message"
      if is_blank (strip (to_text P.repr message)) then raised value_error else do
        given ← item args "paths"
        paths ← confine_paths given w
        if is_empty paths
            then raised value_error
            else if any is_protected paths
            then raised value_error
            else ok (record {
              branch = to_text P.repr branch;
              message = to_text P.repr message;
              paths = paths;
              base = base_of P args;
            })

  -- `_switch`
  unfoldable pub switch : String → Act W String
  switch branch = and_then (x.git ("branch" ∷ "--list" ∷ branch ∷ [])) (λ listed.
      if is_blank (strip listed)
      then x.git ("switch" ∷ "-c" ∷ branch ∷ [])
      else x.git ("switch" ∷ branch ∷ []))

  -- `if self._git(["diff", …]).strip(): self._git(["commit", …])`
  unfoldable pub commit_staged : String → Act W String
  commit_staged message = and_then (x.git ("diff" ∷ "--cached" ∷ "--name-only" ∷ [])) (λ staged.
      if is_blank (strip staged) then lift (ok "") else x.git ("commit" ∷ "-m" ∷ message ∷ []))

  abbrev pull_request : Plan → String → String → Fields
  pull_request plan title body =
      field "branch" (str plan.branch)
        (field "base" (str plan.base) (field "title" (str title) (field "body" (str body) end)))

  -- What follows the tests.
  unfoldable pub land : Fields → Plan → Act W Fields
  land args plan = and_then (switch plan.branch) (λ _.
      and_then (x.git ("add" ∷ "--" ∷ plan.paths)) (λ _. and_then (commit_staged plan.message) (λ _.
        and_then (x.git ("push" ∷ "-u" ∷ "origin" ∷ plan.branch ∷ [])) (λ _.
          and_then (x.git ("rev-parse" ∷ "HEAD" ∷ [])) (λ head.
            and_then (lift (title_of P args plan.message)) (λ title.
              and_then (x.open_pull_request (pull_request plan title (given_or P args "body" "")))
                (λ url. lift (
                  ok (
                    field "branch" (str plan.branch)
                      (field "commit" (str (strip head)) (field "pr_url" (str url) end)))))))))))

  unfoldable pub proceed : Fields → Result Plan → Act W Fields
  proceed args (raised e) w = (raised e, w)
  proceed args (ok plan) w = land args plan w

  -- `OpenPRTool.__call__`
  unfoldable pub open_pr : Fields → Act W Fields
  open_pr args w = proceed args (plan_of args w) w
