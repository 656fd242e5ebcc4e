-- ===== src/Tools/Github.antt =====
-- tools/vcs.py: the defaults of the tool that opens pull requests, which run git and ask GitHub, and its
-- registration.
pub mod Answers
pub mod Replies
pub mod Opened
use ai_dev_project.Prelude.{
  ℕ, String, Bool, true, false, not, ◌||◌, Option, none, some, List, [], ◌∷◌, eqb, if◌then◌else◌,
}
use ai_dev_project.Prelude.Int.{ℤ, pos, negsuc}
use ai_dev_project.Prelude.Text.{◌<>◌, is_blank, split, utf8}
use ai_dev_project.Python.{
  Exn, Result, ok, raised, ◌>>=◌, value_error, os_error, subprocess_error, unicode_decode_error,
}
use ai_dev_project.Json.{
  Value, str, int, arr, obj, cons, Fields, end, field, get, get_or, item, truthy, to_text,
}
use ai_dev_project.Platform.{Platform, Loaded, loaded, bad_json, bad_utf8, plain}
use ai_dev_project.Tools.Schema.{of_type, object_schema, closed}
use ai_dev_project.Tools.Registry.{ToolSpec, ToolRegistry, register}
use ai_dev_project.Tools.Effects.{Act, and_then, lift}
use ai_dev_project.Tools.Workspace.{Workspace}
use ai_dev_project.Tools.OpenPr.{OpenPrTool, open_pr}

-- What `subprocess.run` gives back of a command that has ended.
pub record GitCompleted : Type 0 where
  pub returncode : ℤ
  pub stdout : String

pub record HttpRequest : Type 0 where
  pub method : String
  pub url : String
  pub headers : List (String × String)
  pub body : Option (List ℕ)

-- What `urlopen` and `read` come to: the bytes of the reply, an `HTTPError`, another `URLError`, an
-- `OSError` or a timeout, or an exception of another class.
pub data HttpOutcome : Type 0 where
  replied : List ℕ → HttpOutcome
  http_error : ℕ → HttpOutcome
  unreachable : HttpOutcome
  failed : Exn → HttpOutcome

-- The environment of the process, `urllib`, and `subprocess.run` of a git command in the root.
pub record Github (W : Type 0) : Type 0 where
  pub environ : String → Option String
  pub urlencode : List (String × String) → String
  pub send : HttpRequest → W → HttpOutcome × W
  pub run : List String → W → Result GitCompleted × W

abbrev is_zero : ℤ → Bool
is_zero (pos n) = eqb n 0
is_zero (negsuc n) = false

-- `except (OSError, subprocess.SubprocessError)`, and the test of the exit status
abbrev pub git_output : Result GitCompleted → Result String
git_output (ok c) = if is_zero c.returncode then ok c.stdout else raised value_error
git_output (raised os_error) = raised value_error
git_output (raised subprocess_error) = raised value_error
git_output (raised e) = raised e

abbrev pub github_headers : String → List (String × String)
github_headers token =
    ("Authorization", "Bearer " <> token)
    ∷ ("Accept", "application/vnd.github+json")
    ∷ ("Content-Type", "application/json")
    ∷ ("X-GitHub-Api-Version", "2022-11-28")
    ∷ []

-- `repo.split("/", 1)[0]`
abbrev pub owner_of : String → String
owner_of repo = elim (split b'/' repo) [ [] ↦ "" | owner ∷ _ ↦ owner ]

abbrev pub pulls_url : String → String
pulls_url repo = "https://api.github.com/repos/" <> (repo <> "/pulls")

module _ (P : Platform) {W : Type 0} (x : Github W) where
  -- `_run_git`
  unfoldable pub run_git : List String → Act W String
  run_git argv w = let (r, w') = x.run ("git" ∷ argv) w in (git_output r, w')

  -- `_github_credentials`: the token and the repository
  unfoldable pub github_credentials : Result (String × String)
  github_credentials = elim (x.environ "SDLC_GITHUB_TOKEN") [
    | none ↦ raised value_error
    | some token ↦ elim (x.environ "SDLC_GITHUB_REPOSITORY") [
      | none ↦ raised value_error
      | some repo ↦ if is_blank token || is_blank repo then raised value_error else ok (token, repo)
    ]
  ]

  abbrev pub search_request : String → String → List (String × String) → HttpRequest
  search_request repo branch headers = record {
    method = "GET";
    url =
        pulls_url repo
        <> ("?"
            <> x.urlencode (("state", "open") ∷ ("head", owner_of repo <> (":" <> branch)) ∷ []));
    headers = headers;
    body = none;
  }

  abbrev pub first_url : Value → String
  first_url (arr (cons (obj d) _)) = to_text P.repr (get_or d "html_url" (str ""))
  first_url _ = ""

  -- What a search comes to; `""` where there is no pull request.
  unfoldable pub found_url : HttpOutcome → Result String
  found_url (http_error code) = ok ""
  found_url unreachable = ok ""
  found_url (failed e) = raised e
  found_url (replied raw) = elim (P.loads_bytes raw) [
    | loaded v ↦ ok (first_url v)
    | bad_json ↦ ok ""
    | bad_utf8 ↦ raised unicode_decode_error
  ]

  -- `_find_existing_pull_request`
  unfoldable pub find_existing : String → String → List (String × String) → Act W String
  find_existing repo branch headers w =
      let (r, w') = x.send (search_request repo branch headers) w in (found_url r, w')

  -- The body of the request, which names the branch as `head`.
  unfoldable pub body_of : Fields → Result (List ℕ)
  body_of payload = do
    title ← item payload "title"
    branch ← item payload "branch"
    base ← item payload "base"
    body ← item payload "body"
    let request =
        field "title" title (field "head" branch (field "base" base (field "body" body end)))
    ok (utf8 (P.dumps plain (obj request)))

  abbrev pub creation_request : String → String → List ℕ → HttpRequest
  creation_request token repo body = record {
    method = "POST";
    url = pulls_url repo;
    headers = github_headers token;
    body = some body;
  }

  -- `if not isinstance(data, dict) or not data.get("html_url"): raise ValueError`
  abbrev pub created_url : Value → Result String
  created_url (obj d) = elim (get d "html_url") [
    | none ↦ raised value_error
    | some v ↦ if truthy v then ok (to_text P.repr v) else raised value_error
  ]
  created_url _ = raised value_error

  abbrev pub nonempty : String → Result String
  nonempty url = if is_blank url then raised value_error else ok url

  -- The search for the pull request of the branch, which has to find one.
  unfoldable pub find_for : Fields → String → String → Act W String
  find_for payload token repo = and_then (lift (item payload "branch")) (λ branch.
      and_then (find_existing repo (to_text P.repr branch) (github_headers token))
        (λ url. lift (nonempty url)))

  -- After a refusal: 422 says that the pull request may be there already.
  unfoldable pub after_refusal : Fields → String → String → ℕ → Act W String
  after_refusal payload token repo code =
      if eqb code 422 then find_for payload token repo else lift (raised value_error)

  unfoldable pub after_creation : Fields → String → String → HttpOutcome → Act W String
  after_creation payload token repo (http_error code) = after_refusal payload token repo code
  after_creation payload token repo unreachable = lift (raised value_error)
  after_creation payload token repo (failed e) = lift (raised e)
  after_creation payload token repo (replied raw) = lift (elim (P.loads_bytes raw) [
    | loaded v ↦ created_url v
    | bad_json ↦ raised value_error
    | bad_utf8 ↦ raised unicode_decode_error
  ])

  unfoldable pub create : Fields → String → String → List ℕ → Act W String
  create payload token repo body w =
      let (r, w') = x.send (creation_request token repo body) w in
      after_creation payload token repo r w'

  -- `_open_github_pull_request`
  unfoldable pub open_github_pull_request : Fields → Act W String
  open_github_pull_request payload = and_then (lift github_credentials) (λ credentials.
      and_then (lift (body_of payload)) (λ body. create payload credentials.0 credentials.1 body))

-- `git or _run_git` and `open_pull_request or _open_github_pull_request`, where the caller gives neither
abbrev pub default_tool :
    {W : Type 0} → Platform → Github W → Workspace W → (ℕ → Bool) → OpenPrTool W
default_tool P x ws is_digit = record {
  workspace = ws;
  is_digit = is_digit;
  git = run_git P x;
  open_pull_request = open_github_pull_request P x;
}

abbrev text_property : String → Fields → Fields
text_property name rest = field name (of_type "string") rest

abbrev pub open_pr_schema : Fields
open_pr_schema =
    object_schema ("branch" ∷ "commit_message" ∷ "paths" ∷ [])
      (text_property "branch" (
        field "commit_message"
          (obj (field "type" (str "string") (field "minLength" (int (pos 1)) end)))
          (field "paths"
            (obj (
              field "type" (str "array")
                (field "items" (of_type "string") (field "minItems" (int (pos 1)) end))))
            (text_property "base" (text_property "title" (text_property "body" end))))))
      closed

abbrev pub open_pr_result : Fields
open_pr_result =
    object_schema ("branch" ∷ "commit" ∷ "pr_url" ∷ [])
      (text_property "branch" (text_property "commit" (text_property "pr_url" end))) end

module _ (P : Platform) {W : Type 0} where
  abbrev pub open_pr_spec : OpenPrTool W → ToolSpec W
  open_pr_spec tool = record {
    name = "open_pr";
    scope = "vcs";
    description =
        "Create a feature branch, commit the given paths, push it, and open a "
        <> "pull request against the base branch";
    args_schema = open_pr_schema;
    result_schema = open_pr_result;
    handler = open_pr P tool;
  }

  unfoldable pub register_vcs_tools : OpenPrTool W → ToolRegistry W → Result (ToolRegistry W)
  register_vcs_tools tool = register (open_pr_spec tool)
