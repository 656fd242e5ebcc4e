-- ===== src/Examples/Github.antt =====
-- A GitHub that refuses to create the pull request and has it already.
use ai_dev_project.Prelude.{ℕ, suc, String, ◌≡◌, ◌↔◌, refl, some, [], ◌==◌, if◌then◌else◌}
use ai_dev_project.Prelude.Int.{pos}
use ai_dev_project.Python.{ok}
use ai_dev_project.Json.{Value, str, arr, obj, nil, cons, Fields, end, field, get, item, to_text}
use ai_dev_project.Platform.{Platform, loaded}
use ai_dev_project.Tools.Github.{
  Github, http_error, replied, github_credentials, body_of, find_existing, found_url,
  after_creation, after_refusal, find_for, create, open_github_pull_request,
}
use ai_dev_project.Tools.Github.Replies.{Credentials, creation, Opened}
use ai_dev_project.Tools.Github.Opened.{Wanted, open_github_pull_request_iff}
use ai_dev_project.Examples.World.{platform}

abbrev url : String
url = "https://pr/7"

abbrev reading : Platform
reading = record platform {
  loads_bytes = λ raw. loaded (arr (cons (obj (field "html_url" (str url) end)) nil));
}

abbrev github : Github ℕ
github = record {
  environ = λ name. if name == "SDLC_GITHUB_TOKEN" then some "secret" else some "owner/repo";
  urlencode = λ query. "query";
  send = λ q n. (if q.method == "POST" then http_error 422 else replied [], suc n);
  run = λ argv n. (ok (record { returncode = pos 0; stdout = "" }), suc n);
}

abbrev payload : Fields
payload =
    field "branch" (str "feature/FEAT-1-TASK-1-x")
      (field "base" (str "main") (field "title" (str "Add x") (field "body" (str "") end)))

open_github_pull_request_iff_example :
    ((open_github_pull_request reading github payload 0).0 ≡ ok url) ↔ (
      (token repo : String) × (title branch base body : Value) × Credentials reading github token
        repo
      × Wanted reading github payload title branch base body
      × Opened reading github token repo branch
          (github.send (creation reading github token repo title branch base body) 0).0
          (github.send (creation reading github token repo title branch base body) 0).1
          url)
open_github_pull_request_iff_example = open_github_pull_request_iff reading github payload url 0

-- The second request finds it.
test_open : open_github_pull_request reading github payload 0 ≡ (ok url, 2)
unfolding open_github_pull_request github_credentials body_of item get create after_creation
    after_refusal find_for find_existing found_url to_text
test_open = refl
