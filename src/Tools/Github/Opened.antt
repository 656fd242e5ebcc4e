-- ===== src/Tools/Github/Opened.antt =====
-- When a pull request is opened on GitHub, told by its requests and replies.
use ai_dev_project.Prelude.{ℕ, String, ◌≡◌, ◌∙◌, sym, ap, ◌↔◌, refl, true, false, some, List, ◌∷◌}
use mathlib.Core.Path.{subst}
use ai_dev_project.Prelude.SplitLaws.{split-cons}
use ai_dev_project.Prelude.Text.{split, utf8}
use ai_dev_project.Python.{ok, >>=-eq-ok, ok-injective}
use ai_dev_project.Json.{Value, obj, Fields, end, field, get, item, to_text}
use ai_dev_project.Json.Laws.{item-get, get-item}
use ai_dev_project.Platform.{Platform, loaded}
use ai_dev_project.Tools.Github.{
  Github, HttpOutcome, HttpRequest, body_of, created_url, found_url, creation_request,
  search_request, owner_of, find_existing, github_headers, open_github_pull_request,
}
use ai_dev_project.Tools.Github.Answers.{
  Answered, created, found, open_github_pull_request-Answered,
}
use ai_dev_project.Tools.Github.Replies.{
  Credentials, creation, search_open, Opened, created_at, found_at, github_credentials_iff,
  created_lem, found_lem, found_back,
}

module _ (P : Platform) {W : Type 0} (x : Github W) where
  search_lem :
      (token repo owner : String) (parts : List String) (branch : Value)
      → split b'/' repo ≡ owner ∷ parts
      → search_request P x repo (to_text P.repr branch) (github_headers token)
        ≡ search_open P x token repo owner branch
  search_lem token repo owner parts branch s =
      ap (λ o. search_open P x token repo o branch) (rw (s, owner_of) refl)

  module _ (payload : Fields) where
    -- The payload has these four fields.
    pub record Wanted (title branch base body : Value) : Type 0 where
      pub titled : get payload "title" ≡ some title
      pub from_branch : get payload "branch" ≡ some branch
      pub onto_base : get payload "base" ≡ some base
      pub described : get payload "body" ≡ some body

    wanted_lem :
        (bytes : List ℕ)
        → body_of P x payload ≡ ok bytes
        → (title branch base body : Value) × Wanted title branch base body
          × ((token repo : String)
              → creation_request P x token repo bytes
                ≡ creation P x token repo title branch base body)
    unfolding body_of
    wanted_lem bytes h =
        let (title, t, h1) = >>=-eq-ok (item payload "title") _ h in
        let (branch, b, h2) = >>=-eq-ok (item payload "branch") _ h1 in
        let (base, o, h3) = >>=-eq-ok (item payload "base") _ h2 in
        let (body, d, h4) = >>=-eq-ok (item payload "body") _ h3 in
        (
          title,
          branch,
          base,
          body,
          record {
            titled = item-get payload "title" title t;
            from_branch = item-get payload "branch" branch b;
            onto_base = item-get payload "base" base o;
            described = item-get payload "body" body d;
          },
          λ token repo. ap (creation_request P x token repo) (sym (ok-injective _ bytes h4)),
        )

    body_lem :
        (title branch base body : Value)
        → Wanted title branch base body
        → body_of P x payload
          ≡ ok (
              utf8 (
                P.dumps
                  (record { sort_keys = false; compact = false; ensure_ascii = true })
                  (obj (
                    field "title" title
                      (field "head" branch (field "base" base (field "body" body end)))))))
    unfolding body_of
    body_lem title branch base body w = rw (get-item payload "title" title w.titled) (
        rw (get-item payload "branch" branch w.from_branch) (
          rw (get-item payload "base" base w.onto_base)
            (rw (get-item payload "body" body w.described) refl)))

    module _ (token repo url : String) (title branch base body : Value)
        (wanted : Wanted title branch base body) (r : HttpOutcome) (w : W) where
      Answered-Opened :
          Answered P x payload token repo r w url → Opened P x token repo branch r w url
      unfolding find_existing
      Answered-Opened (created raw v e l c) =
          let (d, u, shape, g, t, told) = created_lem P x v url c in
          created_at raw d u e (l ∙ ap loaded shape) g t told
      Answered-Opened (found named e b f nonblank) =
          let (owner, parts, s) = split-cons b'/' repo in
          let is_branch : named ≡ branch =
            ok-injective named branch
              (sym b ∙ get-item payload "branch" branch wanted.from_branch) in
          let answer : found_url P x (x.send (search_open P x token repo owner branch) w).0
              ≡ ok url =
            subst (λ v. found_url P x (x.send (search_open P x token repo owner v) w).0 ≡ ok url)
              is_branch
              (ap (λ q. found_url P x (x.send q w).0)
                  (sym (search_lem token repo owner parts named s))
                ∙ f) in
          let (raw, d, others, v, sent, l, g, told) = found_lem P x _ url answer nonblank in
          found_at owner parts raw d others v e s sent l g told nonblank

      Opened-Answered :
          Opened P x token repo branch r w url → Answered P x payload token repo r w url
      unfolding find_existing
      Opened-Answered (created_at raw d v e l g t told) =
          created raw (obj d) e l (rw (g, created_url) (rw t (ap ok (sym told))))
      Opened-Answered (found_at owner parts raw d others v e s sent l g told nonblank) =
          found branch e (get-item payload "branch" branch wanted.from_branch)
            (ap (λ q. found_url P x (x.send q w).0) (search_lem token repo owner parts branch s)
              ∙ (ap (found_url P x) sent ∙ found_back P x raw d others v url l g told))
            nonblank

  -- A pull request is opened, with the answer `url`, exactly if the environment has a token and a repository,
  -- both nonempty, the payload has its four fields, and the one request to create it, with the branch as `head`,
  -- is answered in one of two ways: with an object whose URL counts as true and reads `url`; or with the error 422,
  -- and then the search for the open pull requests of the branch, made after it, is answered with an array
  -- whose first item is an object with that URL, which is not empty.
  pub open_github_pull_request_iff :
      (payload : Fields) (url : String) (w : W)
      → ((open_github_pull_request P x payload w).0 ≡ ok url) ↔ (
          (token repo : String) × (title branch base body : Value) × Credentials P x token repo
          × Wanted payload title branch base body
          × Opened P x token repo branch
              (x.send (creation P x token repo title branch base body) w).0
              (x.send (creation P x token repo title branch base body) w).1
              url)
  open_github_pull_request_iff payload url w = (
    λ h.
        let (token, repo, bytes, c, b, a) =
          (open_github_pull_request-Answered P x payload url w).0 h in
        let (title, branch, base, body, wanted, same) = wanted_lem payload bytes b in
        (
          token,
          repo,
          title,
          branch,
          base,
          body,
          (github_credentials_iff P x token repo).0 c,
          wanted,
          Answered-Opened payload token repo url title branch base body wanted _ _ (
              subst
                (λ (q : HttpRequest).
                  Answered P x payload token repo (x.send q w).0 (x.send q w).1 url)
                (same token repo) a),
        ),
    λ (token, repo, title, branch, base, body, c, wanted, o).
        (open_github_pull_request-Answered P x payload url w).1 (
          token,
          repo,
          _,
          (github_credentials_iff P x token repo).1 c,
          body_lem payload title branch base body wanted,
          Opened-Answered payload token repo url title branch base body wanted _ _ o,
        ),
  )
