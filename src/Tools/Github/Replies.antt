-- ===== src/Tools/Github/Replies.antt =====
-- The requests that open a pull request on GitHub, written out, and the replies that answer them.
use ai_dev_project.Prelude.{
  ℕ, String, ◌≡◌, ◌||◌, ◌∙◌, sym, ap, ◌↔◌, inl, inr, refl, true, false, some, none, List, [], ◌∷◌,
  arith, Bool-cases, Option-cases,
}
use ai_dev_project.Prelude.Text.{◌<>◌, is_blank, split, utf8}
use ai_dev_project.Python.{ok, ok-injective}
use ai_dev_project.Json.{
  Value, arr, obj, Items, cons, Fields, end, field, get, get_or, truthy, to_text,
}
use ai_dev_project.Platform.{Platform, loaded}
use ai_dev_project.Tools.Github.{
  Github, HttpOutcome, HttpRequest, replied, http_error, unreachable, failed, github_credentials,
  created_url, found_url, first_url,
}
use ai_dev_project.Tools.Github.Answers.{Loaded-cases}

module _ (P : Platform) {W : Type 0} (x : Github W) where
  -- The token and the repository are in the environment, and neither is empty.
  pub record Credentials (token repo : String) : Type 0 where
    pub token_set : x.environ "SDLC_GITHUB_TOKEN" ≡ some token
    pub repo_set : x.environ "SDLC_GITHUB_REPOSITORY" ≡ some repo
    pub token_nonblank : is_blank token ≡ false
    pub repo_nonblank : is_blank repo ≡ false

  -- The request to create a pull request, from the branch as `head` into the base.
  abbrev pub creation : String → String → Value → Value → Value → Value → HttpRequest
  creation token repo title branch base body = record {
    method = "POST";
    url = "https://api.github.com/repos/" <> (repo <> "/pulls");
    headers =
        ("Authorization", "Bearer " <> token)
        ∷ ("Accept", "application/vnd.github+json")
        ∷ ("Content-Type", "application/json")
        ∷ ("X-GitHub-Api-Version", "2022-11-28")
        ∷ [];
    body = some (
        utf8 (
          P.dumps (record { sort_keys = false; compact = false; ensure_ascii = true })
            (obj (
              field "title" title
                (field "head" branch (field "base" base (field "body" body end)))))));
  }

  -- The request that asks for the open pull requests of the branch.
  abbrev pub search_open : String → String → String → Value → HttpRequest
  search_open token repo owner branch = record {
    method = "GET";
    url =
        ("https://api.github.com/repos/" <> (repo <> "/pulls"))
        <> ("?"
            <> x.urlencode
                (("state", "open") ∷ ("head", owner <> (":" <> to_text P.repr branch)) ∷ []));
    headers =
        ("Authorization", "Bearer " <> token)
        ∷ ("Accept", "application/vnd.github+json")
        ∷ ("Content-Type", "application/json")
        ∷ ("X-GitHub-Api-Version", "2022-11-28")
        ∷ [];
    body = none;
  }

  -- The reply to the creation is an object with a URL that counts as true; or it is the error 422, and
  -- the search, made in the world behind it, gives an array whose first item is an object with the URL.
  pub data Opened (token repo : String) (branch : Value) (r : HttpOutcome) (w : W) (url : String)
      : Type 0 where
    created_at :
        (raw : List ℕ) (d : Fields) (v : Value)
        → r ≡ replied raw
        → P.loads_bytes raw ≡ loaded (obj d)
        → get d "html_url" ≡ some v
        → truthy v ≡ true
        → url ≡ to_text P.repr v
        → Opened token repo branch r w url
    found_at :
        (owner : String) (parts : List String) (raw : List ℕ) (d : Fields) (others : Items)
        (v : Value)
        → r ≡ http_error 422
        → split b'/' repo ≡ owner ∷ parts
        → (x.send (search_open token repo owner branch) w).0 ≡ replied raw
        → P.loads_bytes raw ≡ loaded (arr (cons (obj d) others))
        → get d "html_url" ≡ some v
        → url ≡ to_text P.repr v
        → is_blank url ≡ false
        → Opened token repo branch r w url

  pub github_credentials_iff :
      (token repo : String) → (github_credentials P x ≡ ok (token, repo)) ↔ Credentials token repo
  unfolding github_credentials
  github_credentials_iff token repo = (
    λ e. elim (Option-cases (x.environ "SDLC_GITHUB_TOKEN")) [
      | inl n ↦ ground (arith, rw (n, github_credentials) at e)
      | inr (t, g) ↦ elim (Option-cases (x.environ "SDLC_GITHUB_REPOSITORY")) [
        | inl n ↦ ground (arith, rw n at (rw (g, github_credentials) at e))
        | inr (u, k) ↦ elim (Bool-cases (is_blank t || is_blank u)) [
          | inl b ↦ ground (arith, rw b at (rw k at (rw (g, github_credentials) at e)))
          | inr b ↦
              let same : ((t, u) ≡ (token, repo)) =
                ok-injective (t, u) (token, repo)
                  (rw b at (rw k at (rw (g, github_credentials) at e))) in
              let is_token = ap (λ (c : String × String). c.0) same in
              let is_repo = ap (λ (c : String × String). c.1) same in
              record {
                token_set = g ∙ ap some is_token;
                repo_set = k ∙ ap some is_repo;
                token_nonblank = ap is_blank (sym is_token) ∙ ground arith;
                repo_nonblank = ap is_blank (sym is_repo) ∙ ground arith;
              }
        ]
      ]
    ],
    λ c.
        rw (c.token_set, github_credentials)
          (rw c.repo_set (rw c.token_nonblank (rw c.repo_nonblank refl))),
  )

  pub created_lem :
      (v : Value) (url : String)
      → created_url P x v ≡ ok url
      → (d : Fields) × (u : Value) × (v ≡ obj d)
        × (get d "html_url" ≡ some u)
        × (truthy u ≡ true)
        × (url ≡ to_text P.repr u)
  created_lem (obj d) url e = elim (Option-cases (get d "html_url")) [
    | inl n ↦ ground (arith, rw (n, created_url) at e)
    | inr (u, g) ↦ elim (Bool-cases (truthy u)) [
      | inl t ↦ (
        d,
        u,
        refl,
        g,
        t,
        sym (ok-injective (to_text P.repr u) url (rw t at (rw (g, created_url) at e))),
      )
      | inr f ↦ ground (arith, rw f at (rw (g, created_url) at e))
    ]
  ]
  created_lem _ url e = ground arith

  -- A blank URL, which is what is told of anything but an array with such an object, is ruled out.
  first_lem :
      (v : Value)
      → is_blank (first_url P x v) ≡ false
      → (d : Fields) × (others : Items) × (u : Value) × (v ≡ arr (cons (obj d) others))
        × (get d "html_url" ≡ some u)
        × (first_url P x v ≡ to_text P.repr u)
  unfolding to_text
  first_lem (arr (cons (obj d) others)) b = elim (Option-cases (get d "html_url")) [
    | inl n ↦ ground (arith, rw (n, get_or) at b)
    | inr (u, g) ↦ (d, others, u, refl, g, rw (g, get_or) refl)
  ]
  first_lem _ b = ground arith

  pub found_lem :
      (r : HttpOutcome) (url : String)
      → found_url P x r ≡ ok url
      → is_blank url ≡ false
      → (raw : List ℕ) × (d : Fields) × (others : Items) × (v : Value) × (r ≡ replied raw)
        × (P.loads_bytes raw ≡ loaded (arr (cons (obj d) others)))
        × (get d "html_url" ≡ some v)
        × (url ≡ to_text P.repr v)
  unfolding found_url
  found_lem (http_error code) url e b = ground (arith, ap is_blank (ok-injective "" url e))
  found_lem unreachable url e b = ground (arith, ap is_blank (ok-injective "" url e))
  found_lem (failed f) url e b = ground arith
  found_lem (replied raw) url e b = elim (Loaded-cases (P.loads_bytes raw)) [
    | inr (inl bad) ↦ ground (arith, ap is_blank (ok-injective "" url (rw (bad, found_url) at e)))
    | inr (inr bad) ↦ ground (arith, rw (bad, found_url) at e)
    | inl (v, l) ↦
        let same = ok-injective (first_url P x v) url (rw (l, found_url) at e) in
        let (d, others, u, shape, g, told) = first_lem v (ap is_blank same ∙ b) in
        (raw, d, others, u, refl, l ∙ ap loaded shape, g, sym same ∙ told)
  ]

  pub found_back :
      (raw : List ℕ) (d : Fields) (others : Items) (v : Value) (url : String)
      → P.loads_bytes raw ≡ loaded (arr (cons (obj d) others))
      → get d "html_url" ≡ some v
      → url ≡ to_text P.repr v
      → found_url P x (replied raw) ≡ ok url
  unfolding found_url
  found_back raw d others v url l g told = rw (l, found_url) (rw (g, get_or) (ap ok (sym told)))
