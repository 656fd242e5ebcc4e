-- ===== src/Tools/Github/Answers.antt =====
-- When a pull request is opened on GitHub, or found there.
use ai_dev_project.Prelude.{
  ℕ, String, ◌≡◌, ◌∙◌, sym, ap, ◌↔◌, ◌⊎◌, inl, inr, refl, false, arith, eqb, Bool-cases, List,
}
use ai_dev_project.Prelude.Text.{is_blank}
use ai_dev_project.Python.{ok, ok-injective}
use ai_dev_project.Json.{Value, Fields, item, to_text}
use ai_dev_project.Platform.{Platform, Loaded, loaded, bad_json, bad_utf8}
use ai_dev_project.Tools.Effects.{lift, and_then-eq-ok}
use ai_dev_project.Tools.Github.{
  Github, HttpOutcome, replied, http_error, unreachable, failed, github_credentials, body_of,
  creation_request, created_url, github_headers, find_existing, find_for, after_refusal,
  after_creation, create, open_github_pull_request,
}

pub Loaded-cases : (l : Loaded) → ((v : Value) × (l ≡ loaded v)) ⊎ ((l ≡ bad_json) ⊎ (l ≡ bad_utf8))
Loaded-cases (loaded v) = inl (v, refl)
Loaded-cases bad_json = inr (inl refl)
Loaded-cases bad_utf8 = inr (inr refl)

module _ (P : Platform) {W : Type 0} (x : Github W) (payload : Fields) where
  -- GitHub has created the pull request at `url`, or it has refused since one is there, and the search
  -- for an open one of the branch finds it at `url`.
  pub data Answered (token repo : String) (r : HttpOutcome) (w : W) (url : String) : Type 0 where
    created :
        (raw : List ℕ) (v : Value)
        → r ≡ replied raw
        → P.loads_bytes raw ≡ loaded v
        → created_url P x v ≡ ok url
        → Answered token repo r w url
    found :
        (branch : Value)
        → r ≡ http_error 422
        → item payload "branch" ≡ ok branch
        → (find_existing P x repo (to_text P.repr branch) (github_headers token) w).0 ≡ ok url
        → is_blank url ≡ false
        → Answered token repo r w url

  module _ (token repo url : String) (w : W) where
    found_for :
        (find_for P x payload token repo w).0 ≡ ok url → Answered token repo (http_error 422) w url
    unfolding find_for
    found_for h =
        let (branch, b, h1, _) = and_then-eq-ok (lift (item payload "branch")) _ w h in
        let (answer, f, h2, _) =
          and_then-eq-ok (find_existing P x repo (to_text P.repr branch) (github_headers token)) _ w
            h1 in
        elim (Bool-cases (is_blank answer)) [
          | inl blank ↦ ground (arith, rw blank at h2)
          | inr given ↦
              let same = ok-injective answer url (rw given at h2) in
              found branch refl b (f ∙ ap ok same) (ap is_blank (sym same) ∙ given)
        ]

    refused :
        (code : ℕ)
        → (after_refusal P x payload token repo code w).0 ≡ ok url
        → Answered token repo (http_error code) w url
    unfolding after_refusal
    refused code h = elim (Bool-cases (eqb code 422)) [
      | inr other ↦ ground (arith, rw other at h)
      | inl same ↦ let is_422 : code ≡ 422 = ground arith in rw is_422 (found_for (rw same at h))
    ]

    forward :
        (r : HttpOutcome)
        → (after_creation P x payload token repo r w).0 ≡ ok url
        → Answered token repo r w url
    unfolding after_creation
    forward (http_error code) h = refused code h
    forward unreachable h = ground arith
    forward (failed e) h = ground arith
    forward (replied raw) h = elim (Loaded-cases (P.loads_bytes raw)) [
      | inl (v, l) ↦ created raw v refl l (rw l at h)
      | inr (inl bad) ↦ ground (arith, rw bad at h)
      | inr (inr bad) ↦ ground (arith, rw bad at h)
    ]

    backward :
        (r : HttpOutcome)
        → Answered token repo r w url
        → (after_creation P x payload token repo r w).0 ≡ ok url
    unfolding after_creation after_refusal find_for
    backward r (created raw v e l c) = rw (e, after_creation) (rw l c)
    backward r (found branch e b f nonblank) = rw (e, after_creation) (rw b (rw f (rw nonblank)))

  -- A pull request is opened, with the answer `url`, exactly if the token and the repository are given,
  -- the payload has its four fields, and GitHub answers the one request to create it with an object
  -- that has the URL, or with 422, and the search for an open pull request of the branch finds that URL.
  pub open_github_pull_request-Answered :
      (url : String) (w : W)
      → ((open_github_pull_request P x payload w).0 ≡ ok url) ↔ (
          (token repo : String) × (body : List ℕ) × (github_credentials P x ≡ ok (token, repo))
          × (body_of P x payload ≡ ok body)
          × Answered token repo
              (x.send (creation_request P x token repo body) w).0
              (x.send (creation_request P x token repo body) w).1
              url)
  unfolding open_github_pull_request create
  open_github_pull_request-Answered url w = (
    λ h.
        let ((token, repo), c, h1, _) = and_then-eq-ok (lift (github_credentials P x)) _ w h in
        let (body, b, h2, _) = and_then-eq-ok (lift (body_of P x payload)) _ w h1 in
        (token, repo, body, c, b, forward token repo url _ _ h2),
    λ (token, repo, body, c, b, a).
        rw (c, open_github_pull_request) (rw b (backward token repo url _ _ a)),
  )
