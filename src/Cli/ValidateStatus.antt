-- ===== src/Cli/ValidateStatus.antt =====
-- When the command `validate` of cli.py ends with the status 0.
use ai_dev_project.Prelude.{
  Each, ℕ, suc, String, ◌≡◌, ◌∙◌, sym, ap, refl, ◌↔◌, inl, inr, Bool, true, false, not, List, [],
  ◌∷◌, is_empty, arith, Bool-cases, if◌then◌else◌,
}
use mathlib.Core.Path.{subst}
use ai_dev_project.Python.{Result, ◌>>=◌, ok, Result-cases}
use ai_dev_project.Platform.{Platform}
use ai_dev_project.Tools.Effects.{lift, and_then-eq-ok, returns-next}
use ai_dev_project.Artifacts.{Schemas, validate_file}
use ai_dev_project.Cli.{returns-print_items, world-print_items, Console, Host}
use ai_dev_project.Cli.Validate.{check_file, check_path, check_paths, cmd_validate}

module _ (P : Platform) {W : Type 0} (h : Host W) where
  -- The path is a file whose document is valid.
  pub record Passes (schemas : Schemas) (w : W) (raw : String) : Type 0 where
    pub present : h.is_file raw w ≡ true
    pub text : String
    pub found : h.read_text raw w ≡ ok text
    pub valid : validate_file P schemas (h.path_text raw) text ≡ ok []

  module _ (schemas : Schemas) where
    -- Whether the path counts as a failure.
    abbrev verdict : W → String → Result Bool
    verdict w raw =
        if h.is_file raw w
        then (h.read_text raw w >>= λ text.
            validate_file P schemas (h.path_text raw) text >>= λ errors. ok (not (is_empty errors)))
        else ok true

    -- The console has the verdict's lines, and the files are as they were.
    abbrev Settles : (raw : String) (s : Console W) → Result Bool × Console W → Type 0
    Settles raw s t = (t.0 ≡ verdict s.world raw) × (t.1.world ≡ s.world)

    check_path-verdict :
        (raw : String) (s : Console W) → Settles raw s (check_path P h schemas raw s)
    unfolding check_path check_file
    check_path-verdict raw s = elim (Bool-cases (h.is_file raw s.world)) [
      | inr absent ↦ rw (absent, check_path) (refl, refl)
      | inl present ↦ elim (Result-cases (h.read_text raw s.world)) [
        | inr (fault, r) ↦ rw (present, check_path) (rw r (refl, refl))
        | inl (text, r) ↦ elim (Result-cases (validate_file P schemas (h.path_text raw) text)) [
          | inr (fault, v) ↦ rw (present, check_path) (rw r (rw v (refl, refl)))
          | inl ([], v) ↦ rw (present, check_path) (rw r (rw v (refl, refl)))
          | inl (e ∷ errors, v) ↦
              rw (present, check_path)
                (rw r (
                  rw v (
                    rw (returns-print_items (e ∷ errors) _)
                      (refl, world-print_items (e ∷ errors) _))))
        ]
      ]
    ]

    Passes-verdict : (raw : String) (w : W) → verdict w raw ≡ ok false → Passes schemas w raw
    Passes-verdict raw w e = elim (Bool-cases (h.is_file raw w)) [
      | inr absent ↦ ground (arith, rw absent at e)
      | inl present ↦ elim (Result-cases (h.read_text raw w)) [
        | inr (fault, r) ↦ ground (arith, rw r at (rw present at e))
        | inl (text, r) ↦ elim (Result-cases (validate_file P schemas (h.path_text raw) text)) [
          | inr (fault, v) ↦ ground (arith, rw v at (rw r at (rw present at e)))
          | inl ([], v) ↦ record { present = present; text = text; found = r; valid = v }
          | inl (_ ∷ _, v) ↦ ground (arith, rw v at (rw r at (rw present at e)))
        ]
      ]
    ]

    verdict-Passes : (raw : String) (w : W) → Passes schemas w raw → verdict w raw ≡ ok false
    verdict-Passes raw w p = rw p.present (rw p.found (rw p.valid))

    status_forward :
        (paths : List String) (failures : ℕ) (s : Console W)
        → (check_paths P h schemas failures paths s).0 ≡ ok 0
        → (failures ≡ 0) × Each (Passes schemas s.world) paths
    unfolding check_paths
    status_forward [] failures s e = (ground arith, tt)
    status_forward (raw ∷ rest) failures s e =
        let (v, w) = check_path-verdict raw s in
        let (failed, f, e1, _) = and_then-eq-ok (check_path P h schemas raw) _ s e in
        let (none_failed, all) =
          status_forward rest (if failed then suc failures else failures)
            (check_path P h schemas raw s).1 e1 in
        let passed : failed ≡ false = ground arith in
        (
          ground arith,
          (
            Passes-verdict raw s.world (sym v ∙ (f ∙ ap ok passed)),
            subst (λ w. Each (Passes schemas w) rest) w all,
          ),
        )

    status_backward :
        (paths : List String) (s : Console W)
        → Each (Passes schemas s.world) paths
        → (check_paths P h schemas 0 paths s).0 ≡ ok 0
    unfolding check_paths
    status_backward [] s all = refl
    status_backward (raw ∷ rest) s (p, all) =
        let (v, w) = check_path-verdict raw s in
        rw (v ∙ verdict-Passes raw s.world p) (
          status_backward rest (check_path P h schemas raw s).1
            (subst (λ w. Each (Passes schemas w) rest) (sym w) all))

  -- `validate` ends with the status 0 exactly if the root of the repository is found and every path is
  -- a file whose document is valid against its schema.
  pub cmd_validate_iff :
      (paths : List String) (s : Console W)
      → ((cmd_validate P h paths s).0 ≡ ok 0)
        ↔ ((schemas : Schemas) × (h.repository ≡ ok schemas) × Each (Passes schemas s.world) paths)
  unfolding cmd_validate
  cmd_validate_iff paths s = (
    λ e.
        let (schemas, r, e1, _) = and_then-eq-ok (lift h.repository) _ s e in
        (schemas, r, (status_forward schemas paths 0 s e1).1),
    λ (schemas, r, all).
        returns-next r (λ schemas. check_paths P h schemas 0 paths) s
        ∙ status_backward schemas paths s all,
  )
