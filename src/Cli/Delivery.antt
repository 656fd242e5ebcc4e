-- ===== src/Cli/Delivery.antt =====
-- What the command `deploy-verify` of cli.py writes.
use ai_dev_project.Prelude.{
  ◌≡◌, refl, inl, inr, true, arith, Bool-cases, ap, Option, some, none, false, String,
}
use ai_dev_project.Prelude.Text.{◌<>◌, is_blank}
use ai_dev_project.Python.{ok, Result-cases}
use ai_dev_project.Json.{obj}
use ai_dev_project.Platform.{Platform}
use ai_dev_project.Deploy.Verify.{ReleaseVerification}
use ai_dev_project.Cli.{Console, Host}
use ai_dev_project.Cli.Deploy.{write_output}

module _ {W : Type 0} (h : Host W) where
  -- What is asked for is in the files: nothing without a directory, and else the directory is made and the
  -- bundle and the decision are written in it, each as its JSON text and a line feed. The worlds are those
  -- before and after.
  pub data Delivered (v : ReleaseVerification) (w : W) : Option String → W → Type 0 where
    not_asked : Delivered v w none w
    no_name : (dir : String) → is_blank dir ≡ true → Delivered v w (some dir) w
    delivered :
        (dir : String) (made bundled decided : W)
        → is_blank dir ≡ false
        → h.make_dir dir w ≡ (ok tt, made)
        → h.write_text (dir <> "/evidence-bundle.json") (h.pretty (obj v.bundle) <> "\n") made
          ≡ (ok tt, bundled)
        → h.write_text (dir <> "/policy-decision.json") (h.pretty (obj v.decision) <> "\n") bundled
          ≡ (ok tt, decided)
        → Delivered v w (some dir) decided

module _ (P : Platform) {W : Type 0} (h : Host W) where
  pub write_output-Delivered :
      (o : Option String) (v : ReleaseVerification) (s : Console W)
      → (write_output P h o v s).0 ≡ ok tt
      → Delivered h v s.world o (write_output P h o v s).1.world
  write_output-Delivered none v s e = not_asked
  write_output-Delivered (some dir) v s e =
      let made = h.make_dir dir s.world in
      let bundle =
        h.write_text (dir <> "/evidence-bundle.json") (h.pretty (obj v.bundle) <> "\n") made.1 in
      let decision =
        h.write_text (dir <> "/policy-decision.json") (h.pretty (obj v.decision) <> "\n")
          bundle.1 in
      elim (Bool-cases (is_blank dir)) [
        | inl b ↦ rw b (no_name dir b)
        | inr b ↦ elim (Result-cases made.0) [
          | inr (fault, m) ↦ ground (arith, rw m at (rw b at e))
          | inl (_, m) ↦ elim (Result-cases bundle.0) [
            | inr (fault, n) ↦ ground (arith, rw n at (rw m at (rw b at e)))
            | inl (_, n) ↦ elim (Result-cases decision.0) [
              | inr (fault, d) ↦ ground (arith, rw d at (rw n at (rw m at (rw b at e))))
              | inl (_, d) ↦ rw b (
                  rw m (
                    rw n (
                      delivered dir made.1 bundle.1 decision.1 b (ap (λ r. (r, made.1)) m)
                        (ap (λ r. (r, bundle.1)) n) (ap (λ r. (r, decision.1)) d))))
            ]
          ]
        ]
      ]

  pub Delivered-returns :
      (o : Option String) (v : ReleaseVerification) (s : Console W) (w : W)
      → Delivered h v s.world o w
      → (write_output P h o v s).0 ≡ ok tt
  Delivered-returns _ v s _ not_asked = refl
  Delivered-returns _ v s _ (no_name dir b) = rw b
  Delivered-returns _ v s _ (delivered dir made bundled decided b m n d) = rw b (rw m (rw n (rw d)))
