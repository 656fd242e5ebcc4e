-- ===== src/Pipeline/Verdict.antt =====
-- The verdict of `build_security_review` against the risks of the threat model.
use ai_dev_project.Prelude.{
  ◌≡◌, ◌↔◌, inl, inr, ◌∙◌, sym, ap, Bool, true, false, ◌||◌, ◌==◌, eq_iff, some, arith, Bool-cases,
}
use ai_dev_project.Python.{ok, >>=-eq-ok, ok-injective}
use ai_dev_project.Json.{str, obj, Items, nil, cons, Fields, get, need_obj}
use ai_dev_project.Platform.{Platform}
use ai_dev_project.Waiver.Enforcement.Parts.{need_obj→eq}
use ai_dev_project.Pipeline.{
  ReviewArgs, is_open, has_value, severity_of, disposition_of, dispositions, risks_of,
  build_security_review,
}

same_obj : (d d' : Fields) → obj d ≡ obj d' → d' ≡ d
same_obj d d' h = cc

module _ (P : Platform) where
  -- A critical or high risk names a verification test, and a medium risk names a waiver.
  pub record Settled (risk : Fields) : Type 0 where
    pub critical : severity_of P risk ≡ "critical" → has_value risk "verification_test" ≡ true
    pub high : severity_of P risk ≡ "high" → has_value risk "verification_test" ≡ true
    pub medium : severity_of P risk ≡ "medium" → has_value risk "waiver_id" ≡ true

  pub AllSettled : Items → Type 0
  AllSettled nil = Unit
  AllSettled (cons v vs) = ((risk : Fields) → v ≡ obj risk → Settled risk) × AllSettled vs

  open-Settled : (risk : Fields) → is_open (disposition_of P risk) ≡ false → Settled risk
  unfolding disposition_of
  open-Settled risk h = record {
    critical = λ e. ground (arith, (eq_iff (severity_of P risk) "critical").1 e);
    high = λ e. ground (arith, (eq_iff (severity_of P risk) "high").1 e);
    medium = λ e. elim (Bool-cases (has_value risk "waiver_id")) [
      | inl w ↦ w
      | inr w ↦ cc (rw w at (rw e at h))
    ];
  }

  Settled-open : (risk : Fields) → Settled risk → is_open (disposition_of P risk) ≡ false
  unfolding disposition_of
  Settled-open risk s = elim (Bool-cases (severity_of P risk == "critical")) [
    | inl a ↦ rw (a, s.critical ((eq_iff (severity_of P risk) "critical").0 a))
    | inr a ↦ elim (Bool-cases (severity_of P risk == "high")) [
      | inl b ↦ rw (a, b, s.high ((eq_iff (severity_of P risk) "high").0 b))
      | inr b ↦ elim (Bool-cases (severity_of P risk == "medium")) [
        | inl c ↦ rw (a, b, c, s.medium ((eq_iff (severity_of P risk) "medium").0 c))
        | inr c ↦ rw (a, b, c)
      ]
    ]
  ]

  dispositions-AllSettled :
      (risks : Items) (found : Items × Bool)
      → dispositions P risks ≡ ok found
      → (found.1 ≡ false) ↔ AllSettled risks
  unfolding dispositions AllSettled
  dispositions-AllSettled nil found h = (λ o. tt, λ s. ground arith)
  dispositions-AllSettled (cons v vs) found h =
      let (risk, r, h₁) = >>=-eq-ok (need_obj v) _ h in
      let (rest, q, h₂) = >>=-eq-ok (dispositions P vs) _ h₁ in
      let shape : v ≡ obj risk = need_obj→eq v risk r in
      let (to, from) = dispositions-AllSettled vs rest q in
      let verdict : (is_open (disposition_of P risk) || rest.1) ≡ found.1 =
        ap (λ f. f.1) (ok-injective _ _ h₂) in
      (
        λ o. (
          λ risk' e.
              rw (same_obj risk risk' (sym shape ∙ e))
                (open-Settled risk (ground (arith, verdict, o))),
          to (ground (arith, verdict, o)),
        ),
        λ (s, ss). ground (arith, verdict, Settled-open risk (s risk shape), from ss),
      )

  -- When a review is compiled, its verdict is an approval exactly if every critical or high risk of the
  -- threat model names a verification test and every medium risk names a waiver.
  pub build_security_review-approved_iff :
      (a : ReviewArgs) (threat_model review : Fields)
      → build_security_review P a threat_model ≡ ok review
      → (get review "verdict" ≡ some (str "approved"))
        ↔ ((risks : Items) × (risks_of P threat_model ≡ ok risks) × AllSettled risks)
  unfolding build_security_review get
  build_security_review-approved_iff a threat_model review h =
      let (risks, r, h₁) = >>=-eq-ok (risks_of P threat_model) _ h in
      let (found, d, h₂) = >>=-eq-ok (dispositions P risks) _ h₁ in
      let (to, from) = dispositions-AllSettled risks found d in
      (
        λ v. (risks, r, to (ground (arith, h₂, v, eq_iff "changes_requested" "approved"))),
        λ (risks', r', s).
            ground (arith, h₂, from (rw (ok-injective risks' risks (sym r' ∙ r)) at s)),
      )
