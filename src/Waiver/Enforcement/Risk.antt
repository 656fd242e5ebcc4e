-- ===== src/Waiver/Enforcement/Risk.antt =====
-- `evaluate_risk` against the waivers of the risk.
use ai_dev_project.Prelude.{
  ◌≤◌, String, ◌≡◌, ◌↔◌, ◌⊎◌, inl, inr, refl, true, false, List, [], ◌∷◌, ◌++◌, ◌==◌, filter, arith,
  eq_iff, Bool-cases, Any, Any-map, Any-filter, filter-Any,
}
use ai_dev_project.Python.{ok, >>=-eq-ok}
use ai_dev_project.Json.{str, Fields, get_or, to_text}
use ai_dev_project.Platform.{Platform, Datetime}
use ai_dev_project.Waiver.Enforcement.Validity.{InForce, check_waiver-valid_iff}
use ai_dev_project.Waiver.Enforcement.{
  BlockDecision, instant, check_waiver, first_valid, matches, medium_risk, evaluate_risk,
  severity_critical, severity_high, severity_medium, severity_low,
}

-- The waiver names the risk.
pub Names : Platform → String → Fields → Type 0
Names P risk_id w = to_text P.repr (get_or w "risk_id" (str "")) ≡ risk_id

-- Some waiver for the risk is in force.
pub Waived : Platform → String → List Fields → Datetime → Type 0
Waived P risk_id ws now = Any (λ w. Names P risk_id w × InForce P w now) ws

module _ (P : Platform) (now : Datetime) where
  first_valid-open :
      (ws : List Fields) (collected : List String) (d : BlockDecision)
      → first_valid P ws now collected ≡ ok d
      → (d.blocked ≡ false) ↔ Any (λ w. InForce P w now) ws
  unfolding first_valid
  first_valid-open [] collected d h = (λ b. ground arith, λ b. absurd b)
  first_valid-open (w ∷ ws) collected d h =
      let (k, c, h₁) = >>=-eq-ok (check_waiver P w now) _ h in
      elim (Bool-cases k.valid) [
        | inl v ↦
            (λ b. inl ((check_waiver-valid_iff P w now).0 (k, c, v)), λ b. ground (arith, v, h₁))
        | inr v ↦
            let (to, from) = first_valid-open ws (collected ++ k.reason_codes) d (rw v at h₁) in
            (
              λ b. inr (to b),
              λ b. elim b [
                | inr r ↦ from r
                | inl f ↦
                    let (k', c', v') = (check_waiver-valid_iff P w now).1 f in
                    ground (arith, c, c', v, v')
              ],
            )
      ]

  medium_risk-open :
      (ws : List Fields) (d : BlockDecision)
      → medium_risk P ws now ≡ ok d
      → (d.blocked ≡ false) ↔ Any (λ w. InForce P w now) ws
  medium_risk-open [] d h = (λ b. ground arith, λ b. absurd b)
  medium_risk-open (w ∷ ws) d h = first_valid-open (w ∷ ws) [] d h

  matching :
      (risk_id : String) (ws : List Fields)
      → Any (λ w. InForce P w now) (filter (matches P risk_id) ws) ↔ Waived P risk_id ws now
  unfolding Waived Names
  matching risk_id ws = (
    λ a.
        Any-map _ _ ws (λ w (m, f). ((eq_iff _ risk_id).0 m, f))
          (Any-filter (matches P risk_id) _ ws a),
    λ a.
        filter-Any (matches P risk_id) _ ws
          (Any-map _ _ ws (λ w (m, f). ((eq_iff _ risk_id).1 m, f)) a),
  )

  -- A decision that blocks, for a severity that no waiver covers.
  shut :
      (severity : String) (R : Type 0) (d : BlockDecision)
      → d.blocked ≡ true
      → severity == severity_low ≡ false
      → severity == severity_medium ≡ false
      → (d.blocked ≡ false) ↔ ((severity ≡ severity_low) ⊎ ((severity ≡ severity_medium) × R))
  shut severity R d b l m = (
    λ o. ground arith,
    λ c. elim c [
      | inl q ↦ ground (arith, (eq_iff severity severity_low).1 q, l)
      | inr (q, r) ↦ ground (arith, (eq_iff severity severity_medium).1 q, m)
    ],
  )

  other : (severity t u : String) → t == u ≡ false → severity == t ≡ true → severity == u ≡ false
  other severity t u n h = rw ((eq_iff severity t).0 h) n

  -- When a decision about a risk is made, it lets the risk pass exactly if the severity is low, or if it
  -- is medium and some waiver that names the risk is in force at that time.
  pub evaluate_risk-open_iff :
      (risk_id severity : String) (ws : List Fields) (d : BlockDecision)
      → evaluate_risk P risk_id severity ws now ≡ ok d
      → (d.blocked ≡ false)
        ↔ ((severity ≡ severity_low) ⊎ ((severity ≡ severity_medium) × Waived P risk_id ws now))
  unfolding evaluate_risk
  evaluate_risk-open_iff risk_id severity ws d h =
      elim (Bool-cases (severity == severity_critical)) [
        | inl a ↦
            shut severity _ d (ground (arith, a, h))
              (other severity severity_critical severity_low refl a)
              (other severity severity_critical severity_medium refl a)
        | inr a ↦ elim (Bool-cases (severity == severity_high)) [
          | inl b ↦
              shut severity _ d (ground (arith, a, b, h))
                (other severity severity_high severity_low refl b)
                (other severity severity_high severity_medium refl b)
          | inr b ↦ elim (Bool-cases (severity == severity_low)) [
            | inl c ↦
                (λ o. inl ((eq_iff severity severity_low).0 c), λ o. ground (arith, a, b, c, h))
            | inr c ↦ elim (Bool-cases (severity == severity_medium)) [
              | inr e ↦ shut severity _ d (ground (arith, a, b, c, e, h)) c e
              | inl e ↦
                  let (to, from) =
                    medium_risk-open (filter (matches P risk_id) ws) d (rw (a, b, c, e) at h) in
                  let (there, back) = matching risk_id ws in
                  (
                    λ o. inr ((eq_iff severity severity_medium).0 e, there (to o)),
                    λ o. elim o [
                      | inl q ↦ ground (arith, (eq_iff severity severity_low).1 q, c)
                      | inr (q, r) ↦ from (back r)
                    ],
                  )
            ]
          ]
        ]
      ]

-- A waiver in force was in force at each earlier time.
InForce-earlier :
    (P : Platform) (w : Fields) (now later : Datetime)
    → instant now ≤ instant later
    → InForce P w later
    → InForce P w now
InForce-earlier P w now later t f = record {
  creator = f.creator;
  approver = f.approver;
  created = f.created;
  expires = f.expires;
  medium = f.medium;
  created_by = f.created_by;
  human_creator = f.human_creator;
  approved_by = f.approved_by;
  human_approver = f.human_approver;
  reviewer = f.reviewer;
  owner = f.owner;
  created_at = f.created_at;
  expires_at = f.expires_at;
  ordered = f.ordered;
  active = f.active;
  unexpired = omega (arith, t, f.unexpired);
}

-- Time does not reopen what is blocked: with the same waivers, a risk that is blocked at one time is
-- blocked at each later time at which a decision is made.
pub evaluate_risk_expires :
    (P : Platform) (risk_id severity : String) (ws : List Fields) (now later : Datetime)
    (d d' : BlockDecision)
    → instant now ≤ instant later
    → evaluate_risk P risk_id severity ws now ≡ ok d
    → evaluate_risk P risk_id severity ws later ≡ ok d'
    → d.blocked ≡ true
    → d'.blocked ≡ true
unfolding Waived
evaluate_risk_expires P risk_id severity ws now later d d' t h h' b =
    let (_, from) = evaluate_risk-open_iff P now risk_id severity ws d h in
    let (to, _) = evaluate_risk-open_iff P later risk_id severity ws d' h' in
    elim (Bool-cases d'.blocked) [
      | inl o ↦ o
      | inr o ↦ elim (to o) [
        | inl l ↦ ground (arith, b, from (inl l))
        | inr (m, f) ↦ ground (
          arith,
          b,
          from (inr (m, Any-map _ _ ws (λ w (n, g). (n, InForce-earlier P w now later t g)) f)),
        )
      ]
    ]
