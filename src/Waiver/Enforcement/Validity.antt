-- ===== src/Waiver/Enforcement/Validity.antt =====
-- What a waiver in force is, and `check_waiver` against it.
use ai_dev_project.Prelude.{
  ◌<◌, String, ◌≡◌, ◌↔◌, inl, inr, ◌∙◌, ap, refl, true, some, List, [], ◌∷◌, ◌++◌, ◌==◌, is_empty,
  arith, eq_iff, Bool-cases,
}
use ai_dev_project.Python.{ok, >>=-eq-ok, Result-cases}
use ai_dev_project.Json.{str, obj, Fields, get, get_or, to_text}
use ai_dev_project.Platform.{Platform, Datetime, naive, aware}
use ai_dev_project.Waiver.Enforcement.Parts.{
  OwnerApart, or_truthy, is_text→eq, eq→is_text, or_empty-present, validate_waiver-Clean,
  Clean-validate_waiver, role_reasons-nil, nil-role_reasons, time_reasons-nil, nil-time_reasons,
}
use ai_dev_project.Waiver.Enforcement.{
  WaiverCheck, security_reviewer_role, as_utc, instant, is_waivable, is_text, may_manage_waiver,
  timestamp, severity_of, validate_waiver, waiver_state, state_reasons, check_waiver,
}

-- The waiver is for a medium finding; a human made it; a human in the role of security reviewer
-- approved it; the owner, if there is one, has another role; it was made before it expires; and it is
-- active and not expired.
pub record InForce (P : Platform) (w : Fields) (now : Datetime) : Type 0 where
  pub creator : Fields
  pub approver : Fields
  pub created : Datetime
  pub expires : Datetime
  pub medium : severity_of P w ≡ "medium"
  pub created_by : get w "created_by" ≡ some (obj creator)
  pub human_creator : get creator "type" ≡ some (str "human")
  pub approved_by : get w "approved_by" ≡ some (obj approver)
  pub human_approver : get approver "type" ≡ some (str "human")
  pub reviewer : get approver "role" ≡ some (str security_reviewer_role)
  pub owner : OwnerApart w
  pub created_at : timestamp P w "created_at" ≡ ok created
  pub expires_at : timestamp P w "expires_at" ≡ ok expires
  pub ordered : instant created < instant expires
  pub active : to_text P.repr (get_or w "status" (str "active")) ≡ "active"
  pub unexpired : instant now < instant expires

instant-as_utc : (d : Datetime) → instant (as_utc d) ≡ instant d
instant-as_utc (naive n) = refl
instant-as_utc (aware n) = refl

module _ (P : Platform) (w : Fields) (now : Datetime) where
  status : String
  status = to_text P.repr (get_or w "status" (str "active"))

  waiver_state-active :
      waiver_state P w now ≡ ok "active"
      → (to_text P.repr (get_or w "status" (str "active")) ≡ "active")
        × ((e : Datetime) × (timestamp P w "expires_at" ≡ ok e) × (instant now < instant e))
  unfolding waiver_state status
  waiver_state-active h = elim (Bool-cases (status == "active")) [
    | inr t ↦ ground (arith, t, eq_iff status "active")
    | inl t ↦ elim (Result-cases (timestamp P w "expires_at")) [
      | inr (x, q) ↦ ground (arith, t, q, eq_iff "invalid" "active")
      | inl (e, q) ↦ (
        (eq_iff status "active").0 t,
        (e, q, ground (arith, t, q, eq_iff "expired" "active", instant-as_utc now)),
      )
    ]
  ]

  active-waiver_state :
      (e : Datetime)
      → to_text P.repr (get_or w "status" (str "active")) ≡ "active"
      → timestamp P w "expires_at" ≡ ok e
      → instant now < instant e
      → waiver_state P w now ≡ ok "active"
  unfolding waiver_state
  active-waiver_state e s q l = rw s (rw q (ground (arith, instant-as_utc now)))

  state_reasons-nil : (s : String) → state_reasons s ≡ [] → s ≡ "active"
  state_reasons-nil s h = ground (arith, eq_iff s "active")

  -- A check that collects nothing is of a waiver in force.
  pub InForce-clean :
      validate_waiver P w ≡ ok [] → waiver_state P w now ≡ ok "active" → InForce P w now
  unfolding is_waivable may_manage_waiver
  InForce-clean v s =
      let c = validate_waiver-Clean P w v in
      let (reviewer, owner) = role_reasons-nil P w c.approver c.roles in
      let (created, expires, at, until, ordered) = time_reasons-nil P w c.times in
      let (active, (e, until', unexpired)) = waiver_state-active s in
      let human = λ (d : Fields) (h : is_text (get d "type") "human" ≡ true).
        is_text→eq (get d "type") "human" h in
      record {
        creator = c.creator;
        approver = c.approver;
        created = created;
        expires = expires;
        medium = ground (arith, c.waivable, eq_iff (severity_of P w) "medium");
        created_by =
            or_empty-present _ c.creator "type" _ c.created_by (human c.creator c.human_creator);
        human_creator = human c.creator c.human_creator;
        approved_by = or_empty-present _ c.approver "role" _ c.approved_by reviewer;
        human_approver = human c.approver c.human_approver;
        reviewer = reviewer;
        owner = owner;
        created_at = at;
        expires_at = until;
        ordered = ordered;
        active = active;
        unexpired = ground (arith, until, until', unexpired);
      }

  pub clean-InForce :
      InForce P w now → (validate_waiver P w ≡ ok []) × (waiver_state P w now ≡ ok "active")
  unfolding is_waivable may_manage_waiver
  clean-InForce f = (
    Clean-validate_waiver P w (record {
      creator = f.creator;
      approver = f.approver;
      created_by = rw (f.created_by, or_truthy f.creator);
      approved_by = rw (f.approved_by, or_truthy f.approver);
      waivable = rw f.medium;
      human_creator = eq→is_text _ "human" f.human_creator;
      human_approver = eq→is_text _ "human" f.human_approver;
      roles = nil-role_reasons P w f.approver f.reviewer f.owner;
      times = nil-time_reasons P w f.created f.expires f.created_at f.expires_at f.ordered;
    }),
    active-waiver_state f.expires f.active f.expires_at f.unexpired,
  )

  nil_append : (xs ys : List String) → is_empty (xs ++ ys) ≡ true → (xs ≡ []) × (ys ≡ [])
  nil_append [] ys h = ground arith
  nil_append (x ∷ xs) ys h = cc

  -- A check calls a waiver valid exactly if the waiver is in force: it is for a medium finding, humans
  -- made and approved it, the approver is a security reviewer and the owner, if there is one, is not,
  -- it was made before it expires, and it is active and has not expired.
  pub check_waiver-valid_iff :
      ((k : WaiverCheck) × (check_waiver P w now ≡ ok k) × (k.valid ≡ true)) ↔ InForce P w now
  unfolding check_waiver
  check_waiver-valid_iff = (
    λ (k, h, v).
        let (reasons, r, h₁) = >>=-eq-ok (validate_waiver P w) _ h in
        let (state, s, h₂) = >>=-eq-ok (waiver_state P w now) _ h₁ in
        let (n, m) = nil_append reasons (state_reasons state) (ground arith) in
        InForce-clean (r ∙ ap ok n) (s ∙ ap ok (state_reasons-nil state m)),
    λ f.
        let (v, s) = clean-InForce f in
        (record { valid = true; state = "active"; reason_codes = [] }, rw (v, s), refl),
  )
