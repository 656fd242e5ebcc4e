-- ===== src/Waiver/Enforcement/Parts.antt =====
-- Lemmas on the parts of `validate_waiver`: its actors, its roles and its times.
use ai_dev_project.Prelude.{
  ◌<◌, String, ◌≡◌, ◌≢◌, inl, inr, ◌∙◌, ap, refl, Bool, true, false, not, Option, none, some, List,
  [], ◌∷◌, ◌++◌, if◌then◌else◌, arith, eq_iff, eq_refl, Bool-cases,
}
use ai_dev_project.Python.{Result, ok, ◌>>=◌, >>=-eq-ok, Result-cases, ok-injective}
use ai_dev_project.Json.{Value, null, str, obj, Fields, end, field, get, truthy, need_obj}
use ai_dev_project.Platform.{Platform, Datetime}
use ai_dev_project.Waiver.Enforcement.{
  security_reviewer_role, reason_approver_is_risk_owner, instant, is_waivable, is_text,
  may_manage_waiver, or_empty, part, reason_if, timestamp, severity_of, role_reasons, time_reasons,
  validate_waiver,
}

pub is_text→eq : (o : Option Value) (t : String) → is_text o t ≡ true → o ≡ some (str t)
is_text→eq (some (str s)) t h = ground (arith, eq_iff s t)
is_text→eq none t h = cc
is_text→eq (some _) t h = ground arith

pub eq→is_text : (o : Option Value) (t : String) → o ≡ some (str t) → is_text o t ≡ true
eq→is_text o t h = rw h (eq_refl t)

pub ne→is_text : (o : Option Value) (t : String) → o ≢ some (str t) → is_text o t ≡ false
ne→is_text o t n = elim (Bool-cases (is_text o t)) [
  | inl h ↦ absurd (n (is_text→eq o t h))
  | inr h ↦ h
]

pub need_obj→eq : (v : Value) (d : Fields) → need_obj v ≡ ok d → v ≡ obj d
need_obj→eq (obj d') d h = ground arith
need_obj→eq null d h = ground arith
need_obj→eq _ d h = ground arith

-- An actor that has some key was given as an object.
pub or_empty-present :
    (o : Option Value) (d : Fields) (k : String) (v : Value)
    → need_obj (or_empty o) ≡ ok d
    → get d k ≡ some v
    → o ≡ some (obj d)
unfolding get
or_empty-present none d k v h g = ground arith
or_empty-present (some u) d k v h g = elim (Bool-cases (truthy u)) [
  | inl t ↦ ap some (need_obj→eq u d (rw t at h))
  | inr t ↦ ground (arith, t)
]

-- The waiver names no owner, or an owner who is not a security reviewer.
pub data OwnerApart (w : Fields) : Type 0 where
  no_owner : or_empty (get w "owner") ≡ obj end → OwnerApart w
  other_role :
      (owner : Fields)
      → get w "owner" ≡ some (obj owner)
      → get owner "role" ≢ some (str security_reviewer_role)
      → OwnerApart w

owner_reasons : Value → Result (List String)
owner_reasons v = do
  owner ← need_obj v
  ok (reason_if (is_text (get owner "role") security_reviewer_role) reason_approver_is_risk_owner)

owner_reasons-nil :
    (w : Fields) (o : Option Value)
    → get w "owner" ≡ o
    → owner_reasons (or_empty o) ≡ ok []
    → OwnerApart w
unfolding owner_reasons
owner_reasons-nil w none e h = no_owner (rw e)
owner_reasons-nil w (some u) e h = elim (Bool-cases (truthy u)) [
  | inr t ↦ no_owner (ground (arith, e, t))
  | inl t ↦
      let (owner, n, r) = >>=-eq-ok (need_obj u) _ (rw t at h) in
      other_role owner (e ∙ ap some (need_obj→eq u owner n))
        (λ q. ground (arith, r, eq→is_text (get owner "role") security_reviewer_role q))
]

pub or_truthy : (d : Fields) → (if truthy (obj d) then obj d else obj end) ≡ obj d
or_truthy end = refl
or_truthy (field k v d) = refl

owner_reasons-apart : (w : Fields) → OwnerApart w → owner_reasons (part w "owner") ≡ ok []
unfolding owner_reasons get
owner_reasons-apart w (no_owner e) = rw e
owner_reasons-apart w (other_role owner e n) =
    rw (e, or_truthy owner) (rw (ne→is_text (get owner "role") security_reviewer_role n))

no_reasons :
    (a b c : Bool) (x y z : String) (roles times : List String)
    → reason_if a x ++ (reason_if b y ++ (reason_if c z ++ (roles ++ times))) ≡ []
    → (a ≡ false) × (b ≡ false) × (c ≡ false) × (roles ≡ []) × (times ≡ [])
no_reasons a b c x y z [] times h = ground arith
no_reasons a b c x y z (r ∷ roles) times h = ground arith

not-false : (b : Bool) → not b ≡ false → b ≡ true
not-false true h = refl
not-false false h = cc

module _ (P : Platform) (w : Fields) where
  -- The parts of a validation that collects nothing.
  pub record Clean : Type 0 where
    pub creator : Fields
    pub approver : Fields
    pub created_by : need_obj (part w "created_by") ≡ ok creator
    pub approved_by : need_obj (part w "approved_by") ≡ ok approver
    pub waivable : is_waivable (severity_of P w) ≡ true
    pub human_creator : may_manage_waiver creator ≡ true
    pub human_approver : may_manage_waiver approver ≡ true
    pub roles : role_reasons P w approver ≡ ok []
    pub times : time_reasons P w ≡ ok []

  pub validate_waiver-Clean : validate_waiver P w ≡ ok [] → Clean
  unfolding validate_waiver
  validate_waiver-Clean h =
      let (creator, c, h₁) = >>=-eq-ok (need_obj (part w "created_by")) _ h in
      let (approver, a, h₂) = >>=-eq-ok (need_obj (part w "approved_by")) _ h₁ in
      let (roles, r, h₃) = >>=-eq-ok (role_reasons P w approver) _ h₂ in
      let (times, t, h₄) = >>=-eq-ok (time_reasons P w) _ h₃ in
      let (s₁, s₂, s₃, s₄, s₅) = no_reasons _ _ _ _ _ _ roles times (ok-injective _ _ h₄) in
      record {
        creator = creator;
        approver = approver;
        created_by = c;
        approved_by = a;
        waivable = not-false _ s₁;
        human_creator = not-false _ s₂;
        human_approver = not-false _ s₃;
        roles = r ∙ ap ok s₄;
        times = t ∙ ap ok s₅;
      }

  pub Clean-validate_waiver : Clean → validate_waiver P w ≡ ok []
  unfolding validate_waiver
  Clean-validate_waiver c =
      rw (c.created_by, c.approved_by, c.roles, c.times)
        (rw (c.waivable, c.human_creator, c.human_approver))

  pub role_reasons-nil :
      (approver : Fields)
      → role_reasons P w approver ≡ ok []
      → (get approver "role" ≡ some (str security_reviewer_role)) × OwnerApart w
  unfolding role_reasons owner_reasons
  role_reasons-nil approver h =
      elim (Bool-cases (is_text (get approver "role") security_reviewer_role)) [
        | inr t ↦ ground (arith, t)
        | inl t ↦ (is_text→eq _ _ t, owner_reasons-nil w (get w "owner") refl (rw t at h))
      ]

  pub nil-role_reasons :
      (approver : Fields)
      → get approver "role" ≡ some (str security_reviewer_role)
      → OwnerApart w
      → role_reasons P w approver ≡ ok []
  unfolding role_reasons owner_reasons
  nil-role_reasons approver r o =
      rw (eq→is_text (get approver "role") security_reviewer_role r) (owner_reasons-apart w o)

  pub time_reasons-nil :
      time_reasons P w ≡ ok []
      → (c e : Datetime) × (timestamp P w "created_at" ≡ ok c)
        × (timestamp P w "expires_at" ≡ ok e)
        × (instant c < instant e)
  unfolding time_reasons
  time_reasons-nil h = elim (Result-cases (timestamp P w "created_at")) [
    | inr (x, q) ↦ ground (arith, q)
    | inl (c, q) ↦ elim (Result-cases (timestamp P w "expires_at")) [
      | inr (x, r) ↦ ground (arith, q, r)
      | inl (e, r) ↦ (c, e, q, r, ground (arith, q, r))
    ]
  ]

  pub nil-time_reasons :
      (c e : Datetime)
      → timestamp P w "created_at" ≡ ok c
      → timestamp P w "expires_at" ≡ ok e
      → instant c < instant e
      → time_reasons P w ≡ ok []
  unfolding time_reasons
  nil-time_reasons c e q r l = ground arith
