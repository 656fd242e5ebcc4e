-- ===== src/Traceability/Edges.antt =====
-- traceability.py: the links between the documents that `trace_feature` follows.
use ai_dev_project.Prelude.{
  String, ◌≡◌, inl, inr, ◌∙◌, sym, refl, some, none, Option-cases, Bool, true, ◌||◌, List, [], ◌∷◌,
  ◌++◌, ◌==◌, contains, filter, Bool-cases, arith, eq_iff, eq_refl,
}
use ai_dev_project.Prelude.Dict.{Dict, lookup, member, keys}
use ai_dev_project.Traceability.{neighbors, hrefs_at, incoming, linking}

pub contains-append :
    (xs ys : List String) (q : String) → contains (xs ++ ys) q ≡ (contains xs q || contains ys q)
contains-append [] ys q = ground arith
contains-append (x ∷ xs) ys q = ground (arith, contains-append xs ys q)

pub contains-filter :
    (p : String → Bool) (xs : List String) (q : String)
    → contains (filter p xs) q ≡ true
    → p q ≡ true
contains-filter p [] q h = ground arith
contains-filter p (x ∷ xs) q h = elim (Bool-cases (p x)) [
  | inr t ↦ contains-filter p xs q (rw t at h)
  | inl t ↦ elim (Bool-cases (q == x)) [
    | inl e ↦ rw ((eq_iff q x).0 e) t
    | inr e ↦ contains-filter p xs q (rw e at (rw t at h))
  ]
]

pub member-keys :
    (q : String) (d : Dict (List String)) → member q d ≡ true → contains (keys d) q ≡ true
unfolding lookup
member-keys q [] h = ground arith
member-keys q ((j, v) ∷ d) h = ground (arith, member-keys q d, eq_iff j q, eq_iff q j)

-- Some document at the path `p` has a link to `q` among its targets.
pub data Links : Dict (List String) → String → String → Type 0 where
  here :
      (p q : String) (hrefs : List String) (targets : Dict (List String))
      → contains hrefs q ≡ true
      → Links ((p, hrefs) ∷ targets) p q
  later :
      (p q r : String) (hrefs : List String) (targets : Dict (List String))
      → Links targets p q
      → Links ((r, hrefs) ∷ targets) p q

linking-path :
    (current path q : String) (hrefs : List String)
    → contains (linking current path hrefs) q ≡ true
    → q ≡ path
linking-path current path q [] h = ground arith
linking-path current path q (href ∷ hrefs) h =
    ground (arith, linking-path current path q hrefs, eq_iff q path)

linking_iff :
    (current path : String) (hrefs : List String)
    → contains (linking current path hrefs) path ≡ contains hrefs current
linking_iff current path [] = refl
linking_iff current path (href ∷ hrefs) =
    ground (
      arith,
      linking_iff current path hrefs,
      eq_refl path,
      eq_iff href current,
      eq_iff current href,
    )

linking-target :
    (current path q : String) (hrefs : List String)
    → contains (linking current path hrefs) q ≡ true
    → contains hrefs current ≡ true
linking-target current path q hrefs h =
    sym (linking_iff current path hrefs) ∙ rw (linking-path current path q hrefs h) at h

-- `incoming` has exactly the paths that link to the current one.
pub incoming_lem :
    (current q : String) (targets : Dict (List String))
    → contains (incoming targets current) q ≡ true
    → Links targets q current
incoming_lem current q [] h = ground arith
incoming_lem current q ((path, hrefs) ∷ targets) h =
    elim (Bool-cases (contains (linking current path hrefs) q)) [
      | inl t ↦
          rw (linking-path current path q hrefs t)
            (here path current hrefs targets (linking-target current path q hrefs t))
      | inr f ↦ later q current path hrefs targets (
          incoming_lem current q targets (
            ground
              (arith, contains-append (linking current path hrefs) (incoming targets current) q)))
    ]

pub incoming-Links :
    (q current : String) (targets : Dict (List String))
    → Links targets q current
    → contains (incoming targets current) q ≡ true
incoming-Links _ _ _ (here q current hrefs targets h) = ground (
  arith,
  contains-append (linking current q hrefs) (incoming targets current) q,
  linking_iff current q hrefs,
)
incoming-Links _ _ _ (later q current path hrefs targets k) = ground (
  arith,
  contains-append (linking current path hrefs) (incoming targets current) q,
  incoming-Links q current targets k,
)

pub incoming-keys :
    (current q : String) (targets : Dict (List String))
    → contains (incoming targets current) q ≡ true
    → contains (keys targets) q ≡ true
incoming-keys current q [] h = ground arith
incoming-keys current q ((path, hrefs) ∷ targets) h = ground (
  arith,
  contains-append (linking current path hrefs) (incoming targets current) q,
  linking-path current path q hrefs,
  incoming-keys current q targets,
  eq_iff q path,
)

filter-contains :
    (p : String → Bool) (xs : List String) (q : String)
    → contains xs q ≡ true
    → p q ≡ true
    → contains (filter p xs) q ≡ true
filter-contains p [] q h k = h
filter-contains p (x ∷ xs) q h k = elim (Bool-cases (q == x)) [
  | inl e ↦ let same : p x ≡ true = rw ((eq_iff q x).0 e) at k in rw same (rw e refl)
  | inr e ↦
      let later = filter-contains p xs q (rw e at h) k in
      elim (Bool-cases (p x)) [ inl t ↦ rw t (rw e later) | inr t ↦ rw t later ]
]

contains-filter_in :
    (p : String → Bool) (xs : List String) (q : String)
    → contains (filter p xs) q ≡ true
    → contains xs q ≡ true
contains-filter_in p [] q h = h
contains-filter_in p (x ∷ xs) q h = elim (Bool-cases (q == x)) [
  | inl e ↦ rw e refl
  | inr e ↦ elim (Bool-cases (p x)) [
    | inr t ↦ rw e (contains-filter_in p xs q (rw t at h))
    | inl t ↦ rw e (contains-filter_in p xs q (rw e at (rw t at h)))
  ]
]

module _ (targets : Dict (List String)) where
  -- One document links to the other: the one at `p` has `q` among its links, and there is a document at `q`;
  -- or some document at `q` has `p` among its links.
  pub data Edge (p q : String) : Type 0 where
    forwards :
        (hrefs : List String)
        → lookup p targets ≡ some hrefs
        → contains hrefs q ≡ true
        → member q targets ≡ true
        → Edge p q
    backwards : Links targets q p → Edge p q

  hrefs_at-some :
      (p : String) (hrefs : List String)
      → lookup p targets ≡ some hrefs
      → hrefs_at targets p ≡ hrefs
  hrefs_at-some p hrefs l = rw (l, hrefs_at) refl

  hrefs_at-none : (p : String) → lookup p targets ≡ none → hrefs_at targets p ≡ []
  hrefs_at-none p l = rw (l, hrefs_at) refl

  pub neighbors-Edge : (p q : String) → contains (neighbors targets p) q ≡ true → Edge p q
  unfolding neighbors
  neighbors-Edge p q h = elim (Bool-cases (contains (incoming targets p) q)) [
    | inl t ↦ backwards (incoming_lem p q targets t)
    | inr f ↦
        let out : contains (filter (λ href. member href targets) (hrefs_at targets p)) q ≡ true =
          ground (
            arith,
            contains-append (filter (λ href. member href targets) (hrefs_at targets p))
                (incoming targets p) q,
          ) in
        let there = contains-filter (λ href. member href targets) (hrefs_at targets p) q out in
        let linked = contains-filter_in (λ href. member href targets) (hrefs_at targets p) q out in
        elim (Option-cases (lookup p targets)) [
          | inl n ↦ ground (arith, rw (hrefs_at-none p n) at linked)
          | inr (hrefs, l) ↦ forwards hrefs l (rw (hrefs_at-some p hrefs l) at linked) there
        ]
  ]

  pub Edge-neighbors : (p q : String) → Edge p q → contains (neighbors targets p) q ≡ true
  unfolding neighbors
  Edge-neighbors p q (backwards k) = ground (
    arith,
    contains-append (filter (λ href. member href targets) (hrefs_at targets p)) (incoming targets p)
        q,
    incoming-Links q p targets k,
  )
  Edge-neighbors p q (forwards hrefs l linked there) = ground (
    arith,
    contains-append (filter (λ href. member href targets) (hrefs_at targets p)) (incoming targets p)
        q,
    filter-contains (λ href. member href targets) (hrefs_at targets p) q
        (rw (hrefs_at-some p hrefs l) linked) there,
  )
