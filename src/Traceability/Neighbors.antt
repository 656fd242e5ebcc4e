-- ===== src/Traceability/Neighbors.antt =====
-- What a step of the worklist does to the selected paths, to the paths still to be read, and to their count.
use ai_dev_project.Prelude.{
  ℕ, suc, ◌+◌, ◌≤◌, ◌<◌, String, ◌≡◌, ◌⊎◌, inl, inr, ◌∙◌, true, false, ◌||◌, List, [], ◌∷◌, ◌==◌,
  contains, length, Bool-cases, arith, eq_iff, eq_refl, if◌then◌else◌,
}
use ai_dev_project.Traceability.{add_neighbors}

-- How many of the paths are not selected.
abbrev pub unselected : List String → List String → ℕ
unselected selected [] = 0
unselected selected (k ∷ ks) =
    let rest = unselected selected ks in if contains selected k then rest else suc rest

unselected-cons_le :
    (selected ks : List String) (path : String)
    → unselected (path ∷ selected) ks ≤ unselected selected ks
unselected-cons_le selected [] path = omega arith
unselected-cons_le selected (k ∷ ks) path = ground (arith, unselected-cons_le selected ks path)

unselected-cons_lt :
    (selected ks : List String) (path : String)
    → contains ks path ≡ true
    → contains selected path ≡ false
    → unselected (path ∷ selected) ks < unselected selected ks
unselected-cons_lt selected [] path h n = ground arith
unselected-cons_lt selected (k ∷ ks) path h n =
    ground (
      arith,
      eq_iff path k,
      unselected-cons_le selected ks path,
      unselected-cons_lt selected ks path,
    )

add_neighbors-known :
    (n : String) (ns selected frontier : List String)
    → contains selected n ≡ true
    → add_neighbors (n ∷ ns) selected frontier ≡ add_neighbors ns selected frontier
unfolding add_neighbors
add_neighbors-known n ns selected frontier t = rw (t, add_neighbors)

add_neighbors-new :
    (n : String) (ns selected frontier : List String)
    → contains selected n ≡ false
    → add_neighbors (n ∷ ns) selected frontier ≡ add_neighbors ns (n ∷ selected) (n ∷ frontier)
unfolding add_neighbors
add_neighbors-new n ns selected frontier t = rw (t, add_neighbors)

-- What adding neighbours does, at one path.
module _ (q : String) where
  pub selected-add_neighbors :
      (ns selected frontier : List String)
      → contains (add_neighbors ns selected frontier).0 q ≡ (contains selected q || contains ns q)
  unfolding add_neighbors
  selected-add_neighbors [] selected frontier = ground arith
  selected-add_neighbors (n ∷ ns) selected frontier = elim (Bool-cases (contains selected n)) [
    | inl t ↦
        rw (add_neighbors-known n ns selected frontier t)
          (ground (arith, selected-add_neighbors ns selected frontier, eq_iff q n))
    | inr t ↦
        rw (add_neighbors-new n ns selected frontier t)
          (ground (arith, selected-add_neighbors ns (n ∷ selected) (n ∷ frontier)))
  ]

  pub frontier-add_neighbors :
      (ns selected frontier : List String)
      → contains frontier q ≡ true
      → contains (add_neighbors ns selected frontier).1 q ≡ true
  unfolding add_neighbors
  frontier-add_neighbors [] selected frontier h = h
  frontier-add_neighbors (n ∷ ns) selected frontier h = elim (Bool-cases (contains selected n)) [
    | inl t ↦
        rw (add_neighbors-known n ns selected frontier t)
          (frontier-add_neighbors ns selected frontier h)
    | inr t ↦
        rw (add_neighbors-new n ns selected frontier t)
          (frontier-add_neighbors ns (n ∷ selected) (n ∷ frontier) (ground arith))
  ]

  pub new-add_neighbors :
      (ns selected frontier : List String)
      → contains (add_neighbors ns selected frontier).0 q ≡ true
      → (contains selected q ≡ true) ⊎ (contains (add_neighbors ns selected frontier).1 q ≡ true)
  unfolding add_neighbors
  new-add_neighbors [] selected frontier h = inl h
  new-add_neighbors (n ∷ ns) selected frontier h = elim (Bool-cases (contains selected n)) [
    | inl t ↦ rw (add_neighbors-known n ns selected frontier t) (
        new-add_neighbors ns selected frontier
          (rw (add_neighbors-known n ns selected frontier t) at h))
    | inr t ↦
        rw (add_neighbors-new n ns selected frontier t)
          (elim (new-add_neighbors ns (n ∷ selected) (n ∷ frontier)
            (rw (add_neighbors-new n ns selected frontier t) at h)) [
              | inr f ↦ inr f
              | inl s ↦ elim (Bool-cases (q == n)) [
                | inl e ↦
                    inr (frontier-add_neighbors ns (n ∷ selected) (n ∷ frontier) (ground arith))
                | inr e ↦ inl (ground arith)
              ]
            ])
  ]

  pub old-add_neighbors :
      (ns selected frontier : List String)
      → contains (add_neighbors ns selected frontier).1 q ≡ true
      → (contains frontier q ≡ true) ⊎ (contains (add_neighbors ns selected frontier).0 q ≡ true)
  unfolding add_neighbors
  old-add_neighbors [] selected frontier h = inl h
  old-add_neighbors (n ∷ ns) selected frontier h = elim (Bool-cases (contains selected n)) [
    | inl t ↦ rw (add_neighbors-known n ns selected frontier t) (
        old-add_neighbors ns selected frontier
          (rw (add_neighbors-known n ns selected frontier t) at h))
    | inr t ↦
        rw (add_neighbors-new n ns selected frontier t)
          (elim (old-add_neighbors ns (n ∷ selected) (n ∷ frontier)
            (rw (add_neighbors-new n ns selected frontier t) at h)) [
              | inr s ↦ inr s
              | inl f ↦ elim (Bool-cases (q == n)) [
                | inr e ↦ inl (ground arith)
                | inl e ↦
                    inr (selected-add_neighbors ns (n ∷ selected) (n ∷ frontier) ∙ ground arith)
              ]
            ])
  ]

module _ (ks : List String) where
  pub measure-add_neighbors :
      (ns selected frontier : List String)
      → ((q : String) → contains ns q ≡ true → contains ks q ≡ true)
      → let (selected', frontier') = add_neighbors ns selected frontier in
        unselected selected' ks + length frontier' ≤ unselected selected ks + length frontier
  unfolding add_neighbors
  measure-add_neighbors [] selected frontier inside = omega arith
  measure-add_neighbors (n ∷ ns) selected frontier inside =
      let here : contains ks n ≡ true = inside n (ground (arith, eq_refl n)) in
      let rest = λ (q : String) (h : contains ns q ≡ true). inside q (ground arith) in
      elim (Bool-cases (contains selected n)) [
        | inl t ↦
            rw (add_neighbors-known n ns selected frontier t)
              (measure-add_neighbors ns selected frontier rest)
        | inr t ↦ rw (add_neighbors-new n ns selected frontier t) (
            omega (
              arith,
              measure-add_neighbors ns (n ∷ selected) (n ∷ frontier) rest,
              unselected-cons_lt selected ks n here t,
            ))
      ]
