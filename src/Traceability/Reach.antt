-- ===== src/Traceability/Reach.antt =====
-- The worklist of `trace_feature` against reachability along links.
use ai_dev_project.Prelude.{
  ℕ, zero, suc, ◌+◌, ◌≤◌, String, ◌≡◌, ◌↔◌, ◌⊎◌, inl, inr, ◌∙◌, refl, ap, true, ◌||◌, List, [], ◌∷◌,
  ◌==◌, contains, filter, length, Bool-cases, arith, eq_iff, eq_refl,
}
use ai_dev_project.Prelude.Dict.{Dict, member, keys}
use ai_dev_project.Python.{ok, >>=-eq-ok, ok-injective}
use ai_dev_project.Platform.{Platform}
use ai_dev_project.Traceability.Neighbors.{
  unselected, selected-add_neighbors, frontier-add_neighbors, new-add_neighbors, old-add_neighbors,
  measure-add_neighbors,
}
use ai_dev_project.Traceability.{
  Worklist, Index, add_neighbors, neighbors, hrefs_at, incoming, search, all_targets,
  local_link_targets, initial, of_feature, fuel_of,
}
use ai_dev_project.Traceability.Edges.{
  contains-append, contains-filter, member-keys, incoming-keys, Edge, neighbors-Edge,
  Edge-neighbors,
}

module _ (targets : Dict (List String)) where
  neighbors-keys :
      (p q : String) → contains (neighbors targets p) q ≡ true → contains (keys targets) q ≡ true
  unfolding neighbors
  neighbors-keys p q h = ground (
    arith,
    contains-append (filter (λ href. member href targets) (hrefs_at targets p)) (incoming targets p)
        q,
    contains-filter (λ href. member href targets) (hrefs_at targets p) q,
    member-keys q targets,
    incoming-keys p q targets,
  )

  abbrev at : List String → List String → List String → Worklist
  at selected frontier dangling = record {
    selected = selected;
    frontier = frontier;
    dangling = dangling;
  }

  search-ends :
      (fuel : ℕ) (selected frontier dangling : List String)
      → unselected selected (keys targets) + length frontier ≤ fuel
      → (search targets fuel (at selected frontier dangling)).frontier ≡ []
  unfolding search
  search-ends zero selected [] dangling h = refl
  search-ends zero selected (p ∷ rest) dangling h = ground arith
  search-ends (suc fuel) selected [] dangling h = refl
  search-ends (suc fuel) selected (p ∷ rest) dangling h = search-ends fuel _ _ _ (
      omega (
        arith,
        measure-add_neighbors (keys targets) (neighbors targets p) selected rest (neighbors-keys p),
      ))

  -- Every selected path is still to be read, or its neighbours are selected.
  Closed : List String → List String → Type 0
  Closed selected frontier =
      (p : String)
      → contains selected p ≡ true
      → (contains frontier p ≡ true)
        ⊎ ((q : String) → contains (neighbors targets p) q ≡ true → contains selected q ≡ true)

  -- Links lead from the start to the path, each followed forwards or backwards.
  pub data Reach (start : List String) : String → Type 0 where
    begin : (p : String) → contains start p ≡ true → Reach start p
    follow : (p q : String) → Reach start p → Edge targets p q → Reach start q

  Closed-step :
      (p : String) (selected rest : List String)
      → Closed selected (p ∷ rest)
      → let (selected', frontier') = add_neighbors (neighbors targets p) selected rest in
        Closed selected' frontier'
  unfolding Closed
  Closed-step p selected rest closed r h =
      let ns = neighbors targets p in
      let now_selected = λ (q : String) (k : (contains selected q || contains ns q) ≡ true).
        selected-add_neighbors q ns selected rest ∙ k in
      elim (new-add_neighbors r ns selected rest h) [
        | inr f ↦ inl f
        | inl s ↦ elim (closed r s) [
          | inr all_in ↦ inr (λ q n. now_selected q (ground (arith, all_in q n)))
          | inl f ↦ elim (Bool-cases (r == p)) [
            | inl e ↦ inr (λ q n. now_selected q (ground (arith, rw ((eq_iff r p).0 e) at n)))
            | inr e ↦ inl (frontier-add_neighbors r ns selected rest (ground arith))
          ]
        ]
      ]

  search-Closed :
      (fuel : ℕ) (selected frontier dangling : List String)
      → Closed selected frontier
      → let s = search targets fuel (at selected frontier dangling) in Closed s.selected s.frontier
  unfolding search
  search-Closed zero selected frontier dangling c = c
  search-Closed (suc fuel) selected [] dangling c = c
  search-Closed (suc fuel) selected (p ∷ rest) dangling c =
      search-Closed fuel _ _ _ (Closed-step p selected rest c)

  search-keeps :
      (fuel : ℕ) (selected frontier dangling : List String) (q : String)
      → contains selected q ≡ true
      → contains (search targets fuel (at selected frontier dangling)).selected q ≡ true
  unfolding search
  search-keeps zero selected frontier dangling q h = h
  search-keeps (suc fuel) selected [] dangling q h = h
  search-keeps (suc fuel) selected (p ∷ rest) dangling q h =
      search-keeps fuel _ _ _ q
        (selected-add_neighbors q (neighbors targets p) selected rest ∙ ground arith)

  search_sound :
      (start : List String) (fuel : ℕ) (selected frontier dangling : List String)
      → ((q : String) → contains selected q ≡ true → Reach start q)
      → ((q : String) → contains frontier q ≡ true → contains selected q ≡ true)
      → (q : String)
      → contains (search targets fuel (at selected frontier dangling)).selected q ≡ true
      → Reach start q
  unfolding search
  search_sound start zero selected frontier dangling sound inside q h = sound q h
  search_sound start (suc fuel) selected [] dangling sound inside q h = sound q h
  search_sound start (suc fuel) selected (p ∷ rest) dangling sound inside q h =
      let ns = neighbors targets p in
      let here : Reach start p = sound p (inside p (ground (arith, eq_refl p))) in
      search_sound start fuel _ _ _
        (λ r k. elim (Bool-cases (contains selected r)) [
          | inl t ↦ sound r t
          | inr t ↦ follow p r here (
              neighbors-Edge targets p r
                (ground (arith, selected-add_neighbors r ns selected rest)))
        ])
        (λ r k. elim (old-add_neighbors r ns selected rest k) [
          | inr s ↦ s
          | inl f ↦
              selected-add_neighbors r ns selected rest ∙ ground (arith, inside r (ground arith))
        ])
        q h

selected-Reach :
    (targets : Dict (List String)) (start selected : List String)
    → ((p : String) → contains start p ≡ true → contains selected p ≡ true)
    → Closed targets selected []
    → (q : String) → Reach targets start q
    → contains selected q ≡ true
unfolding Closed
selected-Reach targets start selected keeps closed _ (begin q h) = keeps q h
selected-Reach targets start selected keeps closed _ (follow p r k n) =
    elim (closed p (selected-Reach targets start selected keeps closed p k)) [
      | inl f ↦ ground arith
      | inr all_in ↦ all_in r (Edge-neighbors targets p r n)
    ]

unselected_le : (selected ks : List String) → unselected selected ks ≤ length ks
unselected_le selected [] = omega arith
unselected_le selected (k ∷ ks) = ground (arith, unselected_le selected ks)

all_targets-length :
    (P : Platform) (index : Index) (targets : Dict (List String))
    → all_targets P index ≡ ok targets
    → length (keys targets) ≡ length index
unfolding all_targets
all_targets-length P [] targets h = ground arith
all_targets-length P ((path, doc) ∷ index) targets h =
    let (found, a, h₁) = >>=-eq-ok (local_link_targets P doc) _ h in
    let (rest, b, h₂) = >>=-eq-ok (all_targets P index) _ h₁ in
    rw (← ok-injective _ _ h₂) (ap suc (all_targets-length P index rest b))

-- If the links of every document can be read, the search of a feature ends with nothing left to read, and it
-- has selected exactly the paths that links reach from the documents of the feature, each link followed
-- forwards, to the path of a document, or backwards, from a document that has it.
pub search-Reach_iff :
    (P : Platform) (index : Index) (feature_id : String) (targets : Dict (List String))
    → all_targets P index ≡ ok targets
    → let start = initial index feature_id in
      let s = search targets (fuel_of index start) start in
      (s.frontier ≡ [])
      × ((path : String)
          → (contains s.selected path ≡ true) ↔ Reach targets (of_feature index feature_id) path)
unfolding Closed
search-Reach_iff P index feature_id targets h =
    let start = of_feature index feature_id in
    let fuel = fuel_of index (initial index feature_id) in
    let ends =
      search-ends targets fuel start start []
        (omega (arith, unselected_le start (keys targets), all_targets-length P index targets h)) in
    (
      ends,
      λ path. (
        search_sound targets start fuel start start [] (λ q k. begin q k) (λ q k. k) path,
        selected-Reach targets start _ (search-keeps targets fuel start start [])
            (rw ends at (search-Closed targets fuel start start [] (λ p k. inl k))) path,
      ),
    )
