-- ===== src/Prelude/Lists.antt =====
-- Lists of the model: lengths over the native numbers, Python's `in`, `any`, `all`, slices, sorting.
use Prim.Native.Nat.{ℕ, zero, suc, ◌+◌, ◌-◌, min}
use Prim.Native.String.{String}
use mathlib.Core.Path.{◌≡◌, refl, ap}
use native.Mathlib.Nat.{zero-add, add-zero, suc-add}
use mathlib.Core.Logic.{◌⊎◌, inl, inr}
use mathlib.Core.Bool.{Bool, true, false, ◌&&◌, ◌||◌}
use mathlib.Core.List.{List, [], ◌∷◌, ◌++◌}
use native.Mathlib.Omega.{arith}
use text.Mathlib.Text.{◌==◌}
use ai_dev_project.Prelude.Tests.{if◌then◌else◌, Bool-cases}

module _ {ℓ} {A : Type ℓ} where
  abbrev pub length : List A → ℕ
  length [] = 0
  length (x ∷ xs) = suc (length xs)

  abbrev pub take : ℕ → List A → List A
  take zero xs = []
  take (suc n) [] = []
  take (suc n) (x ∷ xs) = x ∷ take n xs

  abbrev pub drop : ℕ → List A → List A
  drop zero xs = xs
  drop (suc n) [] = []
  drop (suc n) (x ∷ xs) = drop n xs

  abbrev pub is_empty : List A → Bool
  is_empty [] = true
  is_empty (x ∷ xs) = false

  abbrev pub any : (A → Bool) → List A → Bool
  any p [] = false
  any p (x ∷ xs) = p x || any p xs

  abbrev pub all : (A → Bool) → List A → Bool
  all p [] = true
  all p (x ∷ xs) = p x && all p xs

  -- A comprehension with one condition.
  abbrev pub filter : (A → Bool) → List A → List A
  filter p [] = []
  filter p (x ∷ xs) = let rest = filter p xs in if p x then x ∷ rest else rest

  pub length-append : (xs ys : List A) → length (xs ++ ys) ≡ length xs + length ys
  length-append [] ys = omega arith
  length-append (x ∷ xs) ys = omega (arith, length-append xs ys)

  pub length-take : (n : ℕ) (xs : List A) → length (take n xs) ≡ min n (length xs)
  length-take zero xs = omega arith
  length-take (suc n) [] = omega arith
  length-take (suc n) (x ∷ xs) = omega (arith, length-take n xs)

  pub length-drop : (n : ℕ) (xs : List A) → length (drop n xs) ≡ length xs - n
  length-drop zero xs = omega arith
  length-drop (suc n) [] = omega arith
  length-drop (suc n) (x ∷ xs) = omega (arith, length-drop n xs)

  pub take-append-drop : (n : ℕ) (xs : List A) → take n xs ++ drop n xs ≡ xs
  take-append-drop zero xs = refl
  take-append-drop (suc n) [] = refl
  take-append-drop (suc n) (x ∷ xs) = ap (λ ys. x ∷ ys) (take-append-drop n xs)

  pub drop-drop : (n k : ℕ) (xs : List A) → drop k (drop n xs) ≡ drop (n + k) xs
  drop-drop zero k xs = rw zero-add
  drop-drop (suc n) zero [] = rw add-zero
  drop-drop (suc n) (suc k) [] = rw suc-add
  drop-drop (suc n) k (x ∷ xs) = rw suc-add (drop-drop n k xs)

pub is_empty→nil {ℓ} : {A : Type ℓ} (l : List A) → is_empty l ≡ true → l ≡ []
is_empty→nil [] h = refl
is_empty→nil (a ∷ l) h = cc

-- Each item has the property.
abbrev pub Each {ℓ} : {A : Type ℓ} → (A → Type 0) → List A → Type 0
Each Q [] = Unit
Each Q (a ∷ rest) = Q a × Each Q rest

-- Some item has the property.
abbrev pub Any {ℓ} : {A : Type ℓ} → (A → Type 0) → List A → Type 0
Any P [] = ⊥
Any P (x ∷ xs) = P x ⊎ Any P xs

module _ {ℓ} {A : Type ℓ} where
  pub Any-map : (P Q : A → Type 0) (xs : List A) → ((x : A) → P x → Q x) → Any P xs → Any Q xs
  Any-map P Q [] f h = h
  Any-map P Q (x ∷ xs) f (inl h) = inl (f x h)
  Any-map P Q (x ∷ xs) f (inr h) = inr (Any-map P Q xs f h)

  pub Any-filter :
      (p : A → Bool) (Q : A → Type 0) (xs : List A)
      → Any Q (filter p xs)
      → Any (λ x. (p x ≡ true) × Q x) xs
  Any-filter p Q [] h = h
  Any-filter p Q (x ∷ xs) h = elim (Bool-cases (p x)) [
    | inr t ↦ inr (Any-filter p Q xs (rw t at h))
    | inl t ↦
        let found : Q x ⊎ Any Q (filter p xs) = rw t at h in
        elim found [ inl q ↦ inl (t, q) | inr r ↦ inr (Any-filter p Q xs r) ]
  ]

  pub filter-Any :
      (p : A → Bool) (Q : A → Type 0) (xs : List A)
      → Any (λ x. (p x ≡ true) × Q x) xs
      → Any Q (filter p xs)
  filter-Any p Q [] h = h
  filter-Any p Q (x ∷ xs) (inl (t, q)) = rw t (inl q)
  filter-Any p Q (x ∷ xs) (inr h) = elim (Bool-cases (p x)) [
    | inl t ↦ rw t (inr (filter-Any p Q xs h))
    | inr t ↦ rw t (filter-Any p Q xs h)
  ]

-- `x in xs` for texts.
abbrev pub contains : List String → String → Bool
contains [] a = false
contains (x ∷ xs) a = a == x || contains xs a

-- `tuple(dict.fromkeys(xs))`: each text once, at its first place; `seen` holds the keys so far.
abbrev pub unique_onto : List String → List String → List String
unique_onto seen [] = seen
unique_onto seen (x ∷ xs) = unique_onto (if contains seen x then seen else seen ++ (x ∷ [])) xs
