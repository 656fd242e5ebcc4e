-- ===== src/Skills/Base/Context.antt =====
-- `build_context`: what enters the context of the model.
use ai_dev_project.Prelude.{
  String, ◌≡◌, ◌⊎◌, inl, inr, refl, Bool, true, not, some, List, [], ◌∷◌, all, Any, ◌==◌, eq_iff,
  Bool-cases, arith,
}
use ai_dev_project.Python.{ok}
use ai_dev_project.Json.{Value, obj, Fields, end, get, insert}
use ai_dev_project.Json.Laws.{get-end, get-insert}
use ai_dev_project.Trust.{classify_source, is_sensitive}
use ai_dev_project.Skills.Base.{ContextInput, build_context_onto, build_context}

abbrev pub is_clean : ContextInput → Bool
is_clean input = not (is_sensitive (classify_source input.source))

-- The input gives the key this value.
pub Gives : String → Value → ContextInput → Type 0
Gives key v input = (input.name ≡ key) × (v ≡ obj input.document)

clean-build_context_onto :
    (context c : Fields) (inputs : List ContextInput)
    → build_context_onto context inputs ≡ ok c
    → all is_clean inputs ≡ true
unfolding build_context_onto
clean-build_context_onto context c [] h = refl
clean-build_context_onto context c (input ∷ inputs) h =
    elim (Bool-cases (is_sensitive (classify_source input.source))) [
      | inl t ↦ ground (arith, t)
      | inr t ↦ rw t (
          clean-build_context_onto (insert input.name (obj input.document) context) c inputs
            (rw t at h))
    ]

given-build_context_onto :
    (context c : Fields) (inputs : List ContextInput) (key : String) (v : Value)
    → build_context_onto context inputs ≡ ok c
    → get c key ≡ some v
    → (get context key ≡ some v) ⊎ Any (Gives key v) inputs
unfolding build_context_onto Gives
given-build_context_onto context c [] key v h g = inl (ground arith)
given-build_context_onto context c (input ∷ inputs) key v h g =
    elim (Bool-cases (is_sensitive (classify_source input.source))) [
      | inl t ↦ ground (arith, t)
      | inr t ↦
          elim (given-build_context_onto (insert input.name (obj input.document) context) c inputs
            key v (rw t at h) g) [
              | inr later ↦ inr (inr later)
              | inl here ↦ elim (Bool-cases (input.name == key)) [
                | inl e ↦ inr (
                    inl (
                      (eq_iff input.name key).0 e,
                      ground
                          (arith, e, here, get-insert input.name key (obj input.document) context),
                    ))
                | inr e ↦ inl (
                    ground (arith, e, here, get-insert input.name key (obj input.document) context))
              ]
            ]
    ]

-- A context is built only if no input is from a sensitive source, and then everything in it is the
-- document of an input, under that input's name.
pub build_context_lem :
    (inputs : List ContextInput) (c : Fields)
    → build_context inputs ≡ ok c
    → (all is_clean inputs ≡ true)
      × ((key : String) (v : Value) → get c key ≡ some v → Any (Gives key v) inputs)
build_context_lem inputs c h = (
  clean-build_context_onto end c inputs h,
  λ key v g. elim (given-build_context_onto end c inputs key v h g) [
    | inl e ↦ ground (arith, get-end key)
    | inr a ↦ a
  ],
)
