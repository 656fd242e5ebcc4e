-- ===== src/Python.antt =====
-- Exceptions as values: a function that may raise returns a `Result`. The classes are the ones that
-- the program raises or catches; a message is kept only where the program reads it back.
use ai_dev_project.Prelude.Int.{ℤ}
use ai_dev_project.Prelude.{String, ◌≡◌, ◌⊎◌, inl, inr, refl, Bool, true, false}

pub data Exn : Type 0 where
  value_error key_error type_error attribute_error index_error assertion_error os_error : Exn
  unicode_encode_error unicode_decode_error json_decode_error : Exn
  sensitive_content_error skill_error unknown_skill_error llm_error : Exn
  run_unknown_error unknown_tool_error : String → Exn
  mcp_error : ℤ → String → Exn
  pipeline_error candidate_error subprocess_error : Exn

-- `except ValueError`: the class and the subclasses of it that occur.
abbrev pub is_value_error : Exn → Bool
is_value_error value_error = true
is_value_error unicode_encode_error = true
is_value_error unicode_decode_error = true
is_value_error json_decode_error = true
is_value_error sensitive_content_error = true
is_value_error skill_error = true
is_value_error (run_unknown_error _) = true
is_value_error candidate_error = true
is_value_error _ = false

-- `except KeyError`
abbrev pub is_key_error : Exn → Bool
is_key_error key_error = true
is_key_error unknown_skill_error = true
is_key_error (unknown_tool_error _) = true
is_key_error _ = false

pub data Result {ℓ} (A : Type ℓ) : Type ℓ where
  raised : Exn → Result A
  ok : A → Result A

module _ {ℓ κ} {A : Type ℓ} {B : Type κ} where
  infixl 5 ◌>>◌ ◌>>=◌
  -- What follows a call that raises is not run.
  abbrev pub ◌>>=◌ : Result A → (A → Result B) → Result B
  raised e >>= next = raised e
  ok a >>= next = next a

  abbrev pub ◌>>◌ : Result A → Result B → Result B
  first >> second = first >>= λ _. second

-- `if failed: raise e`
abbrev pub raise_if : Bool → Exn → Result (Unit {0})
raise_if true e = raised e
raise_if false e = ok tt

module _ {ℓ κ} {A : Type ℓ} {B : Type κ} where
  -- A call that returned came from a part that returned.
  pub >>=-eq-ok :
      (m : Result A) (next : A → Result B) {b : B}
      → (m >>= next) ≡ ok b
      → (a : A) × (m ≡ ok a) × (next a ≡ ok b)
  >>=-eq-ok (raised e) next h = cc
  >>=-eq-ok (ok a) next h = (a, refl, h)

pub Result-cases {ℓ} :
    {A : Type ℓ} (m : Result A) → ((a : A) × (m ≡ ok a)) ⊎ ((e : Exn) × (m ≡ raised e))
Result-cases (ok a) = inl (a, refl)
Result-cases (raised e) = inr (e, refl)

pub ok-injective {ℓ} : {A : Type ℓ} (a b : A) → ok a ≡ ok b → a ≡ b
ok-injective a b h = cc
