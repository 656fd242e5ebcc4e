-- ===== src/Prelude/Sort.antt =====
-- `sorted`: a stable insertion sort by a strict order.
use Prim.Native.String.{compare}
use mathlib.Core.Bool.{Bool}
use mathlib.Core.List.{List, [], ◌∷◌}
use text.Mathlib.Text.{is_lt}
use ai_dev_project.Prelude.Tests.{if◌then◌else◌}
use ai_dev_project.Prelude.Text.{String}

module _ {ℓ} {A : Type ℓ} (less : A → A → Bool) where
  -- An equal element stays in front of the one that is put in.
  unfoldable pub insort : A → List A → List A
  insort a [] = a ∷ []
  insort a (b ∷ bs) = if less b a then b ∷ insort a bs else a ∷ b ∷ bs

  unfoldable pub sort : List A → List A
  unfolding insort
  sort [] = []
  sort (a ∷ rest) = insort a (sort rest)

-- `a < b` for texts, by code points.
abbrev pub text_less : String → String → Bool
text_less a b = is_lt (compare a b)
