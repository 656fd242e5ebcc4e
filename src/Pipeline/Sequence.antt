-- ===== src/Pipeline/Sequence.antt =====
-- What holds of each step of a sequence of calls holds of the sequence.
use ai_dev_project.Prelude.{◌≡◌, inl, inr}
use ai_dev_project.Python.{Result, ok, Result-cases}
use ai_dev_project.Tools.Effects.{Act, lift}
use ai_dev_project.Pipeline.Calls.{◌>>=◌}

-- A relation between the state before and the state after, and its steps.
pub record IsPreorder {S : Type 0} (R : S → S → Type 0) : Type 0 where
  pub same : (s : S) → R s s
  pub compose : (s t u : S) → R s t → R t u → R s u

module _ {S : Type 0} (R : S → S → Type 0) where
  -- Whether the call raises or not.
  pub record Relates {A : Type 0} (m : Act S A) : Type 0 where
    pub relates : (s : S) → R s (m s).1

  module _ (o : IsPreorder R) where
    pub Relates-lift : {A : Type 0} (r : Result A) → Relates (lift {W = S} r)
    Relates-lift r = record { relates = λ s. o.same s }

    Relates-then :
        {A B : Type 0} (m : Act S A) (f : A → Act S B)
        → Relates m
        → ((s : S) (a : A) → (m s).0 ≡ ok a → Relates (f a))
        → (s : S) → R s ((m >>= f) s).1
    unfolding ◌>>=◌
    Relates-then m f first rest s = elim (Result-cases (m s).0) [
      | inl (a, q) ↦ rw q (o.compose s (m s).1 _ (first.relates s) ((rest s a q).relates (m s).1))
      | inr (e, q) ↦ rw q (first.relates s)
    ]

    -- The rest of a sequence may use what its first part returned.
    pub Relates->>= :
        {A B : Type 0} {m : Act S A} {f : A → Act S B}
        → Relates m
        → ((s : S) (a : A) → (m s).0 ≡ ok a → Relates (f a))
        → Relates (m >>= f)
    Relates->>= {m = m} {f = f} first rest = record { relates = Relates-then m f first rest }
