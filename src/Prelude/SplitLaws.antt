-- ===== src/Prelude/SplitLaws.antt =====
-- `split` undoes `join` on parts without the separator, and `join` undoes `split`.
use Prim.Native.Char.{Char, code}
use Prim.Native.Nat.{ℕ}
use Prim.Native.String.append
use mathlib.Core.Path.{◌≡◌, refl, ap, ◌∙◌}
use mathlib.Core.Logic.{inl, inr}
use mathlib.Core.Bool.{false}
use mathlib.Core.List.{List, [], ◌∷◌}
use native.Mathlib.Omega.{arith}
use text.Mathlib.TextEquality.{Char-path}
use ai_dev_project.Prelude.Tests.{eqb, Bool-cases}
use ai_dev_project.Prelude.Text.{String, ◌<>◌, split, join, has_code, push}

-- A text without the separator is one part.
pub split-one : (d : ℕ) (a : String) → has_code d a ≡ false → split d a ≡ a ∷ []
unfolding split has_code
split-one d String.[] h = refl
split-one d (String.◌∷◌ c a) h = ground (arith, split-one d a)

pub split-append :
    (c : Char) (a b : String)
    → has_code (code c) a ≡ false
    → split (code c) (a <> String.◌∷◌ c b) ≡ a ∷ split (code c) b
unfolding split has_code
split-append d String.[] b h = rw (append.nil (String.◌∷◌ d b)) (ground arith)
split-append d (String.◌∷◌ c a) b h = rw append.cons (ground (arith, split-append d a b))

pub split-cons : (d : ℕ) (s : String) → (w : String) × (ws : List String) × (split d s ≡ w ∷ ws)
unfolding split
split-cons d String.[] = ("", [], refl)
split-cons d (String.◌∷◌ c s) =
    let (w, ws, e) = split-cons d s in
    elim (Bool-cases (eqb (code c) d)) [
      | inl t ↦ ("", split d s, rw t)
      | inr t ↦ (String.◌∷◌ c w, ws, rw t (rw e))
    ]

join-nil-cons :
    (sep w : String) (ws : List String) → join sep ("" ∷ w ∷ ws) ≡ sep <> join sep (w ∷ ws)
unfolding join
join-nil-cons sep w ws = append.nil (sep <> join sep (w ∷ ws))

join-push :
    (c : Char) (sep w : String) (ws : List String)
    → join sep (push c (w ∷ ws)) ≡ String.◌∷◌ c (join sep (w ∷ ws))
unfolding join
join-push c sep w [] = refl
join-push c sep w (v ∷ ws) = append.cons c w (sep <> join sep (v ∷ ws))

pub join-split : (d : Char) (s : String) → join (String.◌∷◌ d "") (split (code d) s) ≡ s
unfolding split
join-split d String.[] = unfold join in refl
join-split d (String.◌∷◌ c s) =
    let (w, ws, e) = split-cons (code d) s in
    let ih : join (String.◌∷◌ d "") (w ∷ ws) ≡ s = rw e at (join-split d s) in
    elim (Bool-cases (eqb (code c) (code d))) [
      | inl t ↦ rw t (
          rw e (
            join-nil-cons (String.◌∷◌ d "") w ws
            ∙ rw (append.cons d "", append.nil (join (String.◌∷◌ d "") (w ∷ ws)), ih)
                (ap (λ x. String.◌∷◌ x s) (Char-path d c (ground arith)))))
      | inr t ↦ rw t (rw e (join-push c (String.◌∷◌ d "") w ws ∙ ap (λ x. String.◌∷◌ c x) ih))
    ]

pub split-append_join :
    (c : Char) (a b : String)
    → has_code (code c) a ≡ false
    → split (code c) (a <> ((String.◌∷◌ c "") <> b)) ≡ a ∷ split (code c) b
split-append_join c a b h = rw (append.cons c "" b, append.nil b) (split-append c a b h)
