-- ===== src/Prelude/TextLaws.antt =====
-- Laws of the text methods at texts that are joined by `+`.
use Prim.Native.Nat.{ℕ, suc}
use Prim.Native.String.append
use mathlib.Core.Path.{◌≡◌, refl, ap}
use mathlib.Core.Bool.{true, ◌&&◌}
use native.Mathlib.Omega.{arith}
use ai_dev_project.Prelude.Text.{String, ◌<>◌, begins_with, drop_chars, is_ascii}

-- `len(s)`, by the clauses of `drop_chars`.
abbrev pub size : String → ℕ
size String.[] = 0
size (String.◌∷◌ c s) = suc (size s)

begins_with-nil : (s : String) → begins_with s "" ≡ true
unfolding begins_with
begins_with-nil String.[] = refl
begins_with-nil (String.◌∷◌ c s) = refl

pub begins_with-append : (p s : String) → begins_with (p <> s) p ≡ true
unfolding begins_with
begins_with-append String.[] s = begins_with-nil ("" <> s)
begins_with-append (String.◌∷◌ c p) s = rw append.cons (ground (arith, begins_with-append p s))

pub drop_chars-append : (p s : String) → drop_chars (size p) (p <> s) ≡ s
unfolding drop_chars
drop_chars-append String.[] s = rw append.nil
drop_chars-append (String.◌∷◌ c p) s = rw append.cons (drop_chars-append p s)

pub is_ascii-append : (a b : String) → is_ascii (a <> b) ≡ (is_ascii a && is_ascii b)
unfolding is_ascii
is_ascii-append String.[] b = ap is_ascii (append.nil b)
is_ascii-append (String.◌∷◌ c a) b = rw append.cons (ground (arith, is_ascii-append a b))
