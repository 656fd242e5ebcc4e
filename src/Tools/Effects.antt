-- ===== src/Tools/Effects.antt =====
-- Calls that act on a world and may raise, in sequence: what a call that raises has done stays done.
use ai_dev_project.Prelude.{◌≡◌, ap, inl, inr, arith}
use ai_dev_project.Python.{Result, ok, raised, Result-cases}

abbrev pub Act : Type 0 → Type 0 → Type 0
Act W A = W → Result A × W

module _ {W A B : Type 0} where
  abbrev pub next : (A → Act W B) → Result A → Act W B
  next f (raised e) w = (raised e, w)
  next f (ok a) w = f a w

  abbrev pub and_then : Act W A → (A → Act W B) → Act W B
  and_then m f w = let (r, w') = m w in next f r w'

-- A computation that does not act.
abbrev pub lift : {W A : Type 0} → Result A → Act W A
lift r w = (r, w)

-- A last step that does not act leaves the world as it is.
pub world-and_then-lift :
    {W A B : Type 0} (m : Act W A) (f : A → Result B) (w : W)
    → (and_then m (λ a. lift (f a)) w).1 ≡ (m w).1
world-and_then-lift m f w = elim (Result-cases (m w).0) [ inl (a, q) ↦ rw q | inr (e, q) ↦ rw q ]

-- A sequence that returned: so did its first part, and the rest started where that ended.
pub and_then-eq-ok :
    {W A B : Type 0} (m : Act W A) (f : A → Act W B) (w : W) {b : B}
    → (and_then m f w).0 ≡ ok b
    → (a : A) × ((m w).0 ≡ ok a) × ((f a (m w).1).0 ≡ ok b) × ((and_then m f w).1 ≡ (f a (m w).1).1)
and_then-eq-ok m f w h = elim (Result-cases (m w).0) [
  | inl (a, q) ↦ (a, q, rw q at h, rw q)
  | inr (e, q) ↦ ground (arith, q)
]

-- A sequence goes on with the result of a first part that returned.
pub returns-next :
    {W A B : Type 0} {r : Result A} {a : A} (q : r ≡ ok a) (f : A → Act W B) (w : W)
    → (next f r w).0 ≡ (f a w).0
returns-next q f w = ap (λ r. (next f r w).0) q
