-- ===== src/SharedPtr/Handles.antt =====
-- How many handles hold a cell.
use learn_note.Prelude.{
  ℕ, zero, suc, ◌+◌, ◌≤◌, ◌<◌, ◌≡◌, ◌==◌, refl, ap, Option, none, some, List, [], ◌∷◌, ◌++◌, arith,
  if◌then◌else◌, get_or, set, length, ◌≢◌, Bool-cases, inl, inr, if-false,
}

abbrev pub holds : ℕ → Option ℕ → ℕ
holds c none = 0
holds c (some d) = if d == c then 1 else 0

abbrev pub owners : ℕ → List (Option ℕ) → ℕ
owners c [] = 0
owners c (h ∷ hs) = holds c h + owners c hs

pub owners-append :
    (c : ℕ) (hs : List (Option ℕ)) (h : Option ℕ)
    → owners c (hs ++ h ∷ []) ≡ owners c hs + holds c h
owners-append c [] h = omega arith
owners-append c (g ∷ hs) h = omega (arith, owners-append c hs h)

pub owners-set :
    (c : ℕ) (hs : List (Option ℕ)) (i : ℕ) (h : Option ℕ)
    → i < length hs
    → owners c (set hs i h) + holds c (get_or hs i none) ≡ owners c hs + holds c h
owners-set c [] i h l = absurd (omega arith)
owners-set c (g ∷ hs) zero h l = omega arith
owners-set c (g ∷ hs) (suc i) h l = omega (arith, owners-set c hs i h (omega arith))

-- A handle counts among the owners.
pub holds-le : (c : ℕ) (hs : List (Option ℕ)) (i : ℕ) → holds c (get_or hs i none) ≤ owners c hs
holds-le c [] i = omega arith
holds-le c (g ∷ hs) zero = omega arith
holds-le c (g ∷ hs) (suc i) = omega (arith, holds-le c hs i)

pub holds_self : (d : ℕ) → holds d (some d) ≡ 1
holds_self d = ground arith

pub holds_other : (c d : ℕ) → d ≢ c → holds c (some d) ≡ 0
holds_other c d h = elim (Bool-cases (d == c)) [
  | inl t ↦ absurd (h (ground arith))
  | inr t ↦ if-false 1 0 t
]

pub holds-le_two :
    (c : ℕ) (hs : List (Option ℕ)) (i j : ℕ)
    → i ≢ j
    → holds c (get_or hs i none) + holds c (get_or hs j none) ≤ owners c hs
holds-le_two c [] i j h = omega arith
holds-le_two c (g ∷ hs) zero zero h = absurd (h refl)
holds-le_two c (g ∷ hs) zero (suc j) h = omega (arith, holds-le c hs j)
holds-le_two c (g ∷ hs) (suc i) zero h = omega (arith, holds-le c hs i)
holds-le_two c (g ∷ hs) (suc i) (suc j) h = omega (arith, holds-le_two c hs i j (λ e. h (ap suc e)))
