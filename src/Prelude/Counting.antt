-- ===== src/Prelude/Counting.antt =====
-- How often a number stands in a list, and the lists of the first numbers.
use Prim.Native.Nat.{ℕ, zero, suc, ◌+◌, ◌≤◌, ◌<◌}
use mathlib.Core.Path.{◌≡◌, refl, sym, ap, ◌∙◌}
use mathlib.Core.List.{List, [], ◌∷◌, ◌++◌}
use mathlib.Core.Bool.{Bool, true, false}
use mathlib.Core.Logic.{inl, inr}
use native.Mathlib.Omega.{arith}
use learn_note.Prelude.Tests.{Bool-cases, ◌==◌, if◌then◌else◌, ltb}

abbrev pub occurs : ℕ → List ℕ → ℕ
occurs i [] = 0
occurs i (n ∷ ns) = (if n == i then 1 else 0) + occurs i ns

pub occurs-append : (i : ℕ) (xs ys : List ℕ) → occurs i (xs ++ ys) ≡ occurs i xs + occurs i ys
occurs-append i [] ys = omega arith
occurs-append i (x ∷ xs) ys = omega (arith, occurs-append i xs ys)

abbrev pub range : (from count : ℕ) → List ℕ
range from zero = []
range from (suc n) = from ∷ range (from + 1) n

pub range-suc : (from n : ℕ) → range from (suc n) ≡ range from n ++ (from + n) ∷ []
range-suc from zero = ap (λ m. m ∷ []) (omega arith)
range-suc from (suc n) =
    ap (◌∷◌ from) (range-suc (from + 1) n ∙ ap (λ m. range (from + 1) n ++ m ∷ []) (omega arith))

-- One for a number below the bound, none otherwise.
abbrev pub below : ℕ → ℕ → ℕ
below i n = if ltb i n then 1 else 0

pub occurs-range : (i n : ℕ) → occurs i (range 0 n) ≡ below i n
occurs-range i zero = ground arith
occurs-range i (suc n) =
    ground
      (arith, occurs-range i n, ap (occurs i) (range-suc 0 n), occurs-append i (range 0 n) (n ∷ []))

pub range-append : (n : ℕ) → range 0 n ++ n ∷ [] ≡ range 0 (n + 1)
range-append n =
    ap (λ m. range 0 n ++ m ∷ []) (omega arith)
    ∙ sym (range-suc 0 n)
    ∙ ap (range 0) {x = suc n} (omega arith)

-- How many numbers below `n` are not marked.
abbrev pub left : (ℕ → Bool) → ℕ → ℕ
left seen zero = 0
left seen (suc n) = left seen n + (if seen n then 0 else 1)

pub left-all : (n : ℕ) → left (λ b. false) n ≡ n
left-all zero = refl
left-all (suc n) = omega (arith, left-all n)

pub left-none : (seen : ℕ → Bool) (n b : ℕ) → left seen n ≡ 0 → b < n → seen b ≡ true
left-none seen zero b z h = absurd (omega (arith, h))
left-none seen (suc n) b z h = elim (Bool-cases (b == n)) [
  | inl e ↦ ground (arith, e, z)
  | inr ne ↦ left-none seen n b (omega (arith, z)) (ground (arith, ne, h))
]

left-beyond :
    (seen now : ℕ → Bool) (u n : ℕ)
    → ((b : ℕ) → now b ≡ (if u == b then true else seen b))
    → n ≤ u
    → left now n ≡ left seen n
left-beyond seen now u zero h k = refl
left-beyond seen now u (suc n) h k =
    let rest = left-beyond seen now u n h (omega (arith, k)) in ground (arith, rest, h n, k)

pub left-visit :
    (seen now : ℕ → Bool) (u n : ℕ)
    → ((b : ℕ) → now b ≡ (if u == b then true else seen b))
    → seen u ≡ false
    → u < n
    → left now n + 1 ≡ left seen n
left-visit seen now u zero h fresh k = absurd (omega (arith, k))
left-visit seen now u (suc n) h fresh k = elim (Bool-cases (u == n)) [
  | inl e ↦
      let rest = left-beyond seen now u n h (ground (arith, e)) in
      ground (arith, e, rest, h n, fresh)
  | inr ne ↦
      let rest = left-visit seen now u n h fresh (ground (arith, ne, k)) in
      ground (arith, ne, rest, h n)
]
