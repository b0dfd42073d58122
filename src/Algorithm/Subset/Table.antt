-- ===== src/Algorithm/Subset/Table.antt =====
-- What the table says, cell by cell.
use learn_note.Prelude.{
  ℕ, zero, suc, ◌+◌, ◌-◌, ◌/◌, ◌%◌, ◌≤◌, ◌<◌, ◌==◌, ◌≡◌, ◌↔◌, refl, sym, ap, ◌∙◌, Bool, true, false,
  some, not, ◌||◌, List, [], ◌∷◌, arith, ltb, Bool-cases, ◌⊎◌, inl, inr, if-true, if-false, get_or,
  replicate,
}
use learn_note.Algorithm.Dijkstra.{int_max}
use learn_note.Algorithm.Subset.{total, cell, cells, next_row, rows, can_partition}

-- The sums of a choice of the numbers.
pub data Sums : List ℕ → ℕ → Type 0 where
  nothing : Sums [] 0
  skips : {n s : ℕ} {ns : List ℕ} → Sums ns s → Sums (n ∷ ns) s
  takes : {n s : ℕ} {ns : List ℕ} → Sums ns s → Sums (n ∷ ns) (n + s)

get_or-cells :
    (prev : List Bool) (num j n k : ℕ)
    → k < n
    → get_or (cells prev num j n) k false ≡ cell prev num (j + k)
unfolding cells
get_or-cells prev num j zero k h = absurd (omega arith)
get_or-cells prev num j (suc n) zero h = ap (cell prev num) {x = j} {y = j + 0} (omega arith)
get_or-cells prev num j (suc n) (suc k) h =
    get_or-cells prev num (j + 1) n k (omega arith)
    ∙ ap (cell prev num) {x = j + 1 + k} {y = j + suc k} (omega arith)

-- The first cell of a row is true, as its formula would say too.
cell-zero : (prev : List Bool) (num : ℕ) → get_or prev 0 false ≡ true → cell prev num 0 ≡ true
unfolding cell
cell-zero prev num h = elim (Bool-cases (ltb 0 num)) [
  | inl t ↦ if-true _ _ t ∙ h
  | inr t ↦ if-false _ _ t ∙ ap (λ b. b || get_or prev (0 - num) false) h
]

get_or-next_row :
    (sum : ℕ) (prev : List Bool) (num j : ℕ)
    → get_or prev 0 false ≡ true
    → j ≤ sum
    → get_or (next_row sum prev num) j false ≡ cell prev num j
unfolding next_row
get_or-next_row sum prev num zero h l = sym (cell-zero prev num h)
get_or-next_row sum prev num (suc j) h l =
    get_or-cells prev num 1 sum j (omega arith)
    ∙ ap (cell prev num) {x = 1 + j} {y = suc j} (omega arith)

or-cases : (a b : Bool) → (a || b) ≡ true → (a ≡ true) ⊎ (b ≡ true)
or-cases true b e = inl refl
or-cases false b e = inr e

or-right : (a b : Bool) → b ≡ true → (a || b) ≡ true
or-right true b e = refl
or-right false b e = e

-- A true cell comes from the cell above, or from the one that the number reaches.
cell-cases :
    (prev : List Bool) (num j : ℕ)
    → cell prev num j ≡ true
    → (get_or prev j false ≡ true) ⊎ ((t : ℕ) × (num + t ≡ j) × (get_or prev t false ≡ true))
unfolding cell
cell-cases prev num j e = elim (Bool-cases (ltb j num)) [
  | inl t ↦ inl (sym (if-true _ _ t) ∙ e)
  | inr t ↦ elim (or-cases _ _ (sym (if-false _ _ t) ∙ e)) [
    | inl a ↦ inl a
    | inr b ↦ inr (j - num, ground arith, b)
  ]
]

cell-skip : (prev : List Bool) (num j : ℕ) → get_or prev j false ≡ true → cell prev num j ≡ true
unfolding cell
cell-skip prev num j e = elim (Bool-cases (ltb j num)) [
  | inl t ↦ if-true _ _ t ∙ e
  | inr t ↦ if-false _ _ t ∙ ap (λ b. b || get_or prev (j - num) false) e
]

cell-take :
    (prev : List Bool) (num t : ℕ) → get_or prev t false ≡ true → cell prev num (num + t) ≡ true
unfolding cell
cell-take prev num t e =
    let far : ltb (num + t) num ≡ false = ground arith in
    if-false _ _ far
    ∙ or-right _ _ (ap (λ x. get_or prev x false) {x = num + t - num} {y = t} (omega arith) ∙ e)

module _ (sum : ℕ) where
  first_row : (row : List Bool) (num : ℕ) → get_or (next_row sum row num) 0 false ≡ true
  unfolding next_row
  first_row row num = refl

  rows-Sums :
      (ns : List ℕ) (row : List Bool) (j : ℕ)
      → get_or row 0 false ≡ true
      → j ≤ sum
      → get_or (rows sum ns row) j false ≡ true
      → (s : ℕ) × (t : ℕ) × Sums ns s × (s + t ≡ j) × (get_or row t false ≡ true)
  unfolding rows
  rows-Sums [] row j h l e = (0, j, nothing, omega arith, e)
  rows-Sums (n ∷ ns) row j h l e =
      let (s, t, c, p, q) = rows-Sums ns (next_row sum row n) j (first_row row n) l e in
      elim (cell-cases row n t (sym (get_or-next_row sum row n t h (omega arith)) ∙ q)) [
        | inl a ↦ (s, t, skips c, p, a)
        | inr (u, b, a) ↦ (n + s, u, takes c, omega (arith, b, p), a)
      ]

  Sums-rows :
      (ns : List ℕ) (row : List Bool) (s t : ℕ)
      → get_or row 0 false ≡ true
      → Sums ns s
      → s + t ≤ sum
      → get_or row t false ≡ true
      → get_or (rows sum ns row) (s + t) false ≡ true
  unfolding rows
  Sums-rows [] row s t h nothing l e =
      ap (λ x. get_or row x false) {x = 0 + t} {y = t} (omega arith) ∙ e
  Sums-rows (n ∷ ns) row s t h (skips c) l e =
      Sums-rows ns (next_row sum row n) s t (first_row row n) c l
        (get_or-next_row sum row n t h (omega arith) ∙ cell-skip row n t e)
  Sums-rows (n ∷ ns) row s t h (takes {s = s'} c) l e =
      ap (λ x. get_or (rows sum (n ∷ ns) row) x false) {x = n + s' + t} {y = s' + (n + t)}
        (omega arith)
      ∙ Sums-rows ns (next_row sum row n) s' (n + t) (first_row row n) c (omega arith)
          (get_or-next_row sum row n (n + t) h (omega arith) ∙ cell-take row n t e)

no_more : (n t : ℕ) → get_or (true ∷ replicate n false) t false ≡ true → t ≡ 0
no_more n zero e = refl
no_more zero (suc t) e = absurd (cc e)
no_more (suc n) (suc zero) e = absurd (cc e)
no_more (suc n) (suc (suc t)) e = absurd (omega (arith, no_more n (suc t) e))

-- Where the sum is that of an `int`, the first `canPartition` answers, and true exactly where some of
-- the numbers make up half of their sum.
pub can_partition-Sums :
    (nums : List ℕ)
    → total nums ≤ int_max
    → (answer : Bool) × (can_partition nums ≡ some answer)
      × ((answer ≡ true) ↔ ((s : ℕ) × Sums nums s × (s + s ≡ total nums)))
unfolding can_partition
can_partition-Sums nums fits =
    let half = total nums / 2 in
    let start = true ∷ replicate half false in
    let inside : ltb int_max (total nums) ≡ false = ground (arith, fits) in
    let last = get_or (rows half nums start) half false in
    elim (Bool-cases (not (total nums % 2 == 0))) [
      | inl odd ↦ (
        false,
        if-false _ _ inside ∙ if-true _ _ odd,
        (λ e. absurd (cc e), λ (s, c, p). ground (arith, odd, p)),
      )
      | inr even ↦ (
        last,
        if-false _ _ inside ∙ if-false _ _ even,
        (
          λ e.
              let (s, u, c, p, q) = rows-Sums half nums start half refl (omega arith) e in
              (s, c, ground (arith, even, no_more half u q)),
          λ (s, c, p).
              let middle : s + 0 ≡ half = ground (arith, p) in
              ap (λ x. get_or (rows half nums start) x false) (sym middle)
              ∙ Sums-rows half nums start s 0 refl c (omega arith) refl,
        ),
      )
    ]
