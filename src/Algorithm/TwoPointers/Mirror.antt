-- ===== src/Algorithm/TwoPointers/Mirror.antt =====
-- Reversing a string in place.
use learn_note.Prelude.{
  ℕ, zero, suc, ◌+◌, ◌-◌, ◌≤◌, ◌<◌, ◌≡◌, refl, sym, ap, ap₂, ◌∙◌, subst, List, [], ◌∷◌, arith, ltb,
  leb, length, Bool-cases, ◌⊎◌, inl, inr, if-true, if-false, ℕ_discrete,
}
use mathlib.Core.List.{reverse, reverse_aux}
use learn_note.Algorithm.Sort.{elem, swap}
use learn_note.Algorithm.Sort.Swap.{length-swap, elem-swap_left, elem-swap_right, elem-swap_ne}
use learn_note.Algorithm.TwoPointers.{reverse_from, reverse_string}

-- Two lists that hold the same value at each place are equal.
pub List-ext :
    (xs ys : List ℕ)
    → length xs ≡ length ys
    → ((i : ℕ) → i < length xs → elem xs i ≡ elem ys i)
    → xs ≡ ys
List-ext [] [] e h = refl
List-ext [] (y ∷ ys) e h = absurd (omega (arith, e))
List-ext (x ∷ xs) [] e h = absurd (omega (arith, e))
List-ext (x ∷ xs) (y ∷ ys) e h =
    ap₂ ◌∷◌ (h 0 (omega arith)) (List-ext xs ys (omega (arith, e)) (λ i l. h (suc i) (omega arith)))

length-reverse_aux : (xs ys : List ℕ) → length (reverse_aux xs ys) ≡ length xs + length ys
length-reverse_aux [] ys = omega arith
length-reverse_aux (x ∷ xs) ys = omega (arith, length-reverse_aux xs (x ∷ ys))

elem-reverse_aux_behind :
    (xs ys : List ℕ) (i : ℕ) → elem (reverse_aux xs ys) (length xs + i) ≡ elem ys i
elem-reverse_aux_behind [] ys i = ap (elem ys) (omega arith)
elem-reverse_aux_behind (x ∷ xs) ys i =
    ap (elem (reverse_aux xs (x ∷ ys))) {x = suc (length xs) + i} {y = length xs + suc i}
      (omega arith)
    ∙ elem-reverse_aux_behind xs (x ∷ ys) (suc i)

elem-reverse_aux :
    (xs ys : List ℕ) (i j : ℕ) → i + j + 1 ≡ length xs → elem (reverse_aux xs ys) i ≡ elem xs j
elem-reverse_aux [] ys i j h = absurd (omega (arith, h))
elem-reverse_aux (x ∷ xs) ys i zero h =
    ap (elem (reverse_aux xs (x ∷ ys))) {x = i} {y = length xs + 0} (omega (arith, h))
    ∙ elem-reverse_aux_behind xs (x ∷ ys) 0
elem-reverse_aux (x ∷ xs) ys i (suc j) h = elem-reverse_aux xs (x ∷ ys) i j (omega (arith, h))

-- What the loop over the range in the middle does: it puts each value of the range where it mirrors.
record Mirrored (s : List ℕ) (d : List ℕ) (left stop : ℕ) : Type 0 where
  size : length d ≡ length s
  ends : left + stop ≡ length s
  outer : (i j : ℕ) → i + j + 1 ≡ length s → (i < left) ⊎ (stop ≤ i) → elem d i ≡ elem s j
  inner : (i : ℕ) → left ≤ i → i < stop → elem d i ≡ elem s i

swap-Mirrored :
    (s d : List ℕ) (left stop : ℕ)
    → left + 1 < stop
    → Mirrored s d left stop
    → Mirrored s (swap d left (stop - 1)) (left + 1) (stop - 1)
swap-Mirrored s d left stop h v =
    let hl : left < length d = omega (arith, v.size, v.ends) in
    let hr : stop - 1 < length d = omega (arith, v.size, v.ends) in
    record {
      size = length-swap d left (stop - 1) hl hr ∙ v.size;
      ends = omega (arith, v.ends);
      outer = λ i j e o. elim (ℕ_discrete left i) [
        | yes z ↦
            ap (elem (swap d left (stop - 1))) (sym z)
            ∙ elem-swap_left d left (stop - 1) hl hr
            ∙ v.inner (stop - 1) (omega arith) (omega arith)
            ∙ ap (elem s) {x = stop - 1} {y = j} (omega (arith, v.ends))
        | no n ↦ elim (ℕ_discrete (stop - 1) i) [
          | yes z ↦
              ap (elem (swap d left (stop - 1))) (sym z)
              ∙ elem-swap_right d left (stop - 1) hl hr
              ∙ v.inner left (omega arith) (omega arith)
              ∙ ap (elem s) {x = left} {y = j} (omega (arith, v.ends))
          | no m ↦
              elem-swap_ne d left (stop - 1) hl hr n m
              ∙ v.outer i j e (elim o [ inl a ↦ inl (omega arith) | inr a ↦ inr (omega arith) ])
        ]
      ];
      inner = λ i p q.
          elem-swap_ne d left (stop - 1) hl hr (λ z. absurd (omega arith))
            (λ z. absurd (omega arith))
          ∙ v.inner i (omega arith) (omega arith);
    }

-- At the end at most the place in the middle is left, which mirrors itself.
done-Mirrored :
    (s d : List ℕ) (left stop : ℕ)
    → stop ≤ left + 1
    → Mirrored s d left stop
    → (length d ≡ length s) × ((i j : ℕ) → i + j + 1 ≡ length s → elem d i ≡ elem s j)
done-Mirrored s d left stop h v = (
  v.size,
  λ i j e. elim (Bool-cases (ltb i left)) [
    | inl t ↦ v.outer i j e (inl (ground arith))
    | inr t ↦ elim (Bool-cases (leb stop i)) [
      | inl u ↦ v.outer i j e (inr (ground arith))
      | inr u ↦
          let a : left ≤ i = ground arith in
          let b : i < stop = ground arith in
          v.inner i a b ∙ ap (elem s) {x = i} {y = j} (omega (arith, v.ends))
    ]
  ],
)

reverse_from_lem :
    (fuel : ℕ) (s d : List ℕ) (left stop : ℕ)
    → stop ≤ left + fuel
    → Mirrored s d left stop
    → let e = reverse_from fuel d left stop in
      (length e ≡ length s) × ((i j : ℕ) → i + j + 1 ≡ length s → elem e i ≡ elem s j)
unfolding reverse_from
reverse_from_lem zero s d left stop h v = done-Mirrored s d left stop (omega arith) v
reverse_from_lem (suc fuel) s d left stop h v = elim (Bool-cases (ltb (left + 1) stop)) [
  | inl t ↦
      let long : left + 1 < stop = ground arith in
      subst (λ e. (length e ≡ length s) × ((i j : ℕ) → i + j + 1 ≡ length s → elem e i ≡ elem s j))
        (sym (if-true _ _ t))
        (reverse_from_lem fuel s _ (left + 1) (stop - 1) (omega arith)
          (swap-Mirrored s d left stop long v))
  | inr t ↦
      let short : stop ≤ left + 1 = ground arith in
      subst (λ e. (length e ≡ length s) × ((i j : ℕ) → i + j + 1 ≡ length s → elem e i ≡ elem s j))
        (sym (if-false _ _ t)) (done-Mirrored s d left stop short v)
]

pub length-reverse : (s : List ℕ) → length (reverse s) ≡ length s
length-reverse s = omega (arith, length-reverse_aux s [])

pub elem-reverse : (s : List ℕ) (i j : ℕ) → i + j + 1 ≡ length s → elem (reverse s) i ≡ elem s j
elem-reverse s i j h = elem-reverse_aux s [] i j h

-- `reverseString` leaves the string reversed, whatever its length.
pub reverse_string-reverse : (s : List ℕ) → reverse_string s ≡ reverse s
unfolding reverse_string
reverse_string-reverse s =
    let (e, h) = reverse_from_lem (length s) s s 0 (length s) (omega arith) (record {
      size = refl;
      ends = omega arith;
      outer = λ i j e o. elim o [ inl a ↦ absurd (omega arith) | inr a ↦ absurd (omega arith) ];
      inner = λ i p q. refl;
    }) in
    List-ext _ _ (e ∙ sym (length-reverse s)) (λ i l.
      h i (length s - i - 1) (omega (arith, e))
      ∙ sym (elem-reverse s i (length s - i - 1) (omega (arith, e))))
