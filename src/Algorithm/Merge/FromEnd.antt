-- ===== src/Algorithm/Merge/FromEnd.antt =====
-- The node that `findFromEnd` answers.
use learn_note.Prelude.{
  ℕ, zero, suc, ◌-◌, ◌≤◌, ◌<◌, ◌≡◌, refl, sym, ap, ◌∙◌, none, some, List, [], ◌∷◌, arith, length,
  drop, length-drop, drop_all, leb, ℕ_discrete, if◌then◌else◌, Bool-cases, inl, inr, if-true,
  if-false,
}
use learn_note.Algorithm.Merge.{steps, to_last, from_place, find_from_end}

steps_inside : (k : ℕ) (xs : List ℕ) → k ≤ length xs → steps k xs ≡ some (drop k xs)
unfolding steps
steps_inside zero xs h = refl
steps_inside (suc k) [] h = absurd (omega arith)
steps_inside (suc k) (x ∷ xs) h = steps_inside k xs (omega arith)

steps_beyond : (k : ℕ) (xs : List ℕ) → length xs < k → steps k xs ≡ none
unfolding steps
steps_beyond zero xs h = absurd (omega arith)
steps_beyond (suc k) [] h = refl
steps_beyond (suc k) (x ∷ xs) h = steps_beyond k xs (omega arith)

to_last_lem :
    (p q : List ℕ) → 1 ≤ length p → length p ≤ length q → to_last p q ≡ some (drop (length p) q)
unfolding to_last
to_last_lem [] q h k = absurd (omega arith)
to_last_lem (x ∷ xs) [] h k = absurd (omega arith)
to_last_lem (x ∷ []) (y ∷ ys) h k = refl
to_last_lem (x ∷ x' ∷ xs) (y ∷ ys) h k = to_last_lem (x' ∷ xs) ys (omega arith) (omega arith)

find_beyond : (head : List ℕ) (k : ℕ) → length head ≤ k → find_from_end head k ≡ none
unfolding find_from_end from_place to_last
find_beyond head k h = elim (ℕ_discrete k (length head)) [
  | yes e ↦
      ap (λ x. from_place x head) (steps_inside k head (omega arith) ∙ ap some (drop_all k head h))
  | no n ↦ ap (λ x. from_place x head) (steps_beyond k head (omega arith))
]

-- `findFromEnd` answers the `k`-th node from the end where the list has more than `k` nodes; with no more than
-- `k`, the first node included, it reads through a null pointer.
pub find_from_end_lem :
    (head : List ℕ) (k : ℕ)
    → find_from_end head k
      ≡ (if leb (length head) k then none else some (drop (length head - k) head))
unfolding find_from_end from_place
find_from_end_lem head k = elim (Bool-cases (leb (length head) k)) [
  | inl t ↦
      let long : length head ≤ k = ground arith in find_beyond head k long ∙ sym (if-true _ _ t)
  | inr t ↦
      let short : k < length head = ground arith in
      ap (λ x. from_place x head) (steps_inside k head (omega arith))
      ∙ to_last_lem (drop k head) head (omega (arith, length-drop k head))
          (omega (arith, length-drop k head))
      ∙ ap (λ n. some (drop n head)) (length-drop k head)
      ∙ sym (if-false _ _ t)
]
