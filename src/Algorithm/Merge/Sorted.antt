-- ===== src/Algorithm/Merge/Sorted.antt =====
-- The merged list is in order and has the values of both.
use learn_note.Prelude.{
  ℕ, ◌+◌, ◌≤◌, ◌≡◌, sym, subst, List, [], ◌∷◌, arith, ltb, if-true, if-false, Bool-cases, inl, inr,
  occurs,
}
use learn_note.Algorithm.Merge.{merge_recursive}

-- Each value is at most the next.
abbrev pub From : ℕ → List ℕ → Type 0
From b [] = Unit {0}
From b (x ∷ xs) = (b ≤ x) × From x xs

abbrev pub InOrder : List ℕ → Type 0
InOrder xs = From 0 xs

merge_recursive-From :
    (b : ℕ) (xs ys : List ℕ) → From b xs → From b ys → From b (merge_recursive xs ys)
unfolding merge_recursive
merge_recursive-From b [] ys p q = q
merge_recursive-From b (x ∷ xs) [] p q = p
merge_recursive-From b (x ∷ xs) (y ∷ ys) (h, p) (k, q) = elim (Bool-cases (ltb x y)) [
  | inl t ↦
      let l : x ≤ y = ground arith in
      subst (From b) (sym (if-true _ _ t)) (h, merge_recursive-From x xs (y ∷ ys) p (l, q))
  | inr t ↦
      let l : y ≤ x = ground arith in
      subst (From b) (sym (if-false _ _ t)) (k, merge_recursive-From y (x ∷ xs) ys (l, p) q)
]

occurs-merge_recursive :
    (n : ℕ) (xs ys : List ℕ) → occurs n (merge_recursive xs ys) ≡ occurs n xs + occurs n ys
unfolding merge_recursive
occurs-merge_recursive n [] ys = omega arith
occurs-merge_recursive n (x ∷ xs) [] = omega arith
occurs-merge_recursive n (x ∷ xs) (y ∷ ys) = elim (Bool-cases (ltb x y)) [
  | inl t ↦
      subst (λ zs. occurs n zs ≡ occurs n (x ∷ xs) + occurs n (y ∷ ys)) (sym (if-true _ _ t))
        (omega (arith, occurs-merge_recursive n xs (y ∷ ys)))
  | inr t ↦
      subst (λ zs. occurs n zs ≡ occurs n (x ∷ xs) + occurs n (y ∷ ys)) (sym (if-false _ _ t))
        (omega (arith, occurs-merge_recursive n (x ∷ xs) ys))
]

-- Two lists in order are merged into one in order, which holds each value as often as both together.
pub merge_recursive-InOrder :
    (xs ys : List ℕ)
    → InOrder xs
    → InOrder ys
    → InOrder (merge_recursive xs ys)
      × ((n : ℕ) → occurs n (merge_recursive xs ys) ≡ occurs n xs + occurs n ys)
merge_recursive-InOrder xs ys p q =
    (merge_recursive-From 0 xs ys p q, λ n. occurs-merge_recursive n xs ys)
