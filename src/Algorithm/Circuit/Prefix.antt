-- ===== src/Algorithm/Circuit/Prefix.antt =====
-- The fronts of lists that are put together.
use learn_note.Prelude.{
  ℕ, zero, suc, ◌+◌, ◌-◌, ◌≡◌, sym, ap, ◌∙◌, List, [], ◌∷◌, ◌++◌, arith, length, take, drop, min,
  take_all,
}

pub take-append :
    {A : Type 0} (k : ℕ) (xs ys : List A) → take k (xs ++ ys) ≡ take k xs ++ take (k - length xs) ys
take-append zero [] ys = ap (λ n. take n ys) {x = 0} {y = 0 - 0} (omega arith)
take-append (suc k) [] ys = ap (λ n. take n ys) {x = suc k} {y = suc k - 0} (omega arith)
take-append zero (x ∷ xs) ys = ap (λ n. take n ys) {x = 0} {y = 0 - suc (length xs)} (omega arith)
take-append (suc k) (x ∷ xs) ys = ap (◌∷◌ x) (
    take-append k xs ys
    ∙ ap (λ n. take k xs ++ take n ys) {x = k - length xs} {y = suc k - suc (length xs)}
        (omega arith))

pub take-drop :
    {A : Type 0} (s k : ℕ) (xs : List A) → take (s + k) xs ≡ take s xs ++ take k (drop s xs)
take-drop zero k xs = ap (λ n. take n xs) (omega arith)
take-drop (suc s) k [] = take_all (suc s + k) [] (omega arith) ∙ sym (take_all k [] (omega arith))
take-drop (suc s) k (x ∷ xs) =
    ap (λ n. take n (x ∷ xs)) {y = suc (s + k)} (omega arith) ∙ ap (◌∷◌ x) (take-drop s k xs)

pub take-take : {A : Type 0} (j s : ℕ) (xs : List A) → take j (take s xs) ≡ take (min j s) xs
take-take zero s xs = ap (λ n. take n xs) {x = 0} (omega arith)
take-take (suc j) zero xs =
    take_all (suc j) [] (omega arith) ∙ ap (λ n. take n xs) {x = 0} (omega arith)
take-take (suc j) (suc s) [] = sym (take_all (min (suc j) (suc s)) [] (omega arith))
take-take (suc j) (suc s) (x ∷ xs) =
    ap (◌∷◌ x) (take-take j s xs) ∙ ap (λ n. take n (x ∷ xs)) {x = suc (min j s)} (omega arith)
