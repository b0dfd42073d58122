-- ===== src/Algorithm/Merge.antt =====
-- Algorithm/LinkedList.cpp: `mergeRecursive` of two lists, and `findFromEnd`. A list is the values of its nodes in
-- order; the merged list is made of the same nodes.
pub mod Sorted
pub mod FromEnd
use learn_note.Prelude.{ℕ, zero, suc, ◌-◌, Option, none, some, List, [], ◌∷◌, ltb, if◌then◌else◌}

unfoldable pub merge_recursive : List ℕ → List ℕ → List ℕ
merge_recursive [] list2 = list2
merge_recursive (x ∷ xs) [] = x ∷ xs
merge_recursive (x ∷ xs) (y ∷ ys) =
    let first = merge_recursive xs (y ∷ ys) in
    let second = merge_recursive (x ∷ xs) ys in if ltb x y then x ∷ first else y ∷ second

-- A pointer stands as the list from its node on, `none` for a read through a null pointer.
unfoldable pub steps : (k : ℕ) → List ℕ → Option (List ℕ)
steps zero p = some p
steps (suc k) [] = none
steps (suc k) (x ∷ xs) = steps k xs

-- `while (p->next) { p = p->next; q = q->next; } return q->next;`
unfoldable pub to_last : (p q : List ℕ) → Option (List ℕ)
to_last [] q = none
to_last (x ∷ xs) [] = none
to_last (x ∷ []) (y ∷ ys) = some ys
to_last (x ∷ x' ∷ xs) (y ∷ ys) = to_last (x' ∷ xs) ys

unfoldable from_place : Option (List ℕ) → List ℕ → Option (List ℕ)
unfolding to_last
from_place none head = none
from_place (some p) head = to_last p head

unfoldable pub find_from_end : (head : List ℕ) (k : ℕ) → Option (List ℕ)
unfolding steps from_place
find_from_end head k = from_place (steps k head) head
