-- ===== src/Algorithm/TwoPointers.antt =====
-- Algorithm/LinkedList.cpp: the functions in which an index from the left and one from the right move towards
-- each other. The right one stands as `stop`, one more, since it starts at -1 for an empty array. Each loop runs on fuel;
-- as many rounds as there are values are enough.
pub mod Mirror
pub mod Palindrome
pub mod Pair
use learn_note.Prelude.{
  ℕ, zero, suc, ◌+◌, ◌-◌, Bool, true, false, not, Option, none, some, List, ◌==◌, if◌then◌else◌,
  ltb, length,
}
use learn_note.Algorithm.Sort.{elem, swap}

unfoldable pub reverse_from : (fuel : ℕ) → List ℕ → (left stop : ℕ) → List ℕ
unfolding swap
reverse_from zero s left stop = s
reverse_from (suc fuel) s left stop =
    let rest = reverse_from fuel (swap s left (stop - 1)) (left + 1) (stop - 1) in
    if ltb (left + 1) stop then rest else s

unfoldable pub reverse_string : List ℕ → List ℕ
unfolding reverse_from
reverse_string s = reverse_from (length s) s 0 (length s)

unfoldable pub mirrored : (fuel : ℕ) → List ℕ → (left stop : ℕ) → Bool
mirrored zero s left stop = true
mirrored (suc fuel) s left stop =
    let rest = mirrored fuel s (left + 1) (stop - 1) in
    if ltb (left + 1) stop
    then (if not (elem s left == elem s (stop - 1)) then false else rest)
    else true

unfoldable pub is_palindrome : List ℕ → Bool
unfolding mirrored
is_palindrome s = mirrored (length s) s 0 (length s)

-- The sum stands as its distance from twice the least `int`; `none` is the pair of -1. Sums beyond the
-- range of an `int` are not modelled.
unfoldable pub close_in : (fuel : ℕ) → List ℕ → (tgt left stop : ℕ) → Option (ℕ × ℕ)
close_in zero nums tgt left stop = none
close_in (suc fuel) nums tgt left stop =
    let sum = elem nums left + elem nums (stop - 1) in
    let up = close_in fuel nums tgt (left + 1) stop in
    let down = close_in fuel nums tgt left (stop - 1) in
    if ltb (left + 1) stop
    then (if sum == tgt then some (left, stop - 1) else (if ltb sum tgt then up else down))
    else none

unfoldable pub two_sum : List ℕ → (tgt : ℕ) → Option (ℕ × ℕ)
unfolding close_in
two_sum nums tgt = close_in (length nums) nums tgt 0 (length nums)
