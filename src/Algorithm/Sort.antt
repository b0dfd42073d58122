-- ===== src/Algorithm/Sort.antt =====
-- Algorithm/Sort.cpp: quick sort in place. A range goes from `left` to before `stop`, which is the source's
-- `right + 1`, since `right` is -1 for an empty range elem the start. What `quick_sort` returns is not used.
pub mod Swap
pub mod Scan
pub mod Partition
pub mod Sorted
use learn_note.Prelude.{
  ℕ, zero, suc, ◌+◌, ◌-◌, Bool, true, false, ◌&&◌, List, if◌then◌else◌, ltb, leb, get_or, set,
  length,
}

abbrev pub elem : List ℕ → ℕ → ℕ
elem values i = get_or values i 0

unfoldable pub swap : List ℕ → (i j : ℕ) → List ℕ
swap values i j = set (set values i (elem values j)) j (elem values i)

-- `while (i < j && temp <= data[j]) --j;`
unfoldable pub scan_down : (values : List ℕ) (temp i j : ℕ) → ℕ
scan_down values temp i zero = zero
scan_down values temp i (suc j) =
    let rest = scan_down values temp i j in
    if ltb i (suc j) && leb temp (elem values (suc j)) then rest else suc j

-- `while (i < j && temp >= data[i]) ++i;` where `j` is `i + n`.
unfoldable pub scan_up : (values : List ℕ) (temp i n : ℕ) → ℕ
scan_up values temp i zero = i
scan_up values temp i (suc n) =
    let rest = scan_up values temp (i + 1) n in if leb (elem values i) temp then rest else i

-- The outer loop, where each round brings `i` and `j` closer.
unfoldable pub meet : (fuel : ℕ) (values : List ℕ) (temp i j : ℕ) → List ℕ × ℕ
unfolding scan_down scan_up swap
meet zero values temp i j = (values, i)
meet (suc fuel) values temp i j =
    let j' = scan_down values temp i j in
    let i' = scan_up values temp i (j' - i) in
    let rest = meet fuel (if ltb i' j' then swap values i' j' else values) temp i' j' in
    if ltb i j then rest else (values, i)

unfoldable pub partition : List ℕ → (left right : ℕ) → List ℕ × ℕ
unfolding meet swap
partition values left right =
    let (met, i) = meet (right - left) values (elem values left) left right in (swap met left i, i)

unfoldable pub quick_sort : (fuel : ℕ) → List ℕ → (left stop : ℕ) → List ℕ
unfolding partition
quick_sort zero values left stop = values
quick_sort (suc fuel) values left stop =
    let (parted, middle) = partition values left (stop - 1) in
    let lower = quick_sort fuel parted left middle in
    let both = quick_sort fuel lower (middle + 1) stop in
    if leb stop (left + 1) then values else both

-- As `main` calls it.
unfoldable pub sort : List ℕ → List ℕ
unfolding quick_sort
sort values = quick_sort (length values) values 0 (length values)
