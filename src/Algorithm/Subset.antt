-- ===== src/Algorithm/Subset.antt =====
-- Algorithm/DynamicProgramming.cpp: the first `canPartition`, whether some of the numbers make up half of
-- the sum. The numbers are not negative, as the indices of its table need. A row of the table is a list, and
-- each row is made from the one before it. `none`
-- is a sum that leaves `int`.
pub mod Table
use learn_note.Prelude.{
  ℕ, zero, suc, ◌+◌, ◌-◌, ◌/◌, ◌%◌, Bool, true, false, not, ◌||◌, Option, none, some, List, [], ◌∷◌,
  ◌==◌, if◌then◌else◌, ltb, get_or, replicate,
}
use learn_note.Algorithm.Dijkstra.{int_max}

unfoldable pub total : List ℕ → ℕ
total [] = 0
total (n ∷ ns) = n + total ns

-- `dp[i][j]` from the row before, where `num` is `nums[i - 1]`.
unfoldable pub cell : (prev : List Bool) (num j : ℕ) → Bool
cell prev num j =
    if ltb j num then get_or prev j false else get_or prev j false || get_or prev (j - num) false

unfoldable pub cells : (prev : List Bool) (num j n : ℕ) → List Bool
unfolding cell
cells prev num j zero = []
cells prev num j (suc n) = cell prev num j ∷ cells prev num (j + 1) n

unfoldable pub next_row : (sum : ℕ) (prev : List Bool) (num : ℕ) → List Bool
unfolding cells
next_row sum prev num = true ∷ cells prev num 1 sum

unfoldable pub rows : (sum : ℕ) → List ℕ → List Bool → List Bool
unfolding next_row
rows sum [] row = row
rows sum (n ∷ ns) row = rows sum ns (next_row sum row n)

unfoldable pub can_partition : List ℕ → Option Bool
unfolding rows total
can_partition nums =
    let sum = total nums in
    let half = sum / 2 in
    if ltb int_max sum
    then none
    else (if not (sum % 2 == 0)
        then some false
        else some (get_or (rows half nums (true ∷ replicate half false)) half false))
