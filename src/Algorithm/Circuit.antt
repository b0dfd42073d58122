-- ===== src/Algorithm/Circuit.antt =====
-- Algorithm/greedy.cpp: `canCompleteCircuit`. An `int` that is a difference of gas and cost stands as the
-- pair of what was gained and what was spent, with a mark of a difference or a sum that leaves `int`.
mod Prefix
mod Lowest
pub mod Trip
use learn_note.Prelude.{
  ℕ, ◌+◌, ◌%◌, ◌==◌, Bool, false, ◌||◌, List, [], ◌∷◌, if◌then◌else◌, ltb, length,
}
use learn_note.Algorithm.Dijkstra.{int_max}

-- `sum`, `minSum` and `start`.
pub record Totals : Type 0 where
  pub gained : ℕ
  pub spent : ℕ
  pub min_gained : ℕ
  pub min_spent : ℕ
  pub start : ℕ
  pub overflow : Bool

unfoldable pub init : Totals
init = record { gained = 0; spent = 0; min_gained = 0; min_spent = 0; start = 0; overflow = false }

-- The difference is no `int`.
abbrev pub beyond_int : (gained spent : ℕ) → Bool
beyond_int gained spent = ltb (spent + int_max) gained || ltb (gained + int_max + 1) spent

-- What station `i`, with its gas and its cost, changes.
unfoldable pub pass : ℕ → (gas cost : ℕ) → Totals → Totals
pass i gas cost t =
    let gained = t.gained + gas in
    let spent = t.spent + cost in
    let overflow = t.overflow || beyond_int gas cost || beyond_int gained spent in
    if ltb (gained + t.min_spent) (t.min_gained + spent)
    then record {
      gained = gained;
      spent = spent;
      min_gained = gained;
      min_spent = spent;
      start = i + 1;
      overflow = overflow;
    }
    else record t { gained = gained; spent = spent; overflow = overflow }

-- The loop over the stations from `i` on.
unfoldable pub drive : ℕ → List (ℕ × ℕ) → Totals → Totals
unfolding pass
drive i [] t = t
drive i ((gas, cost) ∷ stations) t = drive (i + 1) stations (pass i gas cost t)

-- -1, a station, a division by no stations, or an `int` that overflows.
pub data Answer : Type 0 where
  nowhere by_zero overflowed : Answer
  station : ℕ → Answer

unfoldable pub can_complete_circuit : List (ℕ × ℕ) → Answer
unfolding init drive
can_complete_circuit stations =
    let t = drive 0 stations init in
    let n = length stations in
    if t.overflow
    then overflowed
    else (if ltb t.gained t.spent
        then nowhere
        else (if n == 0 then by_zero else station (t.start % n)))
