-- ===== src/Algorithm/Tests.antt =====
-- Runs of the algorithms.
use learn_note.Prelude.{
  Bool, ℕ, zero, suc, ◌+◌, ◌≤◌, ◌<◌, ◌==◌, ◌≡◌, ◌≢◌, ◌↔◌, ◌⊎◌, ◌&&◌, ltb, refl, sym, ◌∙◌, if-true,
  if-false, Bool-cases, inl, inr, true, false, Option, none, some, List, [], ◌∷◌, arith,
  if◌then◌else◌, length, occurs,
}
use mathlib.Core.Option.{some-injective}
use learn_note.Algorithm.Circuit.{can_complete_circuit, station, nowhere}
use learn_note.Algorithm.Circuit.Trip.{Completes, can_complete_circuit_lem}
use learn_note.Algorithm.Courses.{find_order}
use learn_note.Algorithm.Courses.Order.{listed, Topological, Cycle}
use learn_note.Algorithm.Courses.Answer.{after, InRange, find_order_lem}
use learn_note.Algorithm.Courses.Finish.{can_finish, can_finish_lem}
use learn_note.Algorithm.Dijkstra.{int_max, dijkstra}
use learn_note.Algorithm.Dijkstra.Walks.{Small}
use learn_note.Algorithm.Dijkstra.Shortest.{Shortest, dijkstra-Shortest}
use learn_note.Algorithm.Sort.{elem, sort}
use learn_note.Algorithm.Sort.Sorted.{Ordered, sort-Ordered}
use learn_note.Algorithm.Cycle.{crashed, returned, has_cycle, detect_cycle}
use learn_note.Algorithm.Cycle.Nodes.{node, follow}
use learn_note.Algorithm.Cycle.Detection.{returns, has_cycle_lem}
use learn_note.Algorithm.Cycle.Entry.{detect_cycle-entry, detect_cycle-crashed}
use learn_note.Algorithm.Merge.{find_from_end, merge_recursive}
use learn_note.Algorithm.Subset.{total, can_partition}
use learn_note.Algorithm.Subset.Table.{Sums, can_partition-Sums}

sort-Ordered_example :
    (length (sort (4 ∷ 1 ∷ 4 ∷ 2 ∷ [])) ≡ 4)
    × ((n : ℕ) → occurs n (sort (4 ∷ 1 ∷ 4 ∷ 2 ∷ [])) ≡ occurs n (4 ∷ 1 ∷ 4 ∷ 2 ∷ []))
    × ((i j : ℕ)
        → i ≤ j
        → j < 4
        → elem (sort (4 ∷ 1 ∷ 4 ∷ 2 ∷ [])) i ≤ elem (sort (4 ∷ 1 ∷ 4 ∷ 2 ∷ [])) j)
sort-Ordered_example = sort-Ordered (4 ∷ 1 ∷ 4 ∷ 2 ∷ [])

-- From the node 0 the list goes to 1, 2 and back to 1.
abbrev ring : ℕ → Option ℕ
ring n = if n == 2 then some 1 else some (n + 1)

not_first : (p : Option ℕ) → follow ring p ≢ some 0
not_first none e = absurd (cc e)
not_first (some a) e = elim (Bool-cases (a == 2)) [
  | inl t ↦ absurd (cc (sym (if-true _ _ t) ∙ e))
  | inr t ↦ absurd (omega (arith, some-injective _ _ (sym (if-false _ _ t) ∙ e)))
]

after_first : (a b : ℕ) → a < b → node ring (some 0) a ≡ node ring (some 0) b → 1 ≤ a
after_first zero zero h e = absurd (omega arith)
after_first zero (suc b) h e = absurd (not_first (node ring (some 0) b) (sym e))
after_first (suc a) b h e = omega arith

detect_cycle-entry_example : detect_cycle ring 4 (some 0) ≡ returned (some 1)
detect_cycle-entry_example =
    detect_cycle-entry ring (some 0) 1 2 4 (omega arith) refl (λ e. absurd (cc e)) after_first
      (omega arith)

has_cycle_lem_example : has_cycle ring 4 (some 0) ≡ returned true
has_cycle_lem_example =
    has_cycle_lem ring (some 0) (returns 1 2 (omega arith) refl (λ e. absurd (cc e))) 4
      (omega arith)

abbrev word : List ℕ
word = 7 ∷ 8 ∷ 7 ∷ []

can_partition-Sums_example :
    (answer : Bool) × (can_partition (1 ∷ 5 ∷ 11 ∷ 5 ∷ []) ≡ some answer)
    × ((answer ≡ true)
        ↔ ((s : ℕ) × Sums (1 ∷ 5 ∷ 11 ∷ 5 ∷ []) s × (s + s ≡ total (1 ∷ 5 ∷ 11 ∷ 5 ∷ []))))
unfolding total
can_partition-Sums_example = can_partition-Sums (1 ∷ 5 ∷ 11 ∷ 5 ∷ []) (omega arith)

-- The list 0, 1 that ends.
abbrev line : ℕ → Option ℕ
line n = if n == 0 then some 1 else none

detect_cycle-crashed_example : detect_cycle line 3 (some 0) ≡ crashed
detect_cycle-crashed_example =
    detect_cycle-crashed line (some 0) 2 3 (λ e. absurd (cc e)) refl (omega arith)

two_values-Ordered : Ordered 0 2 (3 ∷ 8 ∷ [])
unfolding Ordered
two_values-Ordered zero zero p q h = omega arith
two_values-Ordered zero (suc zero) p q h = omega arith
two_values-Ordered (suc zero) zero p q h = absurd (omega arith)
two_values-Ordered (suc zero) (suc zero) p q h = omega arith
two_values-Ordered (suc (suc i)) j p q h = absurd (omega arith)
two_values-Ordered i (suc (suc j)) p q h = absurd (omega arith)

-- With as many nodes as `k` the first node is not found.
from_end :
    (find_from_end (4 ∷ 5 ∷ 6 ∷ []) 2 ≡ some (5 ∷ 6 ∷ []))
    × (find_from_end (4 ∷ 5 ∷ 6 ∷ []) 3 ≡ none)
unfolding find_from_end
from_end = (refl, refl)

merged : merge_recursive (1 ∷ 4 ∷ []) (2 ∷ 4 ∷ 5 ∷ []) ≡ 1 ∷ 2 ∷ 4 ∷ 4 ∷ 5 ∷ []
unfolding merge_recursive
merged = refl

-- The edges 0 to 1 of weight 5, 0 to 2 of weight 1 and 2 to 1 of weight 2; 3 cannot be reached.
abbrev four_nodes : ℕ → ℕ → ℕ
four_nodes a b =
    if a == 0 && b == 0
    then 0
    else (if a == 0 && b == 1
        then 5
        else (if a == 0 && b == 2 then 1 else (if a == 2 && b == 1 then 2 else int_max)))

distances :
    (dijkstra four_nodes 4 0).dist 0
      ∷ (dijkstra four_nodes 4 0).dist 1
      ∷ (dijkstra four_nodes 4 0).dist 2
      ∷ (dijkstra four_nodes 4 0).dist 3
      ∷ []
    ≡ 0 ∷ 3 ∷ 1 ∷ int_max ∷ []
unfolding dijkstra
distances = refl

four_nodes-Small : Small four_nodes 4 5
four_nodes-Small a b ha hb = ground arith

dijkstra-Shortest_example : Shortest four_nodes 4 0 (dijkstra four_nodes 4 0)
dijkstra-Shortest_example =
    dijkstra-Shortest four_nodes 4 0 5 (omega arith) refl four_nodes-Small (omega arith)

-- Course 1 waits for 0, and 2 for both.
abbrev three_courses : List (ℕ × ℕ)
three_courses = (1, 0) ∷ (2, 1) ∷ (2, 0) ∷ []

three_courses-InRange : InRange 3 three_courses
three_courses-InRange =
    (omega arith, omega arith, (omega arith, omega arith, (omega arith, omega arith, tt)))

course_order : find_order 4 3 three_courses false [] ≡ some (0 ∷ 1 ∷ 2 ∷ [])
unfolding find_order
course_order = refl

-- With `hasCycle` left from a call before, no order is found.
course_order_again : find_order 4 3 three_courses true [] ≡ some []
unfolding find_order
course_order_again = refl

find_order_lem_example :
    ((order : List ℕ) × (find_order 4 3 three_courses false [] ≡ some order)
      × Topological (after three_courses) order
      × ((b : ℕ) → listed b order ≡ ltb b 3)
      × ¬ (Cycle (after three_courses)))
    ⊎ ((find_order 4 3 three_courses false [] ≡ some []) × Cycle (after three_courses))
find_order_lem_example = find_order_lem 3 three_courses three_courses-InRange

can_finish_lem_example :
    ((can_finish 4 3 three_courses false ≡ some true) × ¬ (Cycle (after three_courses)))
    ⊎ ((can_finish 4 3 three_courses false ≡ some false) × Cycle (after three_courses))
can_finish_lem_example = can_finish_lem 3 three_courses three_courses-InRange

-- Only from the fourth station does the gas last.
abbrev five_stations : List (ℕ × ℕ)
five_stations = (1, 3) ∷ (2, 4) ∷ (3, 5) ∷ (4, 1) ∷ (5, 2) ∷ []

circuit_answer : can_complete_circuit five_stations ≡ station 3
unfolding can_complete_circuit
circuit_answer = refl

can_complete_circuit_lem_example :
    ((s : ℕ) × (can_complete_circuit five_stations ≡ station s)
      × (s < 5)
      × Completes five_stations s)
    ⊎ ((can_complete_circuit five_stations ≡ nowhere) × ¬ ((s : ℕ) × Completes five_stations s))
can_complete_circuit_lem_example =
    can_complete_circuit_lem five_stations (omega arith) (omega arith) (omega arith)
