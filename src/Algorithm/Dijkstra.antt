-- ===== src/Algorithm/Dijkstra.antt =====
-- Algorithm/graphy.cpp: `dijkstra`, on a matrix of weights in which INT_MAX stands for no edge. The
-- global arrays are functions, read and written below `n`; `overflow` tells that a sum has left `int`,
-- which the source does not define.
mod Scan
mod Relax
pub mod Walks
pub mod Shortest
use learn_note.Prelude.{
  ℕ, zero, suc, ◌+◌, ◌==◌, Bool, true, false, not, ◌&&◌, ◌||◌, Option, none, some, if◌then◌else◌,
  ltb,
}

-- INT_MAX.
abbrev pub int_max : ℕ
int_max = 2147483647

-- `dist` and `visited`.
pub record Search : Type 0 where
  pub dist : ℕ → ℕ
  pub visited : ℕ → Bool
  pub overflow : Bool

abbrev pub put {ℓ} : {A : Type ℓ} → (ℕ → A) → ℕ → A → ℕ → A
put f k v i = if k == i then v else f i

-- The first loop.
unfoldable pub start : (ℕ → ℕ → ℕ) → ℕ → Search
start g src = record { dist = g src; visited = λ i. false; overflow = false }

-- The search for the nearest node that is not visited, over `count` nodes from `j` on; `u` is none for
-- -1.
unfoldable pub nearest : Search → (count j min : ℕ) → Option ℕ → Option ℕ
nearest s zero j min u = u
nearest s (suc count) j min u =
    let closer = ltb (s.dist j) min && not (s.visited j) in
    nearest s count (j + 1) (if closer then s.dist j else min) (if closer then some j else u)

unfoldable pub relax_one : (ℕ → ℕ → ℕ) → (u v : ℕ) → Search → Search
relax_one g u v s =
    let through = s.dist u + g u v in
    if not (s.visited v) && not (g u v == int_max)
    then record s {
      dist = if ltb through (s.dist v) then put s.dist v through else s.dist;
      overflow = s.overflow || ltb int_max through;
    }
    else s

-- The loop over the neighbours of `u`: `count` nodes from `v` on.
unfoldable pub relax : (ℕ → ℕ → ℕ) → (u count v : ℕ) → Search → Search
unfolding relax_one
relax g u zero v s = s
relax g u (suc count) v s = relax g u count (v + 1) (relax_one g u v s)

-- One turn of the outer loop, if it does not return.
unfoldable pub visit : (ℕ → ℕ → ℕ) → (n u : ℕ) → Search → Search
unfolding relax
visit g n u s = relax g u n 0 (record s { visited = put s.visited u true })

unfoldable pub turns : (ℕ → ℕ → ℕ) → (n count : ℕ) → Search → Search
unfolding nearest visit
turns g n zero s = s
turns g n (suc count) s = elim (nearest s n 0 int_max none) [
  | none ↦ s
  | some u ↦ turns g n count (visit g n u s)
]

unfoldable pub dijkstra : (ℕ → ℕ → ℕ) → (n src : ℕ) → Search
unfolding start turns
dijkstra g n src = turns g n n (start g src)
