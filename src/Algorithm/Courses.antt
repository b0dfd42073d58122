-- ===== src/Algorithm/Courses.antt =====
-- Algorithm/graphy.cpp: `traverse` and `findOrder`, the order of courses by depth-first search. The
-- global arrays are functions, read and written below `n`; `traverse` runs on fuel, and none says that
-- it has run out.
pub mod Order
mod Marked
mod Walk
mod Visits
pub mod Answer
pub mod Finish
use learn_note.Prelude.{
  ℕ, zero, suc, ◌+◌, ◌==◌, Bool, true, false, not, ◌&&◌, ◌||◌, Option, none, some, List, [], ◌∷◌,
  ◌++◌, if◌then◌else◌, range,
}
use mathlib.Core.List.{reverse}
use mathlib.Core.Option.{map}

-- `onPath`, `visited`, `hasCycle` and `postorder`.
pub record Marks : Type 0 where
  pub on_path : ℕ → Bool
  pub visited : ℕ → Bool
  pub has_cycle : Bool
  pub postorder : List ℕ

abbrev pub put {ℓ} : {A : Type ℓ} → (ℕ → A) → ℕ → A → ℕ → A
put f k v i = if k == i then v else f i

-- `G[from].push_back(to)` for each pair of `to` and `from`.
unfoldable pub build : (ℕ → List ℕ) → List (ℕ × ℕ) → ℕ → List ℕ
build g [] = g
build g ((to, from) ∷ pairs) = build (put g from (g from ++ to ∷ [])) pairs

-- The calls of `traverse` for each of a list of nodes.
unfoldable pub each : (ℕ → Marks → Option Marks) → List ℕ → Marks → Option Marks
each f [] s = some s
each f (i ∷ is) s = elim (f i s) [ none ↦ none | some t ↦ each f is t ]

unfoldable pub enter : ℕ → Marks → Marks
enter i s = record s { visited = put s.visited i true; on_path = put s.on_path i true }

unfoldable pub leave : ℕ → Marks → Marks
leave i s = record s { postorder = s.postorder ++ i ∷ []; on_path = put s.on_path i false }

-- `if (onPath[i]) hasCycle = true;`.
unfoldable pub check : ℕ → Marks → Marks
check i s = if s.on_path i then record s { has_cycle = true } else s

unfoldable pub traverse : (fuel : ℕ) → (ℕ → List ℕ) → ℕ → Marks → Option Marks
unfolding each enter leave check
traverse zero g i s = none
traverse (suc fuel) g i s =
    let checked = check i s in
    let below = map (leave i) (each (traverse fuel g) (g i) (enter i checked)) in
    if checked.visited i || checked.has_cycle then some checked else below

-- The order of `n` courses; `has_cycle` and `postorder` are what the globals hold before.
unfoldable pub find_order :
    (fuel n : ℕ) → List (ℕ × ℕ) → (has_cycle : Bool) → (postorder : List ℕ) → Option (List ℕ)
unfolding traverse build
find_order fuel n pairs has_cycle postorder =
    let g = build (λ i. []) pairs in
    let blank : Marks = record {
      on_path = λ i. false;
      visited = λ i. false;
      has_cycle = has_cycle;
      postorder = postorder;
    } in
    map (λ t. if t.has_cycle then [] else reverse t.postorder)
      (each (traverse fuel g) (range 0 n) blank)
