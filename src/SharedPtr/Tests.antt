-- ===== src/SharedPtr/Tests.antt =====
-- Runs of the pointer.
use learn_note.Prelude.{◌≤◌, ◌≡◌, ◌⊎◌, refl, none, some, [], ◌∷◌, arith, get_or, occurs}
use learn_note.SharedPtr.{
  Heap, retain, release, construct_from, copy_assign, move_assign, end_of_life, constructs_from,
  copy_assigns, Reach, start, next, empty_heap,
}
use learn_note.SharedPtr.Handles.{owners}
use learn_note.SharedPtr.Safety.{Reach-alive}

-- The only owner of the first cell is assigned another pointer: the first cell is deleted.
abbrev assigned : Heap
assigned = record { handles = some 1 ∷ some 1 ∷ []; counts = 0 ∷ 2 ∷ []; deleted = 0 ∷ [] }

assigned-Reach : Reach 3 assigned
unfolding construct_from copy_assign retain release
assigned-Reach =
    next (next (next start constructs_from) constructs_from)
      (copy_assigns 0 1 (omega arith) (omega arith))

Reach-alive_example :
    (occurs 1 assigned.deleted ≤ 1)
    × (owners 1 assigned.handles ≤ get_or assigned.counts 1 0)
    × ((occurs 1 assigned.deleted ≡ 0) ⊎ (owners 1 assigned.handles ≡ 0))
Reach-alive_example = Reach-alive 3 assigned (omega arith) assigned-Reach 1

-- A handle that ends, and one that is assigned by a move, leave their cells behind.
leaked :
    (end_of_life (construct_from empty_heap) 0
      ≡ record { handles = none ∷ []; counts = 1 ∷ []; deleted = [] })
    × (move_assign (construct_from (construct_from empty_heap)) 0 1
        ≡ record { handles = some 1 ∷ none ∷ []; counts = 1 ∷ 1 ∷ []; deleted = [] })
unfolding end_of_life construct_from move_assign
leaked = (refl, refl)
