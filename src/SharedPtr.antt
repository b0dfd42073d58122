-- ===== src/SharedPtr.antt =====
-- misc/my_shared_ptr.cpp: `SharedPtr`, a pointer with a count of its owners. Each of its objects is a handle: null,
-- or the number of a cell, which stands for `m_ptr` and `m_ref_count` together. A handle of a null `m_ptr` that has a count is
-- a cell too. The destructor of what is pointed to changes no handle.
pub mod Handles
pub mod Counts
pub mod Safety
mod Tests
use learn_note.Prelude.{
  ℕ, zero, suc, ◌+◌, ◌-◌, ◌%◌, ◌^◌, ◌<◌, ◌≡◌, Bool, true, false, Option, none, some, List, [], ◌∷◌,
  ◌++◌, ◌==◌, if◌then◌else◌, get_or, set, length,
}

-- `counts` are the counters by cell; `deleted` are the cells whose pointer and counter were deleted.
pub record Heap : Type 0 where
  pub handles : List (Option ℕ)
  pub counts : List ℕ
  pub deleted : List ℕ

abbrev pub handle : Heap → ℕ → Option ℕ
handle s i = get_or s.handles i none

-- An `unsigned int` wraps around at 2^32.
abbrev pub increment : ℕ → ℕ
increment n = (n + 1) % 2 ^ 32

abbrev pub decrement : ℕ → ℕ
decrement n = (n + 2 ^ 32 - 1) % 2 ^ 32

unfoldable pub retain : Heap → Option ℕ → Heap
retain s none = s
retain s (some c) = record s { counts = set s.counts c (increment (get_or s.counts c 0)) }

unfoldable pub release : Heap → Option ℕ → Heap
release s none = s
release s (some c) =
    let left = decrement (get_or s.counts c 0) in
    record s {
      counts = set s.counts c left;
      deleted = if left == 0 then c ∷ s.deleted else s.deleted;
    }

-- The constructors give a new handle; each pointer is given to one handle only, so that it is a new cell.
unfoldable pub construct : Heap → Heap
construct s = record s { handles = s.handles ++ none ∷ [] }

unfoldable pub construct_from : Heap → Heap
construct_from s = record s {
  handles = s.handles ++ some (length s.counts) ∷ [];
  counts = s.counts ++ 1 ∷ [];
}

unfoldable pub copy : Heap → (other : ℕ) → Heap
unfolding retain
copy s other = retain (record s { handles = s.handles ++ handle s other ∷ [] }) (handle s other)

-- `swap` with a new null handle.
unfoldable pub move : Heap → (other : ℕ) → Heap
move s other = record s { handles = set s.handles other none ++ handle s other ∷ [] }

unfoldable pub copy_assign : Heap → (this rhs : ℕ) → Heap
unfolding retain release
copy_assign s this rhs =
    if this == rhs
    then s
    else (let freed = release s (handle s this) in
        retain (record freed { handles = set s.handles this (handle s rhs) }) (handle s rhs))

-- The temporary takes what `rhs` held, then swaps it with what `this` held, and ends without a destructor.
unfoldable pub move_assign : Heap → (this rhs : ℕ) → Heap
move_assign s this rhs =
    if this == rhs
    then s
    else record s { handles = set (set s.handles rhs none) this (handle s rhs) }

-- A handle ends. The class has no destructor, so the counter is left as it is.
unfoldable pub end_of_life : Heap → (this : ℕ) → Heap
end_of_life s this = record s { handles = set s.handles this none }

-- What a program does with its handles.
pub data Step (s : Heap) : Heap → Type 0 where
  constructs : Step s (construct s)
  constructs_from : Step s (construct_from s)
  copies : (i : ℕ) → i < length s.handles → Step s (copy s i)
  moves : (i : ℕ) → i < length s.handles → Step s (move s i)
  copy_assigns :
      (i j : ℕ) → i < length s.handles → j < length s.handles → Step s (copy_assign s i j)
  move_assigns :
      (i j : ℕ) → i < length s.handles → j < length s.handles → Step s (move_assign s i j)
  ends : (i : ℕ) → i < length s.handles → Step s (end_of_life s i)

abbrev pub empty_heap : Heap
empty_heap = record { handles = []; counts = []; deleted = [] }

-- What a program reaches in a number of steps.
pub data Reach : ℕ → Heap → Type 0 where
  start : Reach 0 empty_heap
  next : {n : ℕ} {s t : Heap} → Reach n s → Step s t → Reach (n + 1) t
