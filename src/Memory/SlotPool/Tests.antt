-- ===== src/Memory/SlotPool/Tests.antt =====
-- A pool of 24-byte slots in a block at 4096.
use learn_note.Prelude.{◌≡◌, refl, inl, arith, [], ◌∷◌}
use learn_note.Memory.SlotPool.{SlotPool, create, init, allocate, deallocate, destroy}
use learn_note.Memory.Chain.{Distinct}
use learn_note.Memory.SlotPool.Destruction.{Life, begins, allocates, deallocates, destroy-Life}
use learn_note.Memory.SlotPool.Blocks.{IsValid, Within, allocate-Within}

abbrev pool : SlotPool
pool = init (create 4096 (λ a. 0)) 24

pool-IsValid : IsValid pool
unfolding create init
pool-IsValid = record {
  some_bytes = omega arith;
  whole = refl;
  small = omega arith;
  begun = inl refl;
}

-- The arithmetic of `padPointer` wraps around: the slot is not at a multiple of its size.
first_slot : (allocate pool 4096).1 ≡ 4120
unfolding allocate create init
first_slot = refl

allocate-Within_example : Within pool (allocate pool 4096).0 4096 (allocate pool 4096).1
unfolding create init
allocate-Within_example = allocate-Within pool 4096 pool-IsValid refl (omega arith)

-- A slot was allocated, which took a block, and released.
abbrev used : SlotPool
used = deallocate (allocate pool 4096).0 4120

used-Life : Life used (4096 ∷ [])
unfolding allocate create init
used-Life =
    deallocates 4120 ((λ e. absurd (omega (arith, e))), tt)
      (allocates 4096 (λ e. absurd (omega (arith, e))) tt (begins (create 4096 (λ a. 0)) 24))

destroy-Life_example : (destroy 1 used ≡ 4096 ∷ []) × Distinct (4096 ∷ [])
destroy-Life_example = destroy-Life used (4096 ∷ []) 1 used-Life (omega arith)
