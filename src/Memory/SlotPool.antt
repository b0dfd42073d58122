-- ===== src/Memory/SlotPool.antt =====
-- cpp_learning_projects/memory-mgkl/include/MemoryPool.hpp and src/MemoryPool.cpp: pools of slots of one
-- size each. An address is a number, 0 the null pointer; `next` is the word at the start of a slot or a
-- block. What `operator new` gives is an argument. A push or pop by compare-and-swap is one step.
pub mod Blocks
pub mod Destruction
mod Tests
use learn_note.Prelude.{
  ℕ, zero, suc, List, [], ◌∷◌, ◌+◌, ◌-◌, ◌*◌, ◌/◌, ◌%◌, ◌==◌, Bool, true, false, if◌then◌else◌, ltb,
  leb, add_size, sub_size,
}

pub record SlotPool : Type 0 where
  pub block_size : ℕ
  pub slot_size : ℕ
  pub first_block : ℕ
  pub cur_slot : ℕ
  pub free_list : ℕ
  pub last_slot : ℕ
  pub next : ℕ → ℕ

-- `sizeof(Slot)`, which is that of a pointer.
abbrev pub pointer_size : ℕ
pointer_size = 8

unfoldable pub create : (block_size : ℕ) → (ℕ → ℕ) → SlotPool
create block_size next = record {
  block_size = block_size;
  slot_size = 0;
  first_block = 0;
  cur_slot = 0;
  free_list = 0;
  last_slot = 0;
  next = next;
}

unfoldable pub init : SlotPool → ℕ → SlotPool
init p slot_size = record p {
  slot_size = slot_size;
  first_block = 0;
  cur_slot = 0;
  free_list = 0;
  last_slot = 0;
}

abbrev pub store : (ℕ → ℕ) → ℕ → ℕ → ℕ → ℕ
store f a v b = if a == b then v else f b

unfoldable pub pad_pointer : (p align : ℕ) → ℕ
pad_pointer p align = sub_size align p % align

-- `block` is what `operator new` gives.
unfoldable pub allocate_new_block : SlotPool → (block : ℕ) → SlotPool
unfolding pad_pointer
allocate_new_block p block =
    let body = add_size block pointer_size in
    record p {
      next = store p.next block p.first_block;
      first_block = block;
      cur_slot = add_size body (pad_pointer body p.slot_size);
      last_slot = add_size (sub_size (add_size block p.block_size) p.slot_size) 1;
      free_list = 0;
    }

unfoldable pub push_free_list : SlotPool → ℕ → SlotPool
push_free_list p slot = record p { next = store p.next slot p.free_list; free_list = slot }

-- The pool and the slot, or 0.
unfoldable pub pop_free_list : SlotPool → SlotPool × ℕ
pop_free_list p =
    if p.free_list == 0 then (p, 0) else (record p { free_list = p.next p.free_list }, p.free_list)

-- The slot at `curSlot_`, which moves on by whole slots of a pointer's size.
unfoldable pub bump : SlotPool → SlotPool × ℕ
bump p = (
  record p { cur_slot = add_size p.cur_slot (p.slot_size / pointer_size * pointer_size) },
  p.cur_slot,
)

unfoldable pub allocate_fresh : SlotPool → (block : ℕ) → SlotPool × ℕ
unfolding allocate_new_block bump
allocate_fresh p block = bump (if leb p.last_slot p.cur_slot then allocate_new_block p block else p)

unfoldable pub allocate : SlotPool → (block : ℕ) → SlotPool × ℕ
unfolding pop_free_list allocate_fresh
allocate p block =
    let (rest, slot) = pop_free_list p in
    if slot == 0 then allocate_fresh rest block else (rest, slot)

unfoldable pub deallocate : SlotPool → ℕ → SlotPool
unfolding push_free_list
deallocate p slot = if slot == 0 then p else push_free_list p slot

abbrev pub memory_pool_num : ℕ
memory_pool_num = 64

abbrev pub slot_base_size : ℕ
slot_base_size = 8

abbrev pub max_slot_size : ℕ
max_slot_size = 512

-- `HashBucket::initMemoryPool` over the pools by index.
unfoldable pub init_memory_pool : (ℕ → SlotPool) → ℕ → SlotPool
unfolding init
init_memory_pool pools i =
    if ltb i memory_pool_num then init (pools i) ((i + 1) * slot_base_size) else pools i

-- The index of the pool that serves `nbytes`.
unfoldable pub pool_index : ℕ → ℕ
pool_index nbytes = sub_size (add_size nbytes 7 / slot_base_size) 1

-- What a request comes to: nothing, memory of the system, or a slot with the pools after it.
pub data Memory : Type 0 where
  nothing from_system : Memory
  slot : (ℕ → SlotPool) → ℕ → Memory

abbrev pub put_pool : (ℕ → SlotPool) → ℕ → SlotPool → ℕ → SlotPool
put_pool pools i p j = if i == j then p else pools j

unfoldable pub use_memory : (ℕ → SlotPool) → (nbytes block : ℕ) → Memory
unfolding pool_index allocate
use_memory pools nbytes block =
    let i = pool_index nbytes in
    let (p, address) = allocate (pools i) block in
    if nbytes == 0
    then nothing
    else (if ltb max_slot_size nbytes then from_system else slot (put_pool pools i p) address)

-- The pools after a release; memory of the system goes back to it.
unfoldable pub free_memory : (ℕ → SlotPool) → (address size : ℕ) → ℕ → SlotPool
unfolding pool_index deallocate
free_memory pools address size =
    let i = pool_index size in
    if address == 0
    then pools
    else (if ltb max_slot_size size then pools else put_pool pools i (deallocate (pools i) address))

-- `newElement` and `deleteElement`, for a type of `size` bytes; its constructor and destructor change nothing here.
unfoldable pub new_element : (ℕ → SlotPool) → (size block : ℕ) → Memory
unfolding use_memory
new_element pools size block = use_memory pools size block

unfoldable pub delete_element : (ℕ → SlotPool) → (address size : ℕ) → ℕ → SlotPool
unfolding free_memory
delete_element pools address size = if address == 0 then pools else free_memory pools address size

-- The blocks that the destructor frees, in order. A round reads the word of its block before it frees it.
unfoldable pub freed_from : (fuel : ℕ) → (ℕ → ℕ) → (block : ℕ) → List ℕ
freed_from zero next block = []
freed_from (suc fuel) next block =
    let rest = freed_from fuel next (next block) in if block == 0 then [] else block ∷ rest

unfoldable pub destroy : (fuel : ℕ) → SlotPool → List ℕ
unfolding freed_from
destroy fuel p = freed_from fuel p.next p.first_block
