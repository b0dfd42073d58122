-- ===== src/Memory/ThreadCache.antt =====
-- cpp_learning_projects/memory-mgkl/include/ThreadCache.hpp and src/ThreadCache.cpp: the free lists of
-- one thread, in front of the central cache. What `malloc` gives is an argument.
pub mod Returns
pub mod Fetch
mod Tests
use learn_note.Prelude.{
  ℕ, zero, suc, ◌+◌, ◌-◌, ◌*◌, ◌/◌, ◌==◌, Bool, true, false, not, ◌&&◌, if◌then◌else◌, ltb, leb,
  max, add_size, sub_size,
}
use learn_note.Memory.SizeClass.{alignment, max_bytes, ceil, get_index}
use learn_note.Memory.CentralCache.{CentralCache, store, fetch_range, return_range}

-- The lists of the thread with the central cache and the memory behind it.
pub record ThreadCache : Type 0 where
  pub central : CentralCache
  pub free_list : ℕ → ℕ
  pub free_list_size : ℕ → ℕ

unfoldable pub create : CentralCache → ThreadCache
create central = record { central = central; free_list = λ i. 0; free_list_size = λ i. 0 }

-- The number of blocks of a chain, counted up to `fuel`.
unfoldable pub chain_length : (ℕ → ℕ) → (fuel cur : ℕ) → ℕ
chain_length word zero cur = 0
chain_length word (suc fuel) cur =
    let rest = chain_length word fuel (word cur) in if cur == 0 then 0 else rest + 1

-- A span has at most so many blocks.
abbrev pub most_blocks : ℕ
most_blocks = 4096

-- What the central cache gave is handed out, with what is behind it as the new list.
unfoldable pub file_range : ThreadCache → (index : ℕ) → CentralCache → (start : ℕ) → ThreadCache × ℕ
file_range t index c start =
    let batch_num = chain_length c.word most_blocks start in
    if start == 0 then (record t { central = c }, 0) else (
      record {
        central = c;
        free_list = store t.free_list index (c.word start);
        free_list_size = store t.free_list_size index (add_size (t.free_list_size index) batch_num);
      },
      start,
    )

unfoldable pub fetch_from_central_cache : ThreadCache → (index span : ℕ) → ThreadCache × ℕ
unfolding file_range
fetch_from_central_cache t index span =
    let (c, start) = fetch_range t.central index span in file_range t index c start

-- A size that a free list serves.
unfoldable pub allocate_small : ThreadCache → (size span : ℕ) → ThreadCache × ℕ
unfolding fetch_from_central_cache
allocate_small t size span =
    let index = get_index size in
    let p = t.free_list index in
    let less = record t {
      free_list_size = store t.free_list_size index (sub_size (t.free_list_size index) 1);
    } in
    if p == 0
    then fetch_from_central_cache less index span
    else (record less { free_list = store t.free_list index (t.central.word p) }, p)

unfoldable pub allocate : ThreadCache → (size malloced span : ℕ) → ThreadCache × ℕ
unfolding allocate_small
allocate t size malloced span =
    let some_size = if size == 0 then alignment else size in
    if ltb max_bytes some_size then (t, malloced) else allocate_small t some_size span

-- The block `k` steps on, 0 where the chain ends before it.
unfoldable pub walk : (ℕ → ℕ) → (k node : ℕ) → ℕ
walk word zero node = node
walk word (suc k) node =
    let further = walk word k (word node) in if word node == 0 then 0 else further

-- The chain is cut behind `split`.
unfoldable pub cut_at : ThreadCache → (split keep_num count index : ℕ) → ThreadCache
unfolding return_range
cut_at t split keep_num count index =
    let next = t.central.word split in
    let cut = record t.central { word = store t.central.word split 0 } in
    record t {
      free_list_size = store t.free_list_size index keep_num;
      central = if ltb 0 count && not (next == 0) then return_range cut next count index else cut;
    }

unfoldable pub return_to_central_cache : ThreadCache → (start size : ℕ) → ThreadCache
unfolding walk cut_at
return_to_central_cache t start size =
    let index = get_index size in
    let batch_num = t.free_list_size index in
    let keep_num = max (batch_num / 4) 1 in
    let split = walk t.central.word keep_num start in
    if leb batch_num 1
    then t
    else (if split == 0
        then t
        else cut_at t split keep_num ((batch_num - keep_num) * ceil size) index)

abbrev pub threshold : ℕ
threshold = 64

unfoldable pub should_return_to_central_cache : ThreadCache → ℕ → Bool
should_return_to_central_cache t index = ltb threshold (t.free_list_size index)

unfoldable pub put_back : ThreadCache → (p index : ℕ) → ThreadCache
put_back t p index = record {
  central = record t.central { word = store t.central.word p (t.free_list index) };
  free_list = store t.free_list index p;
  free_list_size = store t.free_list_size index (add_size (t.free_list_size index) 1);
}

-- A large block goes back to the system.
unfoldable pub deallocate : ThreadCache → (p size : ℕ) → ThreadCache
unfolding put_back should_return_to_central_cache return_to_central_cache
deallocate t p size =
    let index = get_index size in
    let put = put_back t p index in
    if ltb max_bytes size
    then t
    else (if should_return_to_central_cache put index
        then return_to_central_cache put (put.free_list index) size
        else put)
