-- ===== src/Memory/CentralCache.antt =====
-- cpp_learning_projects/memory-mgkl/include/CentralCache.hpp and src/CentralCache.cpp: the free lists
-- that all threads share. An address is a number, 0 the null pointer, and a free block holds the address
-- of the next one in its first word. What `PageCache::allocateSpan` gives is an argument. The spin lock
-- of a list makes each operation one step.
pub mod Spans
mod Tests
use learn_note.Prelude.{
  ℕ, zero, suc, ◌+◌, ◌-◌, ◌*◌, ◌/◌, ◌==◌, Bool, true, false, ◌||◌, if◌then◌else◌, ltb, leb,
}
use learn_note.Memory.SizeClass.{alignment, free_list_size}

-- `word` is the first word of each block of the memory.
pub record CentralCache : Type 0 where
  pub word : ℕ → ℕ
  pub central_free_list : ℕ → ℕ

abbrev pub span_pages : ℕ
span_pages = 8

abbrev pub page_size : ℕ
page_size = 4096

abbrev pub store : (ℕ → ℕ) → ℕ → ℕ → ℕ → ℕ
store f a v b = if a == b then v else f b

unfoldable pub create : (ℕ → ℕ) → CentralCache
create word = record { word = word; central_free_list = λ i. 0 }

-- How many pages are asked for, for blocks of `size`.
unfoldable pub pages_for : ℕ → ℕ
pages_for size =
    let num_pages = (size + page_size - 1) / page_size in
    if leb size (span_pages * page_size) then span_pages else num_pages

-- The loop from `i`, `k` times: each block is given the address of the one after it.
unfoldable pub link : (ℕ → ℕ) → (start size k i : ℕ) → ℕ → ℕ
link word start size zero i = word
link word start size (suc k) i =
    link (store word (start + (i - 1) * size) (start + i * size)) start size k (i + 1)

-- The first block is handed out, the rest is the new free list.
unfoldable pub take_head : CentralCache → (index res : ℕ) → CentralCache × ℕ
take_head c index res = (
  record {
    word = store c.word res 0;
    central_free_list = store c.central_free_list index (c.word res);
  },
  res,
)

-- A new span is cut into blocks. One that holds a single block is handed out as it is.
unfoldable pub carve : CentralCache → (index span : ℕ) → CentralCache × ℕ
unfolding link take_head
carve c index span =
    let size = (index + 1) * alignment in
    let block_num = span_pages * page_size / size in
    let linked = link c.word span size (block_num - 1) 1 in
    if ltb 1 block_num
    then take_head (record c { word = store linked (span + (block_num - 1) * size) 0 }) index span
    else (c, span)

-- `span` is what the page cache gives, if it is asked, and 0 where it has none.
unfoldable pub fetch_range : CentralCache → (index span : ℕ) → CentralCache × ℕ
unfolding carve take_head
fetch_range c index span =
    let res = c.central_free_list index in
    if leb free_list_size index
    then (c, 0)
    else (if res == 0
        then (if span == 0 then (c, 0) else carve c index span)
        else take_head c index res)

-- The last block of a chain, or the one `k` steps on.
unfoldable pub last_of : (ℕ → ℕ) → (k end : ℕ) → ℕ
last_of word zero end = end
last_of word (suc k) end =
    let further = last_of word k (word end) in if word end == 0 then end else further

unfoldable pub return_range : CentralCache → (start size index : ℕ) → CentralCache
unfolding last_of
return_range c start size index =
    let end = last_of c.word (size - 1) start in
    if start == 0 || leb free_list_size index then c else record {
      word = store c.word end (c.central_free_list index);
      central_free_list = store c.central_free_list index start;
    }
