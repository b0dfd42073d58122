-- ===== src/Memory/ThreadCache/Fetch.antt =====
-- How a thread gets a block from the central cache.
use learn_note.Prelude.{
  ℕ, suc, ◌+◌, ◌*◌, ◌/◌, ◌<◌, ◌==◌, ◌≡◌, ◌≢◌, sym, subst, ap, ap₂, ◌∙◌, false, arith, add_size,
  if-true, if-false,
}
use learn_note.Memory.SizeClass.{alignment, free_list_size}
use learn_note.Memory.CentralCache.{CentralCache, store, fetch_range, span_pages, page_size}
use learn_note.Memory.CentralCache.Spans.{fetch_range_lem}
use learn_note.Memory.ThreadCache.{
  ThreadCache, chain_length, most_blocks, file_range, fetch_from_central_cache,
}

-- A block with nothing behind it is a chain of one; two is fuel enough.
chain_length-last :
    (w : ℕ → ℕ) (fuel a : ℕ) → a ≢ 0 → w a ≡ 0 → chain_length w (suc (suc fuel)) a ≡ 1
unfolding chain_length
chain_length-last w fuel a nz e =
    let some_block : (a == 0) ≡ false = ground arith in
    if-false _ _ some_block ∙ ap (λ n. n + 1) (if-true _ _ (ap (λ v. v == 0) e))

-- The thread after it was handed a single block.
abbrev single : ThreadCache → ℕ → CentralCache → ThreadCache
single t index c = record {
  central = c;
  free_list = store t.free_list index 0;
  free_list_size = store t.free_list_size index (add_size (t.free_list_size index) 1);
}

file_range-single :
    (t : ThreadCache) (index : ℕ) (c : CentralCache) (start : ℕ)
    → start ≢ 0
    → c.word start ≡ 0
    → file_range t index c start ≡ (single t index c, start)
unfolding file_range
file_range-single t index c start nz e =
    let some_block : (start == 0) ≡ false = ground arith in
    let one : chain_length c.word most_blocks start ≡ 1 =
      chain_length-last c.word 4094 start nz e in
    if-false _ _ some_block
    ∙ ap₂
        (λ (v n : ℕ).
          let u : ThreadCache = record {
            central = c;
            free_list = store t.free_list index v;
            free_list_size = store t.free_list_size index (add_size (t.free_list_size index) n);
          } in
          (u, start))
        e one

-- Where the list of an index is empty in the central cache, and the page cache gives a span that holds
-- two blocks or more, the thread gets the first block alone: its own list is empty, its counter is one
-- more, and the count of the chain stays within its fuel.
pub fetch_from_central_cache_lem :
    (t : ThreadCache) (index span : ℕ)
    → index < free_list_size
    → t.central.central_free_list index ≡ 0
    → 0 < span
    → 1 < span_pages * page_size / ((index + 1) * alignment)
    → let (u, p) = fetch_from_central_cache t index span in
      (p ≡ span)
      × (u.free_list index ≡ 0)
      × (u.free_list_size index ≡ add_size (t.free_list_size index) 1)
unfolding fetch_from_central_cache
fetch_from_central_cache_lem t index span h e p many =
    let (d, res) = fetch_range t.central index span in
    let (same, cleared, chain) = fetch_range_lem t.central index span h e p many in
    let got : file_range t index d res ≡ (single t index d, res) =
      file_range-single t index d res (omega arith) (ap d.word same ∙ cleared) in
    subst
      (λ (r : ThreadCache × ℕ).
        (r.1 ≡ span)
        × (r.0.free_list index ≡ 0)
        × (r.0.free_list_size index ≡ add_size (t.free_list_size index) 1))
      (sym got) (same, ground arith, ground arith)
