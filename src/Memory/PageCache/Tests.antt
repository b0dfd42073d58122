-- ===== src/Memory/PageCache/Tests.antt =====
-- Two spans of eight pages that lie side by side.
use learn_note.Prelude.{
  ℕ, ◌+◌, ◌*◌, ◌==◌, ◌≡◌, refl, Option, none, some, [], ◌∷◌, arith, if◌then◌else◌,
}
use learn_note.Memory.CentralCache.{page_size}
use learn_note.Memory.PageCache.{
  PageCache, create, lower_bound, find, or_null, allocate_span, deallocate_span,
}
use learn_note.Memory.PageCache.Emptied.{emptied_list}
use learn_note.Memory.PageCache.Split.{allocate_span-split}

abbrev empty : PageCache
empty = create (λ i. record { page_addr = 0; num_pages = 0; next = 0 })

abbrev then_use :
    Option (PageCache × ℕ) → (PageCache → Option (PageCache × ℕ)) → Option (PageCache × ℕ)
then_use none f = none
then_use (some (c, a)) f = f c

-- When both are released and joined, the list of spans of eight pages is left with a null pointer.
emptied :
    then_use (allocate_span empty 8 4096) (λ c.
      then_use
        (allocate_span c 8 36864)
        (λ d. allocate_span (deallocate_span (deallocate_span d 36864 8) 4096 8) 8 81920))
    ≡ none
unfolding create allocate_span deallocate_span
emptied = refl

-- Span 1 is in use, span 2 behind it is free.
abbrev one_free : PageCache
one_free = record {
  span = λ i. record { page_addr = if i == 1 then 4096 else 36864; num_pages = 8; next = 0 };
  made = 2;
  free_spans = (8, 2) ∷ [];
  span_map = (4096, 1) ∷ (36864, 2) ∷ [];
}

emptied_list_example : allocate_span (deallocate_span one_free 4096 8) 8 81920 ≡ none
unfolding find
emptied_list_example =
    emptied_list one_free 4096 8 1 2 81920 (tt, tt) refl refl refl refl (omega arith)

allocate_span-split_example :
    (d : PageCache) × (allocate_span one_free 3 81920 ≡ some (d, 36864))
    × (find 36864 d.span_map ≡ some 2)
    × ((d.span 2).num_pages ≡ 3)
    × ((d.span 3).page_addr ≡ 36864 + 3 * page_size)
    × (3 + (d.span 3).num_pages ≡ 8)
    × (find 5 d.free_spans ≡ some 3)
    × ((d.span 3).next ≡ 0)
    × (find 8 d.free_spans ≡ none)
unfolding lower_bound find or_null
allocate_span-split_example =
    allocate_span-split one_free 8 2 3 81920 (tt, tt) refl (omega arith) (omega arith) refl
      (omega arith) (omega arith)
