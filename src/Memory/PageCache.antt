-- ===== src/Memory/PageCache.antt =====
-- cpp_learning_projects/memory-mgkl/include/PageCache.hpp and src/PageCache.cpp: spans of pages. A
-- `Span *` is a number, 0 the null pointer; the spans made are those up to a count. A `std::map` is the
-- list of its entries by ascending keys. What `mmap` gives is an argument. `none` is the use of a null
-- pointer.
pub mod Emptied
pub mod Split
mod Tests
use learn_note.Prelude.{
  ℕ, zero, suc, ◌+◌, ◌-◌, ◌*◌, ◌==◌, Bool, true, false, Option, none, some, List, [], ◌∷◌,
  if◌then◌else◌, ltb, leb,
}
use learn_note.Memory.CentralCache.{page_size}

pub record Span : Type 0 where
  pub page_addr : ℕ
  pub num_pages : ℕ
  pub next : ℕ

pub record PageCache : Type 0 where
  pub span : ℕ → Span
  pub made : ℕ
  pub free_spans : List (ℕ × ℕ)
  pub span_map : List (ℕ × ℕ)

unfoldable pub create : (ℕ → Span) → PageCache
create span = record { span = span; made = 0; free_spans = []; span_map = [] }

abbrev pub put_span : (ℕ → Span) → ℕ → Span → ℕ → Span
put_span f i v j = if i == j then v else f j

unfoldable pub lower_bound : ℕ → List (ℕ × ℕ) → Option (ℕ × ℕ)
lower_bound k [] = none
lower_bound k ((j, v) ∷ es) = let rest = lower_bound k es in if leb k j then some (j, v) else rest

unfoldable pub find : ℕ → List (ℕ × ℕ) → Option ℕ
find k [] = none
find k ((j, v) ∷ es) = let rest = find k es in if j == k then some v else rest

-- `map[k]` of a map of pointers: a missing one is null.
unfoldable pub or_null : Option ℕ → ℕ
or_null none = 0
or_null (some v) = v

-- `map[k] = v`.
unfoldable pub assign : (k v : ℕ) → List (ℕ × ℕ) → List (ℕ × ℕ)
assign k v [] = (k, v) ∷ []
assign k v ((j, u) ∷ es) =
    let rest = assign k v es in
    if j == k then (k, v) ∷ es else (if ltb k j then (k, v) ∷ (j, u) ∷ es else (j, u) ∷ rest)

unfoldable pub erase : ℕ → List (ℕ × ℕ) → List (ℕ × ℕ)
erase k [] = []
erase k ((j, u) ∷ es) = let rest = erase k es in if j == k then es else (j, u) ∷ rest

-- The span leaves its list.
unfoldable pub remove_head : PageCache → (key id : ℕ) → PageCache
unfolding assign erase
remove_head c key id =
    let next = (c.span id).next in
    record c {
      free_spans = if next == 0 then erase key c.free_spans else assign key next c.free_spans;
    }

-- The pages that are too many make a new span.
unfoldable pub split : PageCache → (id num_pages : ℕ) → PageCache
unfolding assign or_null find
split c id num_pages =
    let old = c.span id in
    let rest = old.num_pages - num_pages in
    let new = c.made + 1 in
    let more : Span = record {
      page_addr = old.page_addr + num_pages * page_size;
      num_pages = rest;
      next = or_null (find rest c.free_spans);
    } in
    if ltb num_pages old.num_pages
    then record c {
      span = put_span (put_span c.span new more) id (record old { num_pages = num_pages });
      made = new;
      free_spans = assign rest new c.free_spans;
    }
    else c

unfoldable pub register : PageCache → ℕ → PageCache × ℕ
unfolding assign
register c id =
    let address = (c.span id).page_addr in
    (record c { span_map = assign address id c.span_map }, address)

-- `mapped` is what `mmap` gives, or 0.
unfoldable pub map_new : PageCache → (num_pages mapped : ℕ) → PageCache × ℕ
unfolding register
map_new c num_pages mapped =
    let new = c.made + 1 in
    let fresh : Span = record { page_addr = mapped; num_pages = num_pages; next = 0 } in
    if mapped == 0
    then (c, 0)
    else register (record c { span = put_span c.span new fresh; made = new }) new

unfoldable pub allocate_from :
    Option (ℕ × ℕ) → PageCache → (num_pages mapped : ℕ) → Option (PageCache × ℕ)
unfolding remove_head split register map_new
allocate_from none c num_pages mapped = some (map_new c num_pages mapped)
allocate_from (some (key, id)) c num_pages mapped =
    if id == 0 then none else some (register (split (remove_head c key id) id num_pages) id)

unfoldable pub allocate_span : PageCache → (num_pages mapped : ℕ) → Option (PageCache × ℕ)
unfolding lower_bound allocate_from
allocate_span c num_pages mapped =
    allocate_from (lower_bound num_pages c.free_spans) c num_pages mapped

-- The span of the list before `target`, or 0. A list has no more spans than were made, which is fuel
-- enough.
unfoldable pub before : (ℕ → Span) → (fuel prev target : ℕ) → ℕ
before span zero prev target = 0
before span (suc fuel) prev target =
    let next = (span prev).next in
    let rest = before span fuel next target in
    if next == 0 then 0 else (if next == target then prev else rest)

-- The span joins the free one behind it.
unfoldable pub join : PageCache → (id next_addr next_id : ℕ) → PageCache
unfolding erase
join c id next_addr next_id =
    let s = c.span id in
    record c {
      span = put_span c.span id (record s { num_pages = s.num_pages + (c.span next_id).num_pages });
      span_map = erase next_addr c.span_map;
    }

-- The span at the next address, if it is free, leaves its list. The list is made if it is not there.
unfoldable pub merge : PageCache → (id next_addr next_id : ℕ) → PageCache
unfolding assign or_null find before join
merge c id next_addr next_id =
    let following = c.span next_id in
    let list = or_null (find following.num_pages c.free_spans) in
    let listed = record c { free_spans = assign following.num_pages list c.free_spans } in
    let prev = if list == 0 then 0 else before c.span c.made list next_id in
    if list == next_id
    then join (record c { free_spans = assign following.num_pages following.next c.free_spans }) id
        next_addr next_id
    else (if prev == 0
        then listed
        else join
            (record listed {
              span = put_span c.span prev (record (c.span prev) { next = following.next });
            })
            id next_addr next_id)

unfoldable pub merge_next : Option ℕ → PageCache → (id next_addr : ℕ) → PageCache
unfolding merge
merge_next none c id next_addr = c
merge_next (some next_id) c id next_addr = merge c id next_addr next_id

unfoldable pub release : PageCache → ℕ → PageCache
unfolding assign or_null find
release c id =
    let s = c.span id in
    record c {
      span = put_span c.span id (record s { next = or_null (find s.num_pages c.free_spans) });
      free_spans = assign s.num_pages id c.free_spans;
    }

unfoldable pub deallocate_at : Option ℕ → PageCache → (p num_pages : ℕ) → PageCache
unfolding merge_next release find
deallocate_at none c p num_pages = c
deallocate_at (some id) c p num_pages =
    let next_addr = p + num_pages * page_size in
    release (merge_next (find next_addr c.span_map) c id next_addr) id

unfoldable pub deallocate_span : PageCache → (p num_pages : ℕ) → PageCache
unfolding deallocate_at find
deallocate_span c p num_pages = deallocate_at (find p c.span_map) c p num_pages
