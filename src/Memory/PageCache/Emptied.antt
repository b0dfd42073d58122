-- ===== src/Memory/PageCache/Emptied.antt =====
-- What becomes of a list of free spans when its only span is joined with the one before it.
use learn_note.Prelude.{
  ℕ, ◌+◌, ◌*◌, ◌<◌, ◌==◌, ◌≡◌, subst, ap, ◌∙◌, Bool-cases, inl, inr, true, false, none, some, List,
  [], ◌∷◌, arith, ltb, if-true, if-false, if◌then◌else◌,
}
use learn_note.Memory.CentralCache.{page_size}
use learn_note.Memory.PageCache.{
  PageCache, lower_bound, find, or_null, assign, allocate_from, allocate_span, join, merge,
  merge_next, release, deallocate_at, deallocate_span,
}

abbrev pub Above : ℕ → List (ℕ × ℕ) → Type 0
Above k [] = Unit {0}
Above k ((j, v) ∷ es) = (k < j) × Above k es

abbrev pub Ascending : List (ℕ × ℕ) → Type 0
Ascending [] = Unit {0}
Ascending ((j, v) ∷ es) = Above j es × Ascending es

Above-mono : (k j : ℕ) (es : List (ℕ × ℕ)) → k < j → Above j es → Above k es
Above-mono k j [] h a = tt
Above-mono k j ((i, v) ∷ es) h (lt, a) = (omega arith, Above-mono k j es h a)

assign-Above : (b k v : ℕ) (es : List (ℕ × ℕ)) → b < k → Above b es → Above b (assign k v es)
unfolding assign
assign-Above b k v [] h a = (h, tt)
assign-Above b k v ((j, u) ∷ es) h (lt, a) = ground (arith, h, lt, a, assign-Above b k v es h a)

assign-Ascending : (k v : ℕ) (es : List (ℕ × ℕ)) → Ascending es → Ascending (assign k v es)
unfolding assign
assign-Ascending k v [] a = (tt, tt)
assign-Ascending k v ((j, u) ∷ es) (b, a) = elim (Bool-cases (j == k)) [
  | inl e ↦ rw e (subst (λ i. Above i es) (ground arith) b, a)
  | inr e ↦ elim (Bool-cases (ltb k j)) [
    | inl l ↦ let lt : k < j = ground arith in rw (e, l) ((lt, Above-mono k j es lt b), (b, a))
    | inr l ↦ rw (e, l) (assign-Above j k v es (ground arith) b, assign-Ascending k v es a)
  ]
]

pub find-assign :
    (k j v : ℕ) (es : List (ℕ × ℕ))
    → find k (assign j v es) ≡ (if j == k then some v else find k es)
unfolding find assign
find-assign k j v [] = ground arith
find-assign k j v ((i, u) ∷ es) = ground (arith, find-assign k j v es)

find-Above : (k b v : ℕ) (es : List (ℕ × ℕ)) → Above b es → find k es ≡ some v → b < k
unfolding find
find-Above k b v [] a e = absurd cc
find-Above k b v ((i, u) ∷ es) (lt, a) e = ground (arith, find-Above k b v es a)

-- Where a key is there, the lower bound of the key is its entry.
lower_bound-find :
    (k v : ℕ) (es : List (ℕ × ℕ))
    → Ascending es
    → find k es ≡ some v
    → lower_bound k es ≡ some (k, v)
unfolding find lower_bound
lower_bound-find k v [] a e = absurd cc
lower_bound-find k v ((i, u) ∷ es) (b, a) e =
    ground (arith, find-Above k i v es b, lower_bound-find k v es a)

-- The cache after the span `id` joined the only free span `next_id` of its size.
abbrev joined : PageCache → (id next_addr next_id : ℕ) → PageCache
joined c id next_addr next_id =
    join
      (record c {
        free_spans = assign (c.span next_id).num_pages (c.span next_id).next c.free_spans;
      })
      id next_addr next_id

merge-joined :
    (c : PageCache) (id next_addr next_id : ℕ)
    → find (c.span next_id).num_pages c.free_spans ≡ some next_id
    → merge c id next_addr next_id ≡ joined c id next_addr next_id
unfolding merge or_null
merge-joined c id next_addr next_id e =
    if-true _ _ (ap (λ o. or_null o == next_id) e ∙ same next_id)
  where
    same : (n : ℕ) → (n == n) ≡ true
    same n = ground arith

deallocate_span-joined :
    (c : PageCache) (p num_pages id next_id : ℕ)
    → let next_addr = p + num_pages * page_size in
      find p c.span_map ≡ some id
      → find next_addr c.span_map ≡ some next_id
      → find (c.span next_id).num_pages c.free_spans ≡ some next_id
      → deallocate_span c p num_pages ≡ release (joined c id next_addr next_id) id
unfolding deallocate_span deallocate_at merge_next
deallocate_span-joined c p num_pages id next_id e f g =
    ap (λ o. deallocate_at o c p num_pages) e
    ∙ ap (λ o. release (merge_next o c id (p + num_pages * page_size)) id) f
    ∙ ap (λ d. release d id) (merge-joined c id (p + num_pages * page_size) next_id g)

-- The list of the size of `next_id` holds a null pointer then.
joined-find :
    (c : PageCache) (id next_addr next_id : ℕ)
    → (c.span next_id).next ≡ 0
    → 0 < (c.span id).num_pages
    → find (c.span next_id).num_pages (release (joined c id next_addr next_id) id).free_spans
      ≡ some 0
unfolding release join
joined-find c id next_addr next_id z p =
    let key = (c.span next_id).num_pages in
    let first = assign key (c.span next_id).next c.free_spans in
    let pages = ((joined c id next_addr next_id).span id).num_pages in
    let sum : pages ≡ (c.span id).num_pages + key = ground arith in
    let other : (pages == key) ≡ false = ground (arith, sum) in
    let own : (key == key) ≡ true = ground arith in
    find-assign key pages id first
    ∙ if-false _ _ other
    ∙ find-assign key key (c.span next_id).next c.free_spans
    ∙ if-true _ _ own
    ∙ ap some z

joined-Ascending :
    (c : PageCache) (id next_addr next_id : ℕ)
    → Ascending c.free_spans
    → Ascending (release (joined c id next_addr next_id) id).free_spans
unfolding release join
joined-Ascending c id next_addr next_id a =
    assign-Ascending _ _ _ (assign-Ascending _ _ c.free_spans a)

allocate_span-null :
    (c : PageCache) (k mapped : ℕ)
    → Ascending c.free_spans
    → find k c.free_spans ≡ some 0
    → allocate_span c k mapped ≡ none
unfolding allocate_span allocate_from
allocate_span-null c k mapped a e =
    ap (λ o. allocate_from o c k mapped) (lower_bound-find k 0 c.free_spans a e)

-- Where a span is released and the span behind it is the only free one of its size, the two are joined
-- and a null pointer stays behind as the list of that size: the next allocation of that many pages uses
-- it.
pub emptied_list :
    (c : PageCache) (p num_pages id next_id mapped : ℕ)
    → Ascending c.free_spans
    → find p c.span_map ≡ some id
    → find (p + num_pages * page_size) c.span_map ≡ some next_id
    → find (c.span next_id).num_pages c.free_spans ≡ some next_id
    → (c.span next_id).next ≡ 0
    → 0 < (c.span id).num_pages
    → allocate_span (deallocate_span c p num_pages) (c.span next_id).num_pages mapped ≡ none
emptied_list c p num_pages id next_id mapped a e f g z h =
    ap (λ d. allocate_span d (c.span next_id).num_pages mapped)
      (deallocate_span-joined c p num_pages id next_id e f g)
    ∙ allocate_span-null _ (c.span next_id).num_pages mapped
        (joined-Ascending c id (p + num_pages * page_size) next_id a)
        (joined-find c id (p + num_pages * page_size) next_id z h)
