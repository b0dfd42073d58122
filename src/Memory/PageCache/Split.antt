-- ===== src/Memory/PageCache/Split.antt =====
-- How a free span serves a request for fewer pages.
use learn_note.Prelude.{
  ℕ, ◌+◌, ◌-◌, ◌*◌, ◌≤◌, ◌<◌, ◌==◌, ◌≡◌, ◌≢◌, refl, sym, subst, ap, ◌∙◌, true, false, none, some,
  arith, List, [], ◌∷◌, Bool-cases, inl, inr, if-true, if-false, if◌then◌else◌,
}
use learn_note.Memory.CentralCache.{page_size}
use learn_note.Memory.PageCache.{
  PageCache, lower_bound, find, or_null, assign, erase, remove_head, split, register, allocate_from,
  allocate_span,
}
use learn_note.Memory.PageCache.Emptied.{Above, Ascending, find-assign}

find-past : (k : ℕ) (es : List (ℕ × ℕ)) → Above k es → find k es ≡ none
unfolding find
find-past k [] a = refl
find-past k ((j, v) ∷ es) (lt, a) = ground (arith, find-past k es a, lt)

find-erase : (k : ℕ) (es : List (ℕ × ℕ)) → Ascending es → find k (erase k es) ≡ none
unfolding find erase
find-erase k [] a = refl
find-erase k ((j, v) ∷ es) (b, a) = elim (Bool-cases (j == k)) [
  | inl e ↦
      ap (find k) (if-true _ _ e) ∙ find-past k es (subst (λ i. Above i es) (ground (arith, e)) b)
  | inr e ↦ ap (find k) (if-false _ _ e) ∙ if-false _ _ e ∙ find-erase k es a
]

find-erase-other : (k j : ℕ) (es : List (ℕ × ℕ)) → k ≢ j → find k (erase j es) ≡ find k es
unfolding find erase
find-erase-other k j [] other = refl
find-erase-other k j ((i, v) ∷ es) other = ground (arith, other, find-erase-other k j es other)

module _ (c : PageCache) (key id num_pages mapped : ℕ) where
  abbrev served : PageCache
  served = split (remove_head c key id) id num_pages

  abbrev rest : ℕ
  rest = (c.span id).num_pages - num_pages

  abbrev left : PageCache
  left = remove_head c key id

  served-spans :
      id ≤ c.made
      → num_pages < (c.span id).num_pages
      → let new = c.made + 1 in
        ((served.span id).page_addr ≡ (c.span id).page_addr)
        × ((served.span id).num_pages ≡ num_pages)
        × ((served.span new).page_addr ≡ (c.span id).page_addr + num_pages * page_size)
        × (num_pages + (served.span new).num_pages ≡ (c.span id).num_pages)
        × ((served.span new).next ≡ or_null (find rest left.free_spans))
        × (served.free_spans ≡ assign rest new left.free_spans)
  unfolding split remove_head
  served-spans h lt = ground arith

  -- The list that the span was the first of starts with the next one, or is gone.
  left-find :
      Ascending c.free_spans
      → find key left.free_spans ≡ (if (c.span id).next == 0 then none else some (c.span id).next)
  unfolding remove_head
  left-find a =
      let own : (key == key) ≡ true = ground arith in
      elim (Bool-cases ((c.span id).next == 0)) [
        | inl z ↦
            ap (find key) (if-true _ _ z) ∙ find-erase key c.free_spans a ∙ sym (if-true _ _ z)
        | inr z ↦
            ap (find key) (if-false _ _ z)
            ∙ find-assign key key (c.span id).next c.free_spans
            ∙ if-true _ _ own
            ∙ sym (if-false _ _ z)
      ]

  -- The other lists stay.
  left-other :
      Ascending c.free_spans → (k : ℕ) → k ≢ key → find k left.free_spans ≡ find k c.free_spans
  unfolding remove_head
  left-other a k other =
      let apart : (key == k) ≡ false = ground (arith, other) in
      elim (Bool-cases ((c.span id).next == 0)) [
        | inl z ↦ ap (find k) (if-true _ _ z) ∙ find-erase-other k key c.free_spans other
        | inr z ↦
            ap (find k) (if-false _ _ z)
            ∙ find-assign k key (c.span id).next c.free_spans
            ∙ if-false _ _ apart
      ]

  allocate_span-served :
      lower_bound num_pages c.free_spans ≡ some (key, id)
      → id ≢ 0
      → allocate_span c num_pages mapped ≡ some (register served id)
  unfolding allocate_span allocate_from
  allocate_span-served e nz =
      let some_span : (id == 0) ≡ false = ground arith in
      ap (λ o. allocate_from o c num_pages mapped) e ∙ if-false _ _ some_span

  -- Where the lists of free spans are by ascending sizes, and the first that is long enough, that of
  -- size `key`, starts with a span of `key` pages and more than are asked for, the request gets the
  -- address of that span, which is entered for it with just those pages; the others, right behind them,
  -- are a new span, now the first of the list of its size, before what that list started with; and the
  -- list of size `key` starts with what came after the span, or is gone.
  pub allocate_span-split :
      Ascending c.free_spans
      → lower_bound num_pages c.free_spans ≡ some (key, id)
      → id ≢ 0
      → id ≤ c.made
      → (c.span id).num_pages ≡ key
      → 0 < num_pages
      → num_pages < key
      → (d : PageCache) × (allocate_span c num_pages mapped ≡ some (d, (c.span id).page_addr))
        × (find (c.span id).page_addr d.span_map ≡ some id)
        × ((d.span id).num_pages ≡ num_pages)
        × ((d.span (c.made + 1)).page_addr ≡ (c.span id).page_addr + num_pages * page_size)
        × (num_pages + (d.span (c.made + 1)).num_pages ≡ key)
        × (find (key - num_pages) d.free_spans ≡ some (c.made + 1))
        × ((d.span (c.made + 1)).next ≡ or_null (find (key - num_pages) c.free_spans))
        × (find key d.free_spans ≡ (if (c.span id).next == 0 then none else some (c.span id).next))
  unfolding register
  allocate_span-split asc e nz h size some_pages fewer =
      let s = served-spans h (omega (arith, size, fewer)) in
      let a = (c.span id).page_addr in
      let own : (a == a) ≡ true = ground arith in
      let same : rest ≡ key - num_pages = ap (λ n. n - num_pages) size in
      let found : (rest == key - num_pages) ≡ true = ground (arith, same) in
      let apart : (rest == key) ≡ false = ground (arith, same, some_pages, fewer) in
      let d = (register served id).0 in
      (
        d,
        allocate_span-served e nz ∙ ap (λ b. some (d, b)) s.0,
        ap (λ b. find a (assign b id served.span_map)) s.0
            ∙ find-assign a a id served.span_map
            ∙ if-true _ _ own,
        s.1,
        s.2,
        s.3 ∙ size,
        ap (find (key - num_pages)) s.5
            ∙ find-assign (key - num_pages) rest (c.made + 1) left.free_spans
            ∙ if-true _ _ found,
        s.4
            ∙ ap or_null (
                ap (λ n. find n left.free_spans) same
                ∙ left-other asc (key - num_pages) (omega (arith, some_pages, fewer))),
        ap (find key) s.5
            ∙ find-assign key rest (c.made + 1) left.free_spans
            ∙ if-false _ _ apart
            ∙ left-find asc,
      )
