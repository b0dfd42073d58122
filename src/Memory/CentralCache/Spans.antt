-- ===== src/Memory/CentralCache/Spans.antt =====
-- How a new span is cut into blocks.
use learn_note.Prelude.{
  ℕ, zero, suc, ◌+◌, ◌-◌, ◌*◌, ◌/◌, ◌<◌, ◌==◌, ◌≡◌, refl, sym, subst, ap, ◌∙◌, true, false, List,
  [], ◌∷◌, arith, ltb, leb, if-true, if-false,
}
use learn_note.Memory.SizeClass.{alignment, free_list_size}
use learn_note.Memory.CentralCache.{
  CentralCache, store, link, take_head, carve, fetch_range, span_pages, page_size,
}
use learn_note.Memory.Chain.{Chain, Chain-store, NotIn}

-- `k` blocks in a row.
abbrev pub blocks : (start size k : ℕ) → List ℕ
blocks start size zero = []
blocks start size (suc k) = start ∷ blocks (start + size) size k

link-step :
    (w : ℕ → ℕ) (start size k j : ℕ)
    → link w start size (suc k) (suc j)
      ≡ link (store w (start + j * size) (start + suc j * size)) start size k (suc (suc j))
unfolding link
link-step w start size k j =
    ap (λ n. link (store w (start + n * size) (start + suc j * size)) start size k (suc j + 1))
      (omega arith)
    ∙ ap (link (store w (start + j * size) (start + suc j * size)) start size k) (omega arith)

-- The loop touches no address below the block that it starts at.
link-below :
    (w : ℕ → ℕ) (start size k j b : ℕ) → b < start + j * size → link w start size k (suc j) b ≡ w b
unfolding link
link-below w start size zero j b h = refl
link-below w start size (suc k) j b h =
    let here : store w (start + j * size) (start + suc j * size) b ≡ w b = ground arith in
    ap (λ f. f b) (link-step w start size k j)
    ∙ link-below (store w (start + j * size) (start + suc j * size)) start size k (suc j) b
        (omega arith)
    ∙ here

ends : (j k size : ℕ) → (j + suc k) * size ≡ j * size + k * size + size
ends j k size = omega arith

link-Chain :
    (w : ℕ → ℕ) (start size k j : ℕ)
    → 0 < start
    → 0 < size
    → Chain
        (store (link w start size k (suc j)) (start + (j + k) * size) 0)
        (start + j * size)
        (blocks (start + j * size) size (suc k))
unfolding link
link-Chain w start size zero j p q =
    let last : store w (start + (j + 0) * size) 0 (start + j * size) ≡ 0 = ground arith in
    (refl, omega arith, last)
link-Chain w start size (suc k) j p q =
    let a = start + j * size in
    let linked = store w a (start + suc j * size) in
    let rest = link linked start size k (suc (suc j)) in
    let end = start + (j + suc k) * size in
    let e : start + suc j * size ≡ a + size = omega arith in
    let f : start + (suc j + k) * size ≡ end = ap (λ n. start + n * size) (omega arith) in
    let before : a < end = omega (arith, ends j k size) in
    let next : store rest end 0 a ≡ start + suc j * size =
      if-false {b = end == a} _ _ (ground arith)
      ∙ link-below linked start size k (suc j) a (omega arith)
      ∙ if-true {b = a == a} _ _ (ground arith) in
    let ih = link-Chain linked start size k (suc j) p q in
    subst (λ (l : ℕ → ℕ). Chain (store l end 0) a (blocks a size (suc (suc k))))
      (sym (link-step w start size k j))
      (
        refl,
        omega arith,
        subst (λ v. Chain (store rest end 0) v (blocks (a + size) size (suc k))) (sym next)
            (subst (λ v. Chain (store rest end 0) (start + suc j * size) (blocks v size (suc k))) e
              (subst
                (λ v.
                  Chain (store rest v 0) (start + suc j * size)
                    (blocks (start + suc j * size) size (suc k)))
                f ih)),
      )

blocks-NotIn : (b start size k : ℕ) → b < start → NotIn b (blocks start size k)
blocks-NotIn b start size zero h = tt
blocks-NotIn b start size (suc k) h =
    (omega arith, blocks-NotIn b (start + size) size k (omega arith))

-- The memory after the loop and the last store.
abbrev linked : (ℕ → ℕ) → (span size n : ℕ) → ℕ → ℕ
linked w span size n = store (link w span size (n - 1) 1) (span + (n - 1) * size) 0

linked-Chain :
    (w : ℕ → ℕ) (span size n : ℕ)
    → 0 < span
    → 0 < size
    → Chain (linked w span size n) span (span ∷ blocks (span + size) size (n - 1))
linked-Chain w span size n p q =
    subst (λ a. Chain (linked w span size n) a (blocks a size (suc (n - 1)))) (omega arith)
      (subst
        (λ m.
          Chain (store (link w span size (n - 1) 1) (span + m * size) 0) (span + 0 * size)
            (blocks (span + 0 * size) size (suc (n - 1))))
        (omega arith) (link-Chain w span size (n - 1) 0 p q))

fetch_range-carved :
    (c : CentralCache) (index span : ℕ)
    → let size = (index + 1) * alignment in
      let n = span_pages * page_size / size in
      index < free_list_size
      → c.central_free_list index ≡ 0
      → 0 < span
      → 1 < n
      → fetch_range c index span
        ≡ take_head (record c { word = linked c.word span size n }) index span
unfolding fetch_range carve
fetch_range-carved c index span h e p many =
    let small : leb free_list_size index ≡ false = ground arith in
    let none : (c.central_free_list index == 0) ≡ true = ground arith in
    let given : (span == 0) ≡ false = ground arith in
    let more : ltb 1 (span_pages * page_size / ((index + 1) * alignment)) ≡ true = ground arith in
    if-false _ _ small ∙ if-true _ _ none ∙ if-false _ _ given ∙ if-true _ _ more

-- Where the list of an index is empty and the page cache gives a span that holds two blocks or more, the
-- first block is handed out with nothing behind it, and the list becomes the chain of all the others, in
-- a row up to the end of the span.
pub fetch_range_lem :
    (c : CentralCache) (index span : ℕ)
    → let size = (index + 1) * alignment in
      let n = span_pages * page_size / size in
      index < free_list_size
      → c.central_free_list index ≡ 0
      → 0 < span
      → 1 < n
      → let (d, res) = fetch_range c index span in
        (res ≡ span)
        × (d.word span ≡ 0)
        × Chain d.word (d.central_free_list index) (blocks (span + size) size (n - 1))
unfolding take_head
fetch_range_lem c index span h e p many =
    let size = (index + 1) * alignment in
    let n = span_pages * page_size / size in
    let w = linked c.word span size n in
    let v = linked-Chain c.word span size n p (omega arith) in
    let cleared : store w span 0 span ≡ 0 = if-true {b = span == span} _ _ (ground arith) in
    let listed : store c.central_free_list index (w span) index ≡ w span =
      if-true {b = index == index} _ _ (ground arith) in
    subst
      (λ (r : CentralCache × ℕ).
        (r.1 ≡ span)
        × (r.0.word span ≡ 0)
        × Chain r.0.word (r.0.central_free_list index) (blocks (span + size) size (n - 1)))
      (sym (fetch_range-carved c index span h e p many))
      (
        refl,
        cleared,
        subst (λ a. Chain (store w span 0) a (blocks (span + size) size (n - 1))) (sym listed)
            (Chain-store w span 0 (w span) (blocks (span + size) size (n - 1))
              (blocks-NotIn span (span + size) size (n - 1) (omega arith)) v.2),
      )
