-- ===== src/Algorithm/Sort/Sorted.antt =====
-- The whole sort.
use learn_note.Prelude.{
  ℕ, zero, suc, ◌+◌, ◌-◌, ◌≤◌, ◌<◌, ◌≡◌, sym, ◌∙◌, subst, List, arith, ltb, leb, length, Bool-cases,
  inl, inr, if-true, if-false, ℕ_discrete, occurs,
}
use learn_note.Algorithm.Sort.{elem, partition, quick_sort, sort}
use learn_note.Algorithm.Sort.Swap.{Shuffled, Shuffled-refl, Shuffled-trans, Shuffled-widen}
use learn_note.Algorithm.Sort.Partition.{Parted, partition_lem}

-- The values from `l` to before `s` stand in order.
unfoldable pub Ordered : (l s : ℕ) → List ℕ → Type 0
Ordered l s d = (i j : ℕ) → l ≤ i → i ≤ j → j < s → elem d i ≤ elem d j

-- Both sides of the pivot have been sorted: the lower side in `e`, then the upper one in `f`.
join-Ordered :
    (l r : ℕ) (d e f : List ℕ) (m : ℕ)
    → Parted l r d m
    → Shuffled l m d e
    → Ordered l m e
    → Shuffled (m + 1) (r + 1) e f
    → Ordered (m + 1) (r + 1) f
    → Ordered l (r + 1) f
unfolding Ordered
join-Ordered l r d e f m v s o s' o' i j p q t =
    let lower : (k : ℕ) → k < m → elem f k ≡ elem e k = (λ k h. s'.outside k (inl (omega arith))) in
    let middle : elem f m ≡ elem d m =
      s'.outside m (inl (omega arith)) ∙ s.outside m (inr (omega arith)) in
    let small : (k : ℕ) → l ≤ k → k < m → elem f k ≤ elem d m = (λ k a b.
      let (k', a', b', g) = s.inside k a b in omega (arith, lower k b, g, v.low k' a' b')) in
    let large : (k : ℕ) → m < k → k ≤ r → elem d m ≤ elem f k = (λ k a b.
      let (k', a', b', g) = s'.inside k (omega arith) (omega arith) in
      omega (arith, g, s.outside k' (inr (omega arith)), v.high k' (omega arith) (omega arith))) in
    let at_most : (k : ℕ) → l ≤ k → k ≤ m → elem f k ≤ elem d m = (λ k a b. elim (ℕ_discrete k m) [
      | yes c ↦ subst (λ x. elem f x ≤ elem d m) (sym c) (omega (arith, middle))
      | no c ↦ small k a (omega arith)
    ]) in
    let at_least : (k : ℕ) → m ≤ k → k ≤ r → elem d m ≤ elem f k = (λ k a b. elim (ℕ_discrete k m) [
      | yes c ↦ subst (λ x. elem d m ≤ elem f x) (sym c) (omega (arith, middle))
      | no c ↦ large k (omega arith) b
    ]) in
    elim (Bool-cases (ltb j m)) [
      | inl a ↦
          omega (arith, lower i (ground arith), lower j (ground arith), o i j p q (ground arith))
      | inr a ↦ elim (Bool-cases (ltb m i)) [
        | inl b ↦ o' i j (ground arith) q t
        | inr b ↦ omega (arith, at_most i p (ground arith), at_least j (ground arith) (omega arith))
      ]
    ]

Ordered-widen : (l s s' : ℕ) (d : List ℕ) → s' ≤ s → Ordered l s d → Ordered l s' d
unfolding Ordered
Ordered-widen l s s' d h o i j p q t = o i j p q (omega arith)

short-Ordered : (l s : ℕ) (d : List ℕ) → s ≤ l + 1 → Ordered l s d
unfolding Ordered
short-Ordered l s d h i j p q t =
    subst (λ x. elem d i ≤ elem d x) {x = i} (omega arith) (omega arith)

quick_sort_lem :
    (fuel : ℕ) (d : List ℕ) (l s : ℕ)
    → s - l ≤ fuel
    → s ≤ length d
    → Shuffled l s d (quick_sort fuel d l s) × Ordered l s (quick_sort fuel d l s)
unfolding quick_sort
quick_sort_lem zero d l s h k = (Shuffled-refl d, short-Ordered l s d (omega arith))
quick_sort_lem (suc fuel) d l s h k = elim (Bool-cases (leb s (l + 1))) [
  | inl t ↦
      subst (λ x. Shuffled l s d x × Ordered l s x) (sym (if-true _ _ t))
        (Shuffled-refl d, short-Ordered l s d (ground arith))
  | inr t ↦
      let long : l + 1 < s = ground arith in
      let (v, a) = partition_lem d l (s - 1) (omega arith) (omega arith) in
      let e = (partition d l (s - 1)).0 in
      let m = (partition d l (s - 1)).1 in
      let lower = quick_sort fuel e l m in
      let both = quick_sort fuel lower (m + 1) s in
      let (b, o) =
        quick_sort_lem fuel e l m (omega (arith, v.right_of)) (omega (arith, a.size, v.right_of)) in
      let (c, o') =
        quick_sort_lem fuel lower (m + 1) s (omega (arith, v.left_of))
          (omega (arith, a.size, b.size)) in
      subst (λ x. Shuffled l s d x × Ordered l s x) (sym (if-false _ _ t))
        (
          Shuffled-trans (Shuffled-widen (omega arith) (omega arith) a) (
              Shuffled-trans (Shuffled-widen (omega arith) (omega (arith, v.right_of)) b)
                (Shuffled-widen (omega (arith, v.left_of)) (omega arith) c)),
          Ordered-widen l (s - 1 + 1) s both (omega arith) (
              join-Ordered l (s - 1) e lower both m v b o
                (Shuffled-widen (omega arith) (omega arith) c)
                (Ordered-widen (m + 1) s (s - 1 + 1) both (omega arith) o')),
        )
]

-- The array that is sorted holds each value as often as before, and in order.
pub sort-Ordered :
    (values : List ℕ)
    → (length (sort values) ≡ length values)
      × ((n : ℕ) → occurs n (sort values) ≡ occurs n values)
      × ((i j : ℕ) → i ≤ j → j < length values → elem (sort values) i ≤ elem (sort values) j)
unfolding sort Ordered
sort-Ordered values =
    let (s, o) =
      quick_sort_lem (length values) values 0 (length values) (omega arith) (omega arith) in
    (s.size, s.counts, λ i j p q. o i j (omega arith) p q)
