-- ===== src/Algorithm/Sort/Partition.antt =====
-- What `partition` leaves: values at most the pivot, the pivot, values at least the pivot.
use learn_note.Prelude.{
  ℕ, zero, suc, ◌+◌, ◌-◌, ◌≤◌, ◌<◌, ◌≡◌, refl, sym, ap, ◌∙◌, subst, List, arith, if◌then◌else◌, ltb,
  leb, length, Bool-cases, inl, inr, if-true, if-false, ℕ_discrete,
}
use learn_note.Algorithm.Sort.{elem, swap, scan_down, scan_up, meet, partition}
use learn_note.Algorithm.Sort.Swap.{
  Shuffled, Shuffled-refl, Shuffled-trans, swap-Shuffled, elem-swap_left, elem-swap_right,
  elem-swap_ne, length-swap,
}
use learn_note.Algorithm.Sort.Scan.{Down, scan_down-Down, Up, scan_up-Up}

-- Up to `i` stand values that are at most the pivot, which is the first; behind `j` those at least it.
pub record Parting (temp l r : ℕ) (d : List ℕ) (i j : ℕ) : Type 0 where
  pub left_of : l ≤ i
  pub order : i ≤ j
  pub right_of : j ≤ r
  pub room : r < length d
  pub low : (k : ℕ) → l ≤ k → k ≤ i → elem d k ≤ temp
  pub high : (k : ℕ) → j < k → k ≤ r → temp ≤ elem d k
  pub pivot : elem d l ≡ temp

module _ (temp l r : ℕ) (d : List ℕ) (i j : ℕ) (v : Parting temp l r d i j) (h : i < j) where
  abbrev new_j : ℕ
  new_j = scan_down d temp i j

  abbrev new_i : ℕ
  new_i = scan_up d temp i (new_j - i)

  down : Down d temp i j new_j
  down = scan_down-Down d temp i j v.order

  up : Up d temp i (new_j - i) new_i
  up = scan_up-Up d temp i (new_j - i)

  -- The values that were passed and those that were in place.
  low_now : (k : ℕ) → l ≤ k → k < new_i → elem d k ≤ temp
  low_now k p q = elim (Bool-cases (leb k i)) [
    | inl t ↦ v.low k p (ground arith)
    | inr t ↦ up.passed k (ground arith) q
  ]

  high_now : (k : ℕ) → new_j < k → k ≤ r → temp ≤ elem d k
  high_now k p q = elim (Bool-cases (leb k j)) [
    | inl t ↦ down.passed k p (ground arith)
    | inr t ↦ v.high k (ground arith) q
  ]

  -- Where the scans meet, the value there is at most the pivot.
  met_low : new_i ≡ new_j → elem d new_i ≤ temp
  met_low e = elim down.stops [
    | inl f ↦ subst (λ x. elem d x ≤ temp) (sym (e ∙ f)) (v.low i v.left_of (omega arith))
    | inr f ↦ subst (λ x. elem d x ≤ temp) (sym e) (omega (arith, f))
  ]

  moved : new_i < new_j → i < new_i
  moved g = elim up.stops [
    | inl f ↦ omega (arith, f, g, h)
    | inr f ↦ elim (ℕ_discrete i new_i) [
      | yes e ↦
          let at_i = v.low i v.left_of (omega arith) in
          absurd (omega (arith, f, at_i, ap (elem d) e))
      | no n ↦ omega (arith, up.above)
    ]
  ]

  order_now : new_i ≤ new_j
  order_now = omega (arith, up.under, down.above)

  swapped_Parting : new_i < new_j → Parting temp l r (swap d new_i new_j) new_i new_j
  swapped_Parting g =
      let bound = v.room in
      let hi : new_i < length d = omega (arith, down.under, v.right_of, bound) in
      let hj : new_j < length d = omega (arith, down.under, v.right_of, bound) in
      let far = moved g in
      let first = v.left_of in
      record {
        left_of = omega (arith, up.above);
        order = order_now;
        right_of = omega (arith, down.under, v.right_of);
        room = omega (arith, length-swap d new_i new_j hi hj);
        low = λ k p q. elim (ℕ_discrete new_i k) [
          | yes e ↦
              let small : elem d new_j < temp = elim down.stops [
                | inl f ↦ absurd (omega (arith, f))
                | inr f ↦ f
              ] in
              subst (λ x. elem (swap d new_i new_j) x ≤ temp) e
                (omega (arith, elem-swap_left d new_i new_j hi hj))
          | no n ↦ omega (
            arith,
            elem-swap_ne d new_i new_j hi hj {k = k} n (λ e. absurd (omega arith)),
            low_now k p (omega arith),
          )
        ];
        high = λ k p q. omega (
          arith,
          elem-swap_ne d new_i new_j hi hj {k = k} (λ e. absurd (omega arith))
              (λ e. absurd (omega arith)),
          high_now k p q,
        );
        pivot =
            elem-swap_ne d new_i new_j hi hj {k = l} (λ e. absurd (omega arith))
              (λ e. absurd (omega arith))
            ∙ v.pivot;
      }

  met_Parting : new_j ≤ new_i → Parting temp l r d new_i new_j
  met_Parting g = record {
    left_of = omega (arith, up.above, v.left_of);
    order = order_now;
    right_of = omega (arith, down.under, v.right_of);
    room = v.room;
    low = λ k p q. elim (ℕ_discrete k new_i) [
      | yes e ↦ subst (λ x. elem d x ≤ temp) (sym e) (met_low (omega (arith, order_now)))
      | no n ↦ low_now k p (omega arith)
    ];
    high = high_now;
    pivot = v.pivot;
  }

  -- One round keeps the parting and brings the two places closer.
  round :
      let e = if ltb new_i new_j then swap d new_i new_j else d in
      Parting temp l r e new_i new_j × Shuffled l (r + 1) d e × (new_j - new_i < j - i)
  round = elim (Bool-cases (ltb new_i new_j)) [
    | inl t ↦
        let g : new_i < new_j = ground arith in
        let bound = v.room in
        let first = v.left_of in
        subst
          (λ x. Parting temp l r x new_i new_j × Shuffled l (r + 1) d x × (new_j - new_i < j - i))
          (sym (if-true _ _ t))
          (
            swapped_Parting g,
            swap-Shuffled d new_i new_j (omega (arith, up.above))
                (omega (arith, down.under, v.right_of)) (omega (arith, up.above))
                (omega (arith, down.under, v.right_of)) (omega arith),
            omega (arith, moved g, down.under),
          )
    | inr t ↦
        let g : new_j ≤ new_i = ground arith in
        subst
          (λ x. Parting temp l r x new_i new_j × Shuffled l (r + 1) d x × (new_j - new_i < j - i))
          (sym (if-false _ _ t)) (met_Parting g, Shuffled-refl d, omega arith)
  ]

unfoldable Outcome : (temp l r : ℕ) → List ℕ → List ℕ × ℕ → Type 0
Outcome temp l r d (e, m) = Parting temp l r e m m × Shuffled l (r + 1) d e

-- With a round for each place between them, the two places meet.
meet-Parting :
    (fuel temp l r : ℕ) (d : List ℕ) (i j : ℕ)
    → j - i ≤ fuel
    → Parting temp l r d i j
    → let (e, m) = meet fuel d temp i j in Parting temp l r e m m × Shuffled l (r + 1) d e
unfolding meet Outcome
meet-Parting zero temp l r d i j h v =
    let same : j ≡ i = omega (arith, v.order) in
    (subst (Parting temp l r d i) same v, Shuffled-refl d)
meet-Parting (suc fuel) temp l r d i j h v = elim (Bool-cases (ltb i j)) [
  | inr t ↦
      let same : j ≡ i = ground (arith, v.order) in
      subst (Outcome temp l r d) (sym (if-false _ _ t))
        (subst (Parting temp l r d i) same v, Shuffled-refl d)
  | inl t ↦
      let g : i < j = ground arith in
      let (w, s, less) = round temp l r d i j v g in
      let (x, s') = meet-Parting fuel temp l r _ _ _ (omega (arith, less, h)) w in
      subst (Outcome temp l r d) (sym (if-true _ _ t)) (x, Shuffled-trans s s')
]

-- The pivot stands between the values at most it and those at least it.
pub record Parted (l r : ℕ) (d : List ℕ) (m : ℕ) : Type 0 where
  pub left_of : l ≤ m
  pub right_of : m ≤ r
  pub low : (k : ℕ) → l ≤ k → k < m → elem d k ≤ elem d m
  pub high : (k : ℕ) → m < k → k ≤ r → elem d m ≤ elem d k

swap-Parted :
    (temp l r : ℕ) (d : List ℕ) (m : ℕ)
    → Parting temp l r d m m
    → Parted l r (swap d l m) m × Shuffled l (r + 1) d (swap d l m)
swap-Parted temp l r d m v =
    let room = v.room in
    let hl : l < length d = omega (arith, v.left_of, v.right_of) in
    let hm : m < length d = omega (arith, v.right_of) in
    let here : elem (swap d l m) m ≡ temp = elem-swap_right d l m hl hm ∙ v.pivot in
    (
      record {
        left_of = v.left_of;
        right_of = v.right_of;
        low = λ k p q. elim (ℕ_discrete l k) [
          | yes e ↦
              let first : elem (swap d l m) k ≡ elem d m =
                ap (elem (swap d l m)) (sym e) ∙ elem-swap_left d l m hl hm in
              omega (arith, first, here, v.low m v.left_of (omega arith))
          | no n ↦ omega (
            arith,
            elem-swap_ne d l m hl hm {k = k} n (λ e. absurd (omega arith)),
            here,
            v.low k p (omega arith),
          )
        ];
        high = λ k p q. omega (
          arith,
          elem-swap_ne d l m hl hm {k = k} (λ e. absurd (omega (arith, v.left_of)))
              (λ e. absurd (omega arith)),
          here,
          v.high k p q,
        );
      },
      swap-Shuffled d l m (omega arith) (omega (arith, v.left_of, v.right_of)) v.left_of
          (omega (arith, v.right_of)) (omega arith),
    )

pub partition_lem :
    (d : List ℕ) (l r : ℕ)
    → l ≤ r
    → r < length d
    → let (e, m) = partition d l r in Parted l r e m × Shuffled l (r + 1) d e
unfolding partition
partition_lem d l r h k =
    let start : Parting (elem d l) l r d l r = record {
      left_of = omega arith;
      order = h;
      right_of = omega arith;
      room = k;
      low = λ m p q. subst (λ x. elem d x ≤ elem d l) {x = l} (omega arith) (omega arith);
      high = λ m p q. absurd (omega arith);
      pivot = refl;
    } in
    let (v, s) = meet-Parting (r - l) (elem d l) l r d l r (omega arith) start in
    let (w, s') = swap-Parted (elem d l) l r _ _ v in (w, Shuffled-trans s s')
