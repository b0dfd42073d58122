-- ===== src/Algorithm/Sort/Swap.antt =====
-- What rearranges a range of an array: swaps, and one rearrangement after another.
use learn_note.Prelude.{
  ℕ, zero, suc, ◌+◌, ◌≤◌, ◌<◌, ◌==◌, ◌≡◌, ◌≢◌, refl, sym, ap, ◌∙◌, List, [], ◌∷◌, arith,
  if◌then◌else◌, ltb, leb, set, length, length-set, get_or-set_self, get_or-set_ne, occurs,
  ℕ_discrete, Bool-cases, ◌||◌, ◌⊎◌, inl, inr,
}
use learn_note.Algorithm.Sort.{elem, swap}

occurs-set :
    (n : ℕ) (d : List ℕ) (i v : ℕ)
    → i < length d
    → occurs n (set d i v) + (if elem d i == n then 1 else 0)
      ≡ occurs n d + (if v == n then 1 else 0)
occurs-set n [] i v h = absurd (omega arith)
occurs-set n (x ∷ d) zero v h = omega arith
occurs-set n (x ∷ d) (suc i) v h = omega (arith, occurs-set n d i v (omega arith))

module _ (d : List ℕ) (i j : ℕ) (hi : i < length d) (hj : j < length d) where
  pub length-swap : length (swap d i j) ≡ length d
  unfolding swap
  length-swap = length-set (set d i (elem d j)) j (elem d i) ∙ length-set d i (elem d j)

  pub elem-swap_right : elem (swap d i j) j ≡ elem d i
  unfolding swap
  elem-swap_right =
      get_or-set_self (set d i (elem d j)) j (elem d i) 0 (omega (arith, length-set d i (elem d j)))

  pub elem-swap_ne : {k : ℕ} → i ≢ k → j ≢ k → elem (swap d i j) k ≡ elem d k
  unfolding swap
  elem-swap_ne p q =
      get_or-set_ne (set d i (elem d j)) (elem d i) 0 q ∙ get_or-set_ne d (elem d j) 0 p

  pub elem-swap_left : elem (swap d i j) i ≡ elem d j
  unfolding swap
  elem-swap_left = elim (ℕ_discrete i j) [
    | yes e ↦ ap (elem (swap d i j)) e ∙ elem-swap_right ∙ ap (elem d) e
    | no n ↦
        get_or-set_ne (set d i (elem d j)) (elem d i) 0 (λ e. n (sym e))
        ∙ get_or-set_self d i (elem d j) 0 hi
  ]

  pub occurs-swap : (n : ℕ) → occurs n (swap d i j) ≡ occurs n d
  unfolding swap
  occurs-swap n =
      let once = occurs-set n d i (elem d j) hi in
      let twice =
        occurs-set n (set d i (elem d j)) j (elem d i) (omega (arith, length-set d i (elem d j))) in
      let kept : elem (set d i (elem d j)) j ≡ elem d j = elim (ℕ_discrete i j) [
        | yes e ↦ ap (elem (set d i (elem d j))) (sym e) ∙ get_or-set_self d i (elem d j) 0 hi
        | no ne ↦ get_or-set_ne d (elem d j) 0 ne
      ] in
      omega (arith, once, twice, ap {B = ℕ} (λ x. if x == n then 1 else 0) kept)

-- The values of the range from `l` to before `s` may have changed places, and nothing else has.
pub record Shuffled (l s : ℕ) (d e : List ℕ) : Type 0 where
  pub size : length e ≡ length d
  pub counts : (n : ℕ) → occurs n e ≡ occurs n d
  pub outside : (k : ℕ) → (k < l) ⊎ (s ≤ k) → elem e k ≡ elem d k
  pub inside : (k : ℕ) → l ≤ k → k < s → (m : ℕ) × (l ≤ m) × (m < s) × (elem e k ≡ elem d m)

module _ {l s : ℕ} where
  pub Shuffled-refl : (d : List ℕ) → Shuffled l s d d
  Shuffled-refl d = record {
    size = refl;
    counts = λ n. refl;
    outside = λ k h. refl;
    inside = λ k p q. (k, p, q, refl);
  }

  pub Shuffled-trans : {d e f : List ℕ} → Shuffled l s d e → Shuffled l s e f → Shuffled l s d f
  Shuffled-trans v w = record {
    size = w.size ∙ v.size;
    counts = λ n. w.counts n ∙ v.counts n;
    outside = λ k h. w.outside k h ∙ v.outside k h;
    inside = λ k p q.
        let (m, p', q', g) = w.inside k p q in
        let (o, p'', q'', g') = v.inside m p' q' in (o, p'', q'', g ∙ g');
  }

  pub Shuffled-widen :
      {l' s' : ℕ} {d e : List ℕ} → l ≤ l' → s' ≤ s → Shuffled l' s' d e → Shuffled l s d e
  Shuffled-widen {l'} {s'} {d} {e} h k v = record {
    size = v.size;
    counts = v.counts;
    outside = λ m o. elim o [
      | inl p ↦ v.outside m (inl (omega arith))
      | inr p ↦ v.outside m (inr (omega arith))
    ];
    inside = λ m p q. elim (Bool-cases (ltb m l' || leb s' m)) [
      | inl t ↦ (m, p, q, v.outside m (ground arith))
      | inr t ↦
          let (o, p', q', g) = v.inside m (ground arith) (ground arith) in
          (o, omega arith, omega arith, g)
    ];
  }

  pub swap-Shuffled :
      (d : List ℕ) (i j : ℕ)
      → l ≤ i
      → i < s
      → l ≤ j
      → j < s
      → s ≤ length d
      → Shuffled l s d (swap d i j)
  swap-Shuffled d i j a b c e h = record {
    size = length-swap d i j (omega arith) (omega arith);
    counts = occurs-swap d i j (omega arith) (omega arith);
    outside = λ k o.
        elem-swap_ne d i j (omega arith) (omega arith)
          (λ z. elim o [ inl p ↦ absurd (omega arith) | inr p ↦ absurd (omega arith) ])
          (λ z. elim o [ inl p ↦ absurd (omega arith) | inr p ↦ absurd (omega arith) ]);
    inside = λ k p q. elim (ℕ_discrete i k) [
      | yes z ↦ (
        j,
        c,
        e,
        ap (elem (swap d i j)) (sym z) ∙ elem-swap_left d i j (omega arith) (omega arith),
      )
      | no nz ↦ elim (ℕ_discrete j k) [
        | yes y ↦ (
          i,
          a,
          b,
          ap (elem (swap d i j)) (sym y) ∙ elem-swap_right d i j (omega arith) (omega arith),
        )
        | no ny ↦ (k, p, q, elem-swap_ne d i j (omega arith) (omega arith) nz ny)
      ]
    ];
  }
