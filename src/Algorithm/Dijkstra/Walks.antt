-- ===== src/Algorithm/Dijkstra/Walks.antt =====
-- Walks through the matrix, and what the visit of a nearest node keeps true of the distances.
use learn_note.Prelude.{
  ℕ, ◌+◌, ◌≤◌, ◌<◌, ◌≡◌, ◌≢◌, ◌⊎◌, inl, inr, sym, ap, ◌∙◌, subst, Bool-cases, true, false, arith,
}
use learn_note.Algorithm.Dijkstra.{int_max, Search}
use learn_note.Algorithm.Dijkstra.Relax.{Visited}

-- A walk and its length; an entry of INT_MAX is no edge.
pub data Walk (g : ℕ → ℕ → ℕ) (n src : ℕ) : ℕ → ℕ → Type 0 where
  stay : Walk g n src src 0
  go :
      {u v length : ℕ}
      → Walk g n src u length
      → u < n
      → v < n
      → g u v ≢ int_max
      → Walk g n src v (length + g u v)

-- The visit of `u`, seen from a node `b`.
pub record Moved (g : ℕ → ℕ → ℕ) (u b : ℕ) (s t : Search) : Type 0 where
  pub same : t.visited b ≡ true → t.dist b ≡ s.dist b
  pub lower : t.dist b ≤ s.dist b
  pub relaxed : t.visited b ≡ false → g u b ≢ int_max → t.dist b ≤ s.dist u + g u b
  pub least : t.visited b ≡ false → s.dist u ≤ t.dist b
  pub either : (t.dist b ≡ s.dist b) ⊎ ((g u b ≢ int_max) × (t.dist b ≡ s.dist u + g u b))
  pub marked : t.visited b ≡ true → (u ≡ b) ⊎ (s.visited b ≡ true)
  pub fresh : t.visited b ≡ false → s.visited b ≡ false

pub visit-Moved :
    (g : ℕ → ℕ → ℕ) (n u b : ℕ) (s t : Search)
    → Visited g n u s t
    → ((b : ℕ) → b < n → s.visited b ≡ false → s.dist u ≤ s.dist b)
    → b < n
    → Moved g u b s t
visit-Moved g n u b s t v nearest h =
    let seen = v.visited b in
    let now = v.dist b h in
    record {
      same = λ m. ground (arith, seen, now, m);
      lower = ground (arith, seen, now);
      relaxed = λ m e. ground (arith, seen, now, m, e);
      least = λ m. ground (arith, seen, now, m, nearest b h);
      either = ground (arith, seen, now);
      marked = λ m. ground (arith, seen, m);
      fresh = λ m. ground (arith, seen, m);
    }

-- What holds before each turn of the outer loop; `bound` is on the distances found so far.
pub record Inv (g : ℕ → ℕ → ℕ) (n src bound : ℕ) (s : Search) : Type 0 where
  pub settled :
      (a b : ℕ) → a < n → b < n → s.visited a ≡ true → s.visited b ≡ false → s.dist a ≤ s.dist b
  pub relaxed :
      (a b : ℕ) → a < n → b < n → s.visited a ≡ true → g a b ≢ int_max → s.dist b ≤ s.dist a + g a b
  pub real : (b : ℕ) → b < n → (s.dist b ≡ int_max) ⊎ Walk g n src b (s.dist b)
  pub bounded : (b : ℕ) → b < n → (s.dist b ≡ int_max) ⊎ (s.dist b ≤ bound)
  pub zero : s.dist src ≡ 0
  pub clear : s.overflow ≡ false

-- Each entry is no edge or a weight of at most `w`.
abbrev pub Small : (ℕ → ℕ → ℕ) → (n w : ℕ) → Type 0
Small g n w = (a b : ℕ) → a < n → b < n → (g a b ≡ int_max) ⊎ (g a b ≤ w)

module _ (g : ℕ → ℕ → ℕ) (n src bound w u : ℕ) (s t : Search) (small : Small g n w)
    (i : Inv g n src bound s) (h : u < n) (fresh : s.visited u ≡ false) (near : s.dist u < int_max)
    (fits : bound + w ≤ int_max) (moved : (b : ℕ) → b < n → Moved g u b s t) where
  settled_after :
      (a b : ℕ) → a < n → b < n → t.visited a ≡ true → t.visited b ≡ false → t.dist a ≤ t.dist b
  settled_after a b ha hb va vb =
      let ma = moved a ha in
      let mb = moved b hb in
      elim (ma.marked va) [
        | inl e ↦ omega (arith, ma.same va, ap s.dist e, mb.least vb)
        | inr old ↦ omega (arith, ma.same va, i.settled a u ha h old fresh, mb.least vb)
      ]

  relaxed_from_u : (b : ℕ) → b < n → g u b ≢ int_max → t.dist b ≤ s.dist u + g u b
  relaxed_from_u b hb edge =
      let mb = moved b hb in
      elim (Bool-cases (t.visited b)) [
        | inr vb ↦ mb.relaxed vb edge
        | inl vb ↦ elim (mb.marked vb) [
          | inl e ↦ omega (arith, mb.same vb, ap s.dist e)
          | inr old ↦ omega (arith, mb.same vb, i.settled b u hb h old fresh)
        ]
      ]

  relaxed_after :
      (a b : ℕ) → a < n → b < n → t.visited a ≡ true → g a b ≢ int_max → t.dist b ≤ t.dist a + g a b
  relaxed_after a b ha hb va edge =
      let ma = moved a ha in
      elim (ma.marked va) [
        | inl e ↦
            subst (λ c. t.dist b ≤ c + g a b) (ap s.dist e ∙ sym (ma.same va))
              (subst (λ c. t.dist b ≤ s.dist u + g c b) e
                (relaxed_from_u b hb (subst (λ c. g c b ≢ int_max) (sym e) edge)))
        | inr old ↦ omega (arith, ma.same va, (moved b hb).lower, i.relaxed a b ha hb old edge)
      ]

  real_after : (b : ℕ) → b < n → (t.dist b ≡ int_max) ⊎ Walk g n src b (t.dist b)
  real_after b hb = elim ((moved b hb).either) [
    | inl same ↦ elim (i.real b hb) [
      | inl far ↦ inl (same ∙ far)
      | inr walk ↦ inr (subst (Walk g n src b) (sym same) walk)
    ]
    | inr (edge, through) ↦ elim (i.real u h) [
      | inl far ↦ absurd (omega (arith, near, far))
      | inr walk ↦ inr (subst (Walk g n src b) (sym through) (go walk h hb edge))
    ]
  ]

  through_u : (b : ℕ) → b < n → g u b ≢ int_max → s.dist u + g u b ≤ bound + w
  through_u b hb edge = elim (i.bounded u h) [
    | inl far ↦ absurd (omega (arith, near, far))
    | inr some_far ↦ elim (small u b h hb) [
      | inl no_edge ↦ absurd (edge no_edge)
      | inr light ↦ omega (arith, some_far, light)
    ]
  ]

  bounded_after : (b : ℕ) → b < n → (t.dist b ≡ int_max) ⊎ (t.dist b ≤ bound + w)
  bounded_after b hb = elim ((moved b hb).either) [
    | inl same ↦ elim (i.bounded b hb) [
      | inl far ↦ inl (same ∙ far)
      | inr known ↦ inr (omega (arith, same, known))
    ]
    | inr (edge, through) ↦ inr (omega (arith, through, through_u b hb edge))
  ]

-- The visit of a nearest node keeps the invariant.
pub visit-Inv :
    (g : ℕ → ℕ → ℕ) (n src bound w u : ℕ) (s t : Search)
    → Small g n w
    → src < n
    → bound + w ≤ int_max
    → u < n
    → s.visited u ≡ false
    → s.dist u < int_max
    → ((b : ℕ) → b < n → s.visited b ≡ false → s.dist u ≤ s.dist b)
    → Visited g n u s t
    → Inv g n src bound s
    → Inv g n src (bound + w) t
visit-Inv g n src bound w u s t small inside fits h fresh near nearest v i =
    let moved : (b : ℕ) → b < n → Moved g u b s t = λ b hb. visit-Moved g n u b s t v nearest hb in
    record {
      settled = settled_after g n src bound w u s t small i h fresh near fits moved;
      relaxed = relaxed_after g n src bound w u s t small i h fresh near fits moved;
      real = real_after g n src bound w u s t small i h fresh near fits moved;
      bounded = bounded_after g n src bound w u s t small i h fresh near fits moved;
      zero = omega (arith, i.zero, (moved src inside).lower);
      clear = v.overflow i.clear (λ b hb edge. omega (
        arith,
        fits,
        through_u g n src bound w u s t small i h fresh near fits moved b hb
            (λ e. absurd (ground (arith, edge, e))),
      ));
    }
