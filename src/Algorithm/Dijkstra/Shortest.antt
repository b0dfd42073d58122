-- ===== src/Algorithm/Dijkstra/Shortest.antt =====
-- The distances that `dijkstra` ends with.
use native.Mathlib.Nat.{suc-mul, add-mul, two-mul}
use learn_note.Prelude.{
  ℕ, zero, suc, ◌+◌, ◌*◌, ◌≤◌, ◌<◌, ◌==◌, ◌≡◌, ◌≢◌, ◌⊎◌, inl, inr, refl, subst, Bool-cases, false,
  Option, none, some, arith, left, left-all, left-none, left-visit,
}
use learn_note.Algorithm.Dijkstra.{int_max, Search, start, nearest, visit, turns, dijkstra}
use learn_note.Algorithm.Dijkstra.Scan.{Nearest, nowhere, found, nearest-Nearest}
use learn_note.Algorithm.Dijkstra.Relax.{visit-Visited}
use learn_note.Algorithm.Dijkstra.Walks.{Walk, stay, go, Inv, Small, visit-Inv}

-- How the outer loop ends, by its end or by its return.
record Ended (g : ℕ → ℕ → ℕ) (n src most : ℕ) (s : Search) : Type 0 where
  bound : ℕ
  within : bound ≤ most
  inv : Inv g n src bound s
  relaxed : (a b : ℕ) → a < n → b < n → g a b ≢ int_max → s.dist b ≤ s.dist a + g a b

nowhere-Ended :
    (g : ℕ → ℕ → ℕ) (n src most bound : ℕ) (s : Search)
    → most ≤ int_max
    → bound ≤ most
    → Inv g n src bound s
    → ((b : ℕ) → b < n → s.visited b ≡ false → int_max ≤ s.dist b)
    → Ended g n src most s
nowhere-Ended g n src most bound s small within i far = record {
  bound = bound;
  within = within;
  inv = i;
  relaxed = λ a b ha hb edge. elim (Bool-cases (s.visited a)) [
    | inl old ↦ i.relaxed a b ha hb old edge
    | inr fresh ↦ elim (i.bounded b hb) [
      | inl out ↦ omega (arith, out, far a ha fresh)
      | inr known ↦ omega (arith, known, far a ha fresh, within, small)
    ]
  ];
}

turns-Ended :
    (g : ℕ → ℕ → ℕ) (n src w most count bound : ℕ) (s : Search)
    → Small g n w
    → src < n
    → most ≤ int_max
    → bound + count * w ≤ most
    → left s.visited n ≤ count
    → Inv g n src bound s
    → Ended g n src most (turns g n count s)
unfolding turns
turns-Ended g n src w most zero bound s small inside fits within few i = record {
  bound = bound;
  within = omega (arith, within);
  inv = i;
  relaxed =
      λ a b ha hb edge. i.relaxed a b ha hb (left-none s.visited n a (omega (arith, few)) ha) edge;
}
turns-Ended g n src w most (suc count) bound s small inside fits within few i =
    next (nearest s n 0 int_max none) (nearest-Nearest s n) (λ u fewer after.
      turns-Ended g n src w most count (bound + w) (visit g n u s) small inside fits room fewer
        after)
  where
    room : bound + w + count * w ≤ most
    room = omega (arith, within, suc-mul count w)

    next :
        (o : Option ℕ)
        → Nearest s n o
        → ((u : ℕ)
            → left (visit g n u s).visited n ≤ count
            → Inv g n src (bound + w) (visit g n u s)
            → Ended g n src most (turns g n count (visit g n u s)))
        → Ended g n src most (elim o [ none ↦ s | some u ↦ turns g n count (visit g n u s) ])
    next none (nowhere far) rest =
        nowhere-Ended g n src most bound s fits (omega (arith, room)) i far
    next (some u) (found _ h fresh near least) rest =
        let v = visit-Visited g n u s in
        rest u
          (omega (arith, few, left-visit s.visited (visit g n u s).visited u n v.visited fresh h))
          (visit-Inv g n src bound w u s (visit g n u s) small inside (omega (arith, room, fits)) h
            fresh near least v i)

start-Inv :
    (g : ℕ → ℕ → ℕ) (n src w : ℕ)
    → Small g n w
    → src < n
    → g src src ≡ 0
    → Inv g n src w (start g src)
unfolding start
start-Inv g n src w small inside own = record {
  settled = λ a b ha hb va vb. absurd (cc va);
  relaxed = λ a b ha hb va edge. absurd (cc va);
  real = λ b hb. first b hb;
  bounded = λ b hb. small src b inside hb;
  zero = own;
  clear = refl;
}
  where
    first : (b : ℕ) → b < n → (g src b ≡ int_max) ⊎ Walk g n src b (g src b)
    first b hb = elim (Bool-cases (g src b == int_max)) [
      | inl e ↦ inl (ground (arith, e))
      | inr ne ↦ inr (
          subst (Walk g n src b) (omega arith)
            (go stay inside hb (λ e. absurd (ground (arith, ne, e)))))
    ]

-- No sum leaves `int`; each distance is that of a walk, or INT_MAX where there is none; and no walk
-- is shorter.
pub record Shortest (g : ℕ → ℕ → ℕ) (n src : ℕ) (s : Search) : Type 0 where
  pub clear : s.overflow ≡ false
  pub real : (b : ℕ) → b < n → (s.dist b ≡ int_max) ⊎ Walk g n src b (s.dist b)
  pub least : (b length : ℕ) → Walk g n src b length → s.dist b ≤ length
  pub near : (b length : ℕ) → Walk g n src b length → s.dist b ≢ int_max

module _ (g : ℕ → ℕ → ℕ) (n src w : ℕ) (s : Search) (small : Small g n w) (inside : src < n) where
  least_walk :
      (most b length : ℕ) → Ended g n src most s → Walk g n src b length → s.dist b ≤ length
  least_walk most b length e stay = omega (arith, e.inv.zero)
  least_walk most b length e (go walk ha hb edge) =
      omega (arith, least_walk most _ _ e walk, e.relaxed _ b ha hb edge)

  near_walk :
      (most b length : ℕ)
      → most + w < int_max
      → Ended g n src most s
      → Walk g n src b length
      → s.dist b ≢ int_max
  near_walk most b length fits e stay = λ far. absurd (omega (arith, far, e.inv.zero))
  near_walk most b length fits e (go {u = u} walk ha hb edge) = elim (e.inv.bounded u ha) [
    | inl far ↦ absurd (near_walk most u _ fits e walk far)
    | inr known ↦ elim (small u b ha hb) [
      | inl no_edge ↦ absurd (edge no_edge)
      | inr light ↦
          λ far. absurd (omega (arith, far, known, light, fits, e.within, e.relaxed u b ha hb edge))
    ]
  ]

-- Where the weights are at most `w`, the source is at distance 0 from itself and `n + 2` edges stay
-- below INT_MAX, `dijkstra` overflows no sum, and gives each node the length of a shortest walk from
-- the source, and INT_MAX exactly where no walk leads.
pub dijkstra-Shortest :
    (g : ℕ → ℕ → ℕ) (n src w : ℕ)
    → src < n
    → g src src ≡ 0
    → Small g n w
    → (n + 2) * w < int_max
    → Shortest g n src (dijkstra g n src)
unfolding dijkstra
dijkstra-Shortest g n src w inside own small fits =
    let most = w + n * w in
    let room : most + w < int_max = omega (arith, fits, add-mul n 2 w, two-mul w) in
    let e =
      turns-Ended g n src w most n w (start g src) small inside (omega (arith, room)) (omega arith)
        (omega (arith, left-all n)) (start-Inv g n src w small inside own) in
    record {
      clear = e.inv.clear;
      real = e.inv.real;
      least = λ b length walk. least_walk g n src w _ small inside most b length e walk;
      near = λ b length walk. near_walk g n src w _ small inside most b length room e walk;
    }
