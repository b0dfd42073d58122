-- ===== src/Algorithm/Courses/Order.antt =====
-- Orders of the nodes of a graph, and ways round it.
use learn_note.Prelude.{
  ℕ, ◌+◌, ◌≤◌, ◌<◌, ◌==◌, ◌≡◌, inl, inr, refl, sym, ap, subst, Bool, Bool-cases, true, false, ◌||◌,
  List, [], ◌∷◌, ◌++◌, arith, if◌then◌else◌, length,
}

abbrev pub listed : ℕ → List ℕ → Bool
listed b [] = false
listed b (x ∷ xs) = (x == b) || listed b xs

pub listed-append : (b : ℕ) (xs ys : List ℕ) → listed b (xs ++ ys) ≡ (listed b xs || listed b ys)
listed-append b [] ys = refl
listed-append b (x ∷ xs) ys = ground (arith, listed-append b xs ys)

-- Each node stands once, before all that it leads to.
abbrev pub Topological : (ℕ → List ℕ) → List ℕ → Type 0
Topological g [] = Unit {0}
Topological g (b ∷ xs) =
    ((j : ℕ) → listed j (g b) ≡ true → listed j xs ≡ true)
    × (listed b xs ≡ false)
    × Topological g xs

-- A way of one edge or more.
pub data Way (g : ℕ → List ℕ) (a : ℕ) : ℕ → Type 0 where
  edge : {b : ℕ} → listed b (g a) ≡ true → Way g a b
  further : {b c : ℕ} → Way g a b → listed c (g b) ≡ true → Way g a c

abbrev pub Cycle : (ℕ → List ℕ) → Type 0
Cycle g = (a : ℕ) × Way g a a

-- How many nodes stand from `a` on.
abbrev rank : ℕ → List ℕ → ℕ
rank a [] = 0
rank a (x ∷ xs) = if x == a then length xs + 1 else rank a xs

rank-length : (a : ℕ) (xs : List ℕ) → rank a xs ≤ length xs
rank-length a [] = omega arith
rank-length a (x ∷ xs) = ground (arith, rank-length a xs)

edge-rank :
    (g : ℕ → List ℕ) (xs : List ℕ) (a b : ℕ)
    → Topological g xs
    → listed a xs ≡ true
    → listed b (g a) ≡ true
    → (listed b xs ≡ true) × (rank b xs < rank a xs)
edge-rank g [] a b t h e = absurd (cc h)
edge-rank g (x ∷ xs) a b (leads, once, t) h e = elim (Bool-cases (x == a)) [
  | inl same ↦
      let is : x ≡ a = ground (arith, same) in
      let later : listed b xs ≡ true = leads b (subst (λ i. listed b (g i) ≡ true) (sym is) e) in
      (
        ground (arith, later),
        ground (arith, same, later, once, rank-length b xs, ap (λ i. listed i xs)),
      )
  | inr differs ↦
      let (later, less) = edge-rank g xs a b t (ground (arith, h, differs)) e in
      (ground (arith, later), ground (arith, differs, less, later, once))
]

Way-rank :
    (g : ℕ → List ℕ) (xs : List ℕ) (a b : ℕ)
    → Topological g xs
    → listed a xs ≡ true
    → Way g a b
    → (listed b xs ≡ true) × (rank b xs < rank a xs)
Way-rank g xs a b t h (edge e) = edge-rank g xs a b t h e
Way-rank g xs a b t h (further {b = m} way e) =
    let (seen, less) = Way-rank g xs a m t h way in
    let (last, least) = edge-rank g xs m b t seen e in (last, omega (arith, less, least))

-- No way leads back within an order.
pub order-acyclic :
    (g : ℕ → List ℕ) (xs : List ℕ) (a : ℕ) → Topological g xs → listed a xs ≡ true → Way g a a → ⊥
order-acyclic g xs a t h way = omega (arith, (Way-rank g xs a a t h way).1)
