-- ===== src/Algorithm/Courses/Marked.antt =====
-- What the marks mean while no cycle is found.
use learn_note.Prelude.{
  ℕ, ◌<◌, ◌==◌, ◌≡◌, ◌⊎◌, inl, inr, sym, ap, subst, Bool-cases, true, false, ◌||◌, List, [], ◌∷◌,
  arith,
}
use mathlib.Core.List.{reverse, reverse-append}
use learn_note.Algorithm.Courses.{Marks, enter, leave}
use learn_note.Algorithm.Courses.Order.{listed, Topological, Way, edge, further, Cycle}

-- The nodes being visited, the newest first: the one before leads to the next.
abbrev pub Leads : (ℕ → List ℕ) → List ℕ → ℕ → Type 0
Leads g [] i = Unit {0}
Leads g (a ∷ path) i = listed i (g a) ≡ true

abbrev pub Chain : (ℕ → List ℕ) → List ℕ → Type 0
Chain g [] = Unit {0}
Chain g (a ∷ path) = Leads g path a × Chain g path

abbrev pub finished : Marks → List ℕ
finished s = reverse s.postorder

-- A node is visited just if it is on the path or finished, not both; the finished nodes, the newest
-- first, are in order.
pub record Good (g : ℕ → List ℕ) (n : ℕ) (path : List ℕ) (s : Marks) : Type 0 where
  pub chain : Chain g path
  pub on_path : (b : ℕ) → s.on_path b ≡ listed b path
  pub visited : (b : ℕ) → s.visited b ≡ (listed b path || listed b (finished s))
  pub apart : (b : ℕ) → listed b path ≡ true → listed b (finished s) ≡ false
  pub order : Topological g (finished s)
  pub below : (b : ℕ) → s.visited b ≡ true → b < n
  pub clear : s.has_cycle ≡ false

-- A new node comes on the path.
pub enter-Good :
    (g : ℕ → List ℕ) (n i : ℕ) (path : List ℕ) (s : Marks)
    → Good g n path s
    → i < n
    → Leads g path i
    → s.visited i ≡ false
    → Good g n (i ∷ path) (enter i s)
unfolding enter
enter-Good g n i path s v h leads fresh = record {
  chain = (leads, v.chain);
  on_path = λ b. ground (arith, v.on_path b);
  visited = λ b. ground (arith, v.visited b);
  apart = λ b on. elim (Bool-cases (i == b)) [
    | inl e ↦
        let same : i ≡ b = ground (arith, e) in
        subst (λ c. listed c (finished s) ≡ false) same (ground (arith, fresh, v.visited i))
    | inr ne ↦ v.apart b (ground (arith, on, ne))
  ];
  order = v.order;
  below = λ b seen. elim (Bool-cases (i == b)) [
    | inl e ↦ ground (arith, e, h)
    | inr ne ↦ v.below b (ground (arith, seen, ne))
  ];
  clear = v.clear;
}

finished-leave : (i : ℕ) (s : Marks) → finished (leave i s) ≡ i ∷ finished s
unfolding leave
finished-leave i s = reverse-append s.postorder (i ∷ [])

-- A node whose neighbours are finished is finished.
pub leave-Good :
    (g : ℕ → List ℕ) (n i : ℕ) (path : List ℕ) (s : Marks)
    → Good g n (i ∷ path) s
    → listed i path ≡ false
    → ((j : ℕ) → listed j (g i) ≡ true → listed j (finished s) ≡ true)
    → Good g n path (leave i s)
unfolding leave
leave-Good g n i path s v once done = record {
  chain = v.chain.1;
  on_path = λ b. elim (Bool-cases (i == b)) [
    | inl e ↦
        let same : i ≡ b = ground (arith, e) in
        ground (arith, e, subst (λ c. listed c path ≡ false) same once)
    | inr ne ↦ ground (arith, ne, v.on_path b)
  ];
  visited = λ b. ground (arith, v.visited b, ap (listed b) (finished-leave i s));
  apart = λ b on. elim (Bool-cases (i == b)) [
    | inl e ↦
        let same : i ≡ b = ground (arith, e) in
        absurd (cc (on, subst (λ c. listed c path ≡ false) same once))
    | inr ne ↦ ground (arith, ne, on, v.apart b, ap (listed b) (finished-leave i s))
  ];
  order =
      subst (Topological g) (sym (finished-leave i s)) (done, v.apart i (ground arith), v.order);
  below = v.below;
  clear = v.clear;
}

-- What the finished nodes are after.
pub leave-listed :
    (i b : ℕ) (s : Marks) → listed b (finished (leave i s)) ≡ ((i == b) || listed b (finished s))
leave-listed i b s = ap (listed b) (finished-leave i s)

-- From a node of the path a way leads to its newest.
path-Way :
    (g : ℕ → List ℕ) (a : ℕ) (path : List ℕ) (i : ℕ)
    → Chain g (a ∷ path)
    → listed i (a ∷ path) ≡ true
    → (i ≡ a) ⊎ Way g i a
path-Way g a [] i c on = inl (ground (arith, on))
path-Way g a (m ∷ path) i (leads, c) on = elim (Bool-cases (a == i)) [
  | inl e ↦ inl (ground (arith, e))
  | inr ne ↦ elim (path-Way g m path i c (ground (arith, on, ne))) [
    | inl same ↦ inr (edge (subst (λ k. listed a (g k) ≡ true) (sym same) leads))
    | inr way ↦ inr (further way leads)
  ]
]

-- A node of the path that the newest leads to closes a cycle.
pub path-Cycle :
    (g : ℕ → List ℕ) (path : List ℕ) (i : ℕ)
    → Chain g path
    → Leads g path i
    → listed i path ≡ true
    → Cycle g
path-Cycle g [] i c leads on = absurd (cc on)
path-Cycle g (a ∷ path) i c leads on = elim (path-Way g a path i c on) [
  | inl same ↦ (i, edge (subst (λ k. listed i (g k) ≡ true) (sym same) leads))
  | inr way ↦ (i, further way leads)
]
