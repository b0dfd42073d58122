-- ===== src/Algorithm/Courses/Walk.antt =====
-- What a call of `traverse` comes to.
use learn_note.Prelude.{
  ℕ, ◌≤◌, ◌<◌, ◌==◌, ◌≡◌, inl, inr, refl, ap, ◌∙◌, Bool, Bool-cases, true, Option, none, some, List,
  [], ◌∷◌, arith, left,
}
use learn_note.Algorithm.Courses.{Marks, check, each}
use learn_note.Algorithm.Courses.Order.{listed, Cycle}
use learn_note.Algorithm.Courses.Marked.{Leads, finished, Good}

-- A call for the nodes that `target` tells: a cycle is found, or they are finished.
pub data After (g : ℕ → List ℕ) (n : ℕ) (path : List ℕ) (s : Marks) (target : ℕ → Bool) (t : Marks)
    : Type 0 where
  cyclic :
      t.has_cycle ≡ true → Cycle g → left t.visited n ≤ left s.visited n → After g n path s target t
  fine :
      Good g n path t
      → ((b : ℕ) → listed b (finished s) ≡ true → listed b (finished t) ≡ true)
      → ((b : ℕ) → target b ≡ true → listed b (finished t) ≡ true)
      → left t.visited n ≤ left s.visited n
      → After g n path s target t

-- What the recursion uses of the calls for a node's neighbours.
pub record Calls (g : ℕ → List ℕ) (n fuel : ℕ) (f : ℕ → Marks → Option Marks) : Type 0 where
  pub good :
      (i : ℕ) (path : List ℕ) (s : Marks)
      → i < n
      → Leads g path i
      → Good g n path s
      → left s.visited n < fuel
      → (t : Marks) × (f i s ≡ some t) × After g n path s (λ b. i == b) t
  pub cycled :
      (i : ℕ) (s : Marks) → s.has_cycle ≡ true → left s.visited n < fuel → f i s ≡ some (check i s)

pub check-cycled :
    (i : ℕ) (s : Marks)
    → s.has_cycle ≡ true
    → ((check i s).has_cycle ≡ true) × ((check i s).visited ≡ s.visited)
unfolding check
check-cycled i s c = elim (Bool-cases (s.on_path i)) [
  | inl on ↦ rw on (refl, refl)
  | inr off ↦ rw off (c, refl)
]

each-cons :
    (f : ℕ → Marks → Option Marks) (i : ℕ) (is : List ℕ) (s m : Marks)
    → f i s ≡ some m
    → each f (i ∷ is) s ≡ each f is m
unfolding each
each-cons f i is s m e = ap (λ (o : Option Marks). elim o [ none ↦ none | some t ↦ each f is t ]) e

each-cycled :
    (g : ℕ → List ℕ) (n fuel : ℕ) (f : ℕ → Marks → Option Marks) (is : List ℕ) (s : Marks)
    → Calls g n fuel f
    → s.has_cycle ≡ true
    → left s.visited n < fuel
    → (t : Marks) × (each f is s ≡ some t)
      × (t.has_cycle ≡ true)
      × (left t.visited n ≤ left s.visited n)
unfolding each
each-cycled g n fuel f [] s calls c few = (s, refl, c, omega arith)
each-cycled g n fuel f (i ∷ is) s calls c few =
    let (c', same) = check-cycled i s c in
    let equal = ap (λ v. left v n) same in
    let (t, ends, ct, less) =
      each-cycled g n fuel f is (check i s) calls c' (omega (arith, equal, few)) in
    (
      t,
      each-cons f i is s (check i s) (calls.cycled i s c few) ∙ ends,
      ct,
      omega (arith, equal, less),
    )

-- A call for one node, and then the calls for others.
both :
    {g : ℕ → List ℕ} {n : ℕ} {path : List ℕ} (i : ℕ) (is : List ℕ) (s m t : Marks)
    → ((b : ℕ) → listed b (finished s) ≡ true → listed b (finished m) ≡ true)
    → ((b : ℕ) → (i == b) ≡ true → listed b (finished m) ≡ true)
    → left m.visited n ≤ left s.visited n
    → After g n path m (λ b. listed b is) t
    → After g n path s (λ b. listed b (i ∷ is)) t
both i is s m t more done less (cyclic c cycle fewer) = cyclic c cycle (omega (arith, less, fewer))
both i is s m t more done less (fine v kept all fewer) =
    fine v (λ b h. kept b (more b h))
      (λ b h. elim (Bool-cases (i == b)) [
        | inl e ↦ kept b (done b e)
        | inr ne ↦ all b (ground (arith, h, ne))
      ])
      (omega (arith, less, fewer))

pub each-After :
    (g : ℕ → List ℕ) (n fuel : ℕ) (f : ℕ → Marks → Option Marks) (path is : List ℕ) (s : Marks)
    → Calls g n fuel f
    → ((j : ℕ) → listed j is ≡ true → (j < n) × Leads g path j)
    → Good g n path s
    → left s.visited n < fuel
    → (t : Marks) × (each f is s ≡ some t) × After g n path s (λ b. listed b is) t
unfolding each
each-After g n fuel f path [] s calls leads v few =
    (s, refl, fine v (λ b h. h) (λ b h. absurd (cc h)) (omega arith))
each-After g n fuel f path (i ∷ is) s calls leads v few =
    let (h, to) = leads i (ground arith) in
    let (m, first, a) = calls.good i path s h to v few in
    elim a [
      | cyclic c cycle less ↦
          let (t, rest, ct, lt) = each-cycled g n fuel f is m calls c (omega (arith, less, few)) in
          (t, each-cons f i is s m first ∙ rest, cyclic ct cycle (omega (arith, lt, less)))
      | fine v' more done less ↦
          let (t, rest, b) =
            each-After g n fuel f path is m calls (λ j on. leads j (ground (arith, on))) v'
              (omega (arith, less, few)) in
          (t, each-cons f i is s m first ∙ rest, both i is s m t more done less b)
    ]
