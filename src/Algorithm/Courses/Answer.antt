-- ===== src/Algorithm/Courses/Answer.antt =====
-- What `findOrder` returns.
use learn_note.Prelude.{
  ℕ, zero, suc, ◌+◌, ◌<◌, ◌==◌, ◌≡◌, ◌⊎◌, inl, inr, refl, sym, ap, fun_ext, ◌∙◌, Bool-cases, true,
  false, ◌&&◌, some, List, [], ◌∷◌, ◌++◌, append_assoc, append-nil, arith, if◌then◌else◌, if-true,
  if-false, ltb, leb, left-all, range,
}
use mathlib.Core.List.{reverse}
use mathlib.Core.Option.{map}
use learn_note.Algorithm.Courses.{Marks, put, build, each, traverse, find_order}
use learn_note.Algorithm.Courses.Order.{
  listed, Topological, Way, edge, further, Cycle, order-acyclic,
}
use learn_note.Algorithm.Courses.Marked.{Good, finished}
use learn_note.Algorithm.Courses.Walk.{After, cyclic, fine, each-After}
use learn_note.Algorithm.Courses.Visits.{traverse-Calls}

-- The courses that wait for `a`; a pair is a course and one that it waits for.
abbrev pub after : List (ℕ × ℕ) → ℕ → List ℕ
after [] a = []
after ((to, from) ∷ pairs) a = if from == a then to ∷ after pairs a else after pairs a

abbrev pub InRange : ℕ → List (ℕ × ℕ) → Type 0
InRange n [] = Unit {0}
InRange n ((to, from) ∷ pairs) = (to < n) × (from < n) × InRange n pairs

build-after :
    (g : ℕ → List ℕ) (pairs : List (ℕ × ℕ)) (a : ℕ) → build g pairs a ≡ g a ++ after pairs a
unfolding build
build-after g [] a = sym (append-nil (g a))
build-after g ((to, from) ∷ pairs) a =
    build-after (put g from (g from ++ to ∷ [])) pairs a ∙ elim (Bool-cases (from == a)) [
      | inl e ↦
          let same : from ≡ a = ground (arith, e) in
          rw e (
            ap (λ k. (g k ++ to ∷ []) ++ after pairs a) same
            ∙ append_assoc (g a) (to ∷ []) (after pairs a))
      | inr ne ↦ rw ne refl
    ]

after-below :
    (n : ℕ) (pairs : List (ℕ × ℕ))
    → InRange n pairs
    → (a b : ℕ) → listed b (after pairs a) ≡ true
    → b < n
after-below n [] r a b h = absurd (cc h)
after-below n ((to, from) ∷ pairs) (low, high, r) a b h =
    ground (arith, low, h, after-below n pairs r a b)

listed-range :
    (b from count : ℕ) → listed b (range from count) ≡ (leb from b && ltb b (from + count))
listed-range b from zero = ground arith
listed-range b from (suc count) = ground (arith, listed-range b (from + 1) count)

abbrev pub blank : Marks
blank = record { on_path = λ i. false; visited = λ i. false; has_cycle = false; postorder = [] }

blank-Good : (g : ℕ → List ℕ) (n : ℕ) → Good g n [] blank
blank-Good g n = record {
  chain = tt;
  on_path = λ b. refl;
  visited = λ b. refl;
  apart = λ b h. absurd (cc h);
  order = tt;
  below = λ b h. absurd (cc h);
  clear = refl;
}

-- The end of the loop over all courses.
abbrev result : Marks → List ℕ
result t = if t.has_cycle then [] else reverse t.postorder

loop-After :
    (g : ℕ → List ℕ) (n : ℕ)
    → ((i j : ℕ) → listed j (g i) ≡ true → j < n)
    → (t : Marks) × (each (traverse (suc n) g) (range 0 n) blank ≡ some t)
      × After g n [] blank (λ b. listed b (range 0 n)) t
loop-After g n inside =
    each-After g n (suc n) (traverse (suc n) g) [] (range 0 n) blank
      (traverse-Calls g n (suc n) inside) (λ j on. (ground (arith, listed-range j 0 n, on), tt))
      (blank-Good g n) (omega (arith, left-all n))

-- A way ends below `n`.
Way-below :
    (g : ℕ → List ℕ) (n a b : ℕ) → ((i j : ℕ) → listed j (g i) ≡ true → j < n) → Way g a b → b < n
Way-below g n a b inside (edge e) = inside a b e
Way-below g n a b inside (further {b = m} way e) = inside m b e

-- What the loop finds: a cycle, or an order of all courses, and then there is no cycle.
pub data Result (g : ℕ → List ℕ) (n : ℕ) (t : Marks) : Type 0 where
  cycled : t.has_cycle ≡ true → Cycle g → Result g n t
  ordered :
      t.has_cycle ≡ false
      → Topological g (finished t)
      → ((b : ℕ) → listed b (finished t) ≡ ltb b n)
      → ¬ (Cycle g)
      → Result g n t

whole :
    (g : ℕ → List ℕ) (n b : ℕ) (t : Marks)
    → Good g n [] t
    → (b < n → listed b (finished t) ≡ true)
    → listed b (finished t) ≡ ltb b n
whole g n b t v h = elim (Bool-cases (ltb b n)) [
  | inl l ↦ h (ground (arith, l)) ∙ sym l
  | inr m ↦ ground (arith, m, v.visited b, v.below b)
]

After-Result :
    (g : ℕ → List ℕ) (n : ℕ) (t : Marks)
    → ((i j : ℕ) → listed j (g i) ≡ true → j < n)
    → After g n [] blank (λ b. listed b (range 0 n)) t
    → Result g n t
After-Result g n t inside (cyclic c cycle less) = cycled c cycle
After-Result g n t inside (fine v more done less) =
    let all : (b : ℕ) → listed b (finished t) ≡ ltb b n =
      λ b. whole g n b t v (λ h. done b (listed-range b 0 n ∙ ground (arith, h))) in
    ordered v.clear v.order all (λ (b, way).
      order-acyclic g (finished t) b v.order (all b ∙ ground (arith, Way-below g n b b inside way))
        way)

-- Both programs run the loop over the graph of the pairs.
pub build-blank : (pairs : List (ℕ × ℕ)) → build (λ i. []) pairs ≡ after pairs
build-blank pairs = fun_ext (λ a. build-after (λ i. []) pairs a)

pub loop-Result :
    (n : ℕ) (pairs : List (ℕ × ℕ))
    → InRange n pairs
    → (t : Marks) × (each (traverse (suc n) (build (λ i. []) pairs)) (range 0 n) blank ≡ some t)
      × Result (after pairs) n t
loop-Result n pairs r =
    let inside = after-below n pairs r in
    let (t, e, a) = loop-After (after pairs) n inside in
    (
      t,
      ap (λ g. each (traverse (suc n) g) (range 0 n) blank) (build-blank pairs) ∙ e,
      After-Result (after pairs) n t inside a,
    )

-- Where the courses are numbered below `n` and the globals are fresh, fuel `n + 1` is enough; and
-- `findOrder` either returns all courses, each once and before all that wait for it, and then no
-- course waits for itself, or it returns the empty list, and some course does.
pub find_order_lem :
    (n : ℕ) (pairs : List (ℕ × ℕ))
    → InRange n pairs
    → ((order : List ℕ) × (find_order (suc n) n pairs false [] ≡ some order)
        × Topological (after pairs) order
        × ((b : ℕ) → listed b order ≡ ltb b n)
        × ¬ (Cycle (after pairs)))
      ⊎ ((find_order (suc n) n pairs false [] ≡ some []) × Cycle (after pairs))
unfolding find_order
find_order_lem n pairs r =
    let (t, e, result_t) = loop-Result n pairs r in
    let returned = ap (map result) e in
    elim result_t [
      | cycled c cycle ↦ inr (returned ∙ ap some (if-true _ _ c), cycle)
      | ordered clear order all acyclic ↦
          inl (finished t, returned ∙ ap some (if-false _ _ clear), order, all, acyclic)
    ]
