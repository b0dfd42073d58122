-- ===== src/Algorithm/Courses/Visits.antt =====
-- What a call of `traverse` does at its node.
use learn_note.Prelude.{
  ℕ, zero, suc, ◌+◌, ◌≤◌, ◌<◌, ◌==◌, ◌≡◌, inl, inr, refl, sym, ap, ◌∙◌, subst, Bool-cases, true,
  false, ◌||◌, some, List, ◌∷◌, arith, if-true, if-false, left, left-visit,
}
use mathlib.Core.Option.{map}
use learn_note.Algorithm.Courses.{Marks, put, enter, leave, check, each, traverse}
use learn_note.Algorithm.Courses.Order.{listed}
use learn_note.Algorithm.Courses.Marked.{
  Leads, finished, Good, enter-Good, leave-Good, leave-listed, path-Cycle,
}
use learn_note.Algorithm.Courses.Walk.{After, cyclic, fine, Calls, check-cycled, each-After}

-- `traverse` once it has entered its node.
enter-left :
    (g : ℕ → List ℕ) (n i : ℕ) (s : Marks)
    → i < n
    → s.visited i ≡ false
    → left (enter i s).visited n + 1 ≡ left s.visited n
unfolding enter
enter-left g n i s h fresh = left-visit s.visited (put s.visited i true) i n (λ b. refl) fresh h

leave-After :
    (g : ℕ → List ℕ) (n i : ℕ) (path : List ℕ) (s t : Marks)
    → listed i path ≡ false
    → left (enter i s).visited n ≤ left s.visited n
    → After g n (i ∷ path) (enter i s) (λ b. listed b (g i)) t
    → After g n path s (λ b. i == b) (leave i t)
unfolding enter leave
leave-After g n i path s t once less (cyclic c cycle fewer) =
    cyclic c cycle (omega (arith, less, fewer))
leave-After g n i path s t once less (fine v more done fewer) =
    fine (leave-Good g n i path t v once done) (λ b h. ground (arith, leave-listed i b t, more b h))
      (λ b h. ground (arith, leave-listed i b t, h)) (omega (arith, less, fewer))

-- Where the node is visited or on the path, or a cycle is known, `traverse` returns at once.
pub at_once :
    (fuel : ℕ) (g : ℕ → List ℕ) (i : ℕ) (s : Marks)
    → ((check i s).visited i || (check i s).has_cycle) ≡ true
    → traverse (suc fuel) g i s ≡ some (check i s)
unfolding traverse
at_once fuel g i s h = if-true _ _ h

pub goes_on :
    (fuel : ℕ) (g : ℕ → List ℕ) (i : ℕ) (s : Marks)
    → check i s ≡ s
    → (s.visited i || s.has_cycle) ≡ false
    → traverse (suc fuel) g i s ≡ map (leave i) (each (traverse fuel g) (g i) (enter i s))
unfolding traverse
goes_on fuel g i s same h =
    if-false _ _ (ap (λ (c : Marks). c.visited i || c.has_cycle) same ∙ h)
    ∙ ap (λ c. map (leave i) (each (traverse fuel g) (g i) (enter i c))) same

pub check-off : (i : ℕ) (s : Marks) → s.on_path i ≡ false → check i s ≡ s
unfolding check
check-off i s off = if-false _ _ off

pub check-on :
    (i : ℕ) (s : Marks)
    → s.on_path i ≡ true
    → ((check i s).has_cycle ≡ true) × ((check i s).visited ≡ s.visited)
unfolding check
check-on i s on = rw on (refl, refl)

module _ (g : ℕ → List ℕ) (n fuel i : ℕ) (path : List ℕ) (s : Marks) (v : Good g n path s) where
  -- The node is on the path.
  closes :
      Leads g path i
      → s.on_path i ≡ true
      → (t : Marks) × (traverse (suc fuel) g i s ≡ some t) × After g n path s (λ b. i == b) t
  closes leads on =
      let (c, same) = check-on i s on in
      (
        check i s,
        at_once fuel g i s (ground (arith, c)),
        cyclic c (path-Cycle g path i v.chain leads (sym (v.on_path i) ∙ on))
            (omega (arith, ap (λ f. left f n) same)),
      )

  -- The node is finished.
  returns :
      s.on_path i ≡ false
      → s.visited i ≡ true
      → (t : Marks) × (traverse (suc fuel) g i s ≡ some t) × After g n path s (λ b. i == b) t
  returns off seen =
      let same = check-off i s off in
      (
        s,
        at_once fuel g i s (rw same (ground (arith, seen))) ∙ ap some same,
        fine v (λ b h. h)
            (λ b h.
              subst (λ k. listed k (finished s) ≡ true) (same_node b h)
                (ground (arith, v.visited i, v.on_path i, off, seen)))
            (omega arith),
      )
    where
      same_node : (b : ℕ) → (i == b) ≡ true → i ≡ b
      same_node b h = ground (arith, h)

  -- The node is new.
  visits :
      i < n
      → Leads g path i
      → s.on_path i ≡ false
      → s.visited i ≡ false
      → ((j : ℕ) → listed j (g i) ≡ true → j < n)
      → left s.visited n < suc fuel
      → Calls g n fuel (traverse fuel g)
      → (t : Marks) × (traverse (suc fuel) g i s ≡ some t) × After g n path s (λ b. i == b) t
  visits h leads off fresh inside few calls =
      let fewer = enter-left g n i s h fresh in
      let (t, ends, a) =
        each-After g n fuel (traverse fuel g) (i ∷ path) (g i) (enter i s) calls
          (λ j on. (inside j on, on)) (enter-Good g n i path s v h leads fresh)
          (omega (arith, few, fewer)) in
      (
        leave i t,
        goes_on fuel g i s (check-off i s off) (ground (arith, fresh, v.clear))
            ∙ ap (map (leave i)) ends,
        leave-After g n i path s t (sym (v.on_path i) ∙ off) (omega (arith, fewer)) a,
      )

-- With more fuel than there are nodes to visit, `traverse` returns.
pub traverse-Calls :
    (g : ℕ → List ℕ) (n fuel : ℕ)
    → ((i j : ℕ) → listed j (g i) ≡ true → j < n)
    → Calls g n fuel (traverse fuel g)
traverse-Calls g n zero inside = record {
  good = λ i path s h leads v few. absurd (omega (arith, few));
  cycled = λ i s c few. absurd (omega (arith, few));
}
traverse-Calls g n (suc fuel) inside = record {
  good = λ i path s h leads v few. elim (Bool-cases (s.on_path i)) [
    | inl on ↦ closes g n fuel i path s v leads on
    | inr off ↦ elim (Bool-cases (s.visited i)) [
      | inl seen ↦ returns g n fuel i path s v off seen
      | inr fresh ↦
          visits g n fuel i path s v h leads off fresh (inside i) few
            (traverse-Calls g n fuel inside)
    ]
  ];
  cycled = λ i s c few. at_once fuel g i s (ground (arith, (check-cycled i s c).0));
}
