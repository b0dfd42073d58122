-- ===== src/Algorithm/Courses/Finish.antt =====
-- Algorithm/graphy.cpp: `canFinish` with its own `traverse`, which keeps no order.
use learn_note.Prelude.{
  ℕ, zero, suc, ◌≡◌, ◌⊎◌, inl, inr, refl, sym, ap, ◌∙◌, Bool, Bool-cases, true, false, not, Option,
  Option-cases, none, some, List, [], ◌∷◌, if◌then◌else◌, if-true, if-false, range, arith,
}
use mathlib.Core.Option.{map}
use learn_note.Algorithm.Courses.{Marks, put, build, each, enter, leave, check, traverse}
use learn_note.Algorithm.Courses.Order.{Cycle}
use learn_note.Algorithm.Courses.Walk.{check-cycled}
use learn_note.Algorithm.Courses.Visits.{at_once, goes_on, check-on, check-off}
use learn_note.Algorithm.Courses.Answer.{after, InRange, blank, cycled, ordered, loop-Result}

-- `onPath`, `visited` and `hasCycle`.
pub record Flags : Type 0 where
  pub on_path : ℕ → Bool
  pub visited : ℕ → Bool
  pub has_cycle : Bool

unfoldable pub probe_each : (ℕ → Flags → Option Flags) → List ℕ → Flags → Option Flags
probe_each f [] s = some s
probe_each f (i ∷ is) s = elim (f i s) [ none ↦ none | some t ↦ probe_each f is t ]

unfoldable pub probe : (fuel : ℕ) → (ℕ → List ℕ) → ℕ → Flags → Option Flags
unfolding probe_each
probe zero g i s = none
probe (suc fuel) g i s =
    let entered : Flags = record s {
      visited = put s.visited i true;
      on_path = put s.on_path i true;
    } in
    let below =
      map (λ (t : Flags). record t { on_path = put t.on_path i false })
        (probe_each (probe fuel g) (g i) entered) in
    if s.has_cycle
    then some s
    else (if s.on_path i
        then some (record s { has_cycle = true })
        else (if s.visited i then some s else below))

-- `canFinish`, where the global `hasCycle` holds `has_cycle` before.
unfoldable pub can_finish : (fuel n : ℕ) → List (ℕ × ℕ) → (has_cycle : Bool) → Option Bool
unfolding probe probe_each build
can_finish fuel n pairs has_cycle =
    let g = build (λ i. []) pairs in
    map (λ (t : Flags). not t.has_cycle)
      (probe_each (probe fuel g) (range 0 n)
        (record { on_path = λ i. false; visited = λ i. false; has_cycle = has_cycle }))

-- The marks without the order.
abbrev forget : Marks → Flags
forget s = record { on_path = s.on_path; visited = s.visited; has_cycle = s.has_cycle }

probe_each-forget :
    (f : ℕ → Flags → Option Flags) (h : ℕ → Marks → Option Marks) (is : List ℕ) (s : Marks)
    → ((i : ℕ) (s : Marks) → f i (forget s) ≡ map forget (h i s))
    → probe_each f is (forget s) ≡ map forget (each h is s)
unfolding probe_each each
probe_each-forget f h [] s same = refl
probe_each-forget f h (i ∷ is) s same =
    ap (λ (o : Option Flags). elim o [ none ↦ none | some t ↦ probe_each f is t ]) (same i s)
    ∙ elim (Option-cases (h i s)) [
      | inl out ↦ rw (out, each) refl
      | inr (t, ends) ↦ rw (ends, each) (probe_each-forget f h is t same)
    ]

-- The two checks of a node that is not entered come to the same.
forget-check :
    (i : ℕ) (s : Marks)
    → s.on_path i ≡ true
    → forget (check i s) ≡ record { on_path = s.on_path; visited = s.visited; has_cycle = true }
unfolding check
forget-check i s on = rw on refl

forget-cycled : (i : ℕ) (s : Marks) → s.has_cycle ≡ true → forget (check i s) ≡ forget s
unfolding check
forget-cycled i s c = elim (Bool-cases (s.on_path i)) [
  | inl on ↦
      rw on (ap (λ h. record { on_path = s.on_path; visited = s.visited; has_cycle = h }) (sym c))
  | inr off ↦ rw off refl
]

probe-forget :
    (fuel : ℕ) (g : ℕ → List ℕ) (i : ℕ) (s : Marks)
    → probe fuel g i (forget s) ≡ map forget (traverse fuel g i s)
unfolding probe traverse enter leave
probe-forget zero g i s = refl
probe-forget (suc fuel) g i s = elim (Bool-cases s.has_cycle) [
  | inl c ↦
      if-true _ _ c
      ∙ sym (
          ap (map forget) (at_once fuel g i s (ground (arith, (check-cycled i s c).0)))
          ∙ ap some (forget-cycled i s c))
  | inr clear ↦ if-false _ _ clear ∙ elim (Bool-cases (s.on_path i)) [
    | inl on ↦
        if-true _ _ on
        ∙ sym (
            ap (map forget) (at_once fuel g i s (ground (arith, (check-on i s on).0)))
            ∙ ap some (forget-check i s on))
    | inr off ↦ if-false _ _ off ∙ elim (Bool-cases (s.visited i)) [
      | inl seen ↦
          if-true _ _ seen
          ∙ sym (
              ap (map forget) (
                at_once fuel g i s (rw (check-off i s off) (ground (arith, seen)))
                ∙ ap some (check-off i s off)))
      | inr fresh ↦
          if-false _ _ fresh
          ∙ ap (map (λ (t : Flags). record t { on_path = put t.on_path i false })) (
              probe_each-forget (probe fuel g) (traverse fuel g) (g i) (enter i s)
                (probe-forget fuel g))
          ∙ map_leave (each (traverse fuel g) (g i) (enter i s))
          ∙ sym (
              ap (map forget)
                (goes_on fuel g i s (check-off i s off) (ground (arith, fresh, clear))))
    ]
  ]
]
  where
    map_leave :
        (o : Option Marks)
        → map (λ (t : Flags). record t { on_path = put t.on_path i false }) (map forget o)
          ≡ map forget (map (leave i) o)
    map_leave none = refl
    map_leave (some t) = refl

-- Where the courses are numbered below `n` and `hasCycle` is fresh, fuel `n + 1` is enough, and
-- `canFinish` tells whether no course waits for itself.
pub can_finish_lem :
    (n : ℕ) (pairs : List (ℕ × ℕ))
    → InRange n pairs
    → ((can_finish (suc n) n pairs false ≡ some true) × ¬ (Cycle (after pairs)))
      ⊎ ((can_finish (suc n) n pairs false ≡ some false) × Cycle (after pairs))
unfolding can_finish
can_finish_lem n pairs r =
    let g = build (λ i. []) pairs in
    let (t, e, result) = loop-Result n pairs r in
    let answered = ap (map (λ (f : Flags). not f.has_cycle)) (
      probe_each-forget (probe (suc n) g) (traverse (suc n) g) (range 0 n) blank
        (probe-forget (suc n) g)
      ∙ ap (map forget) e) in
    elim result [
      | cycled c cycle ↦ inr (answered ∙ ap (λ b. some (not b)) c, cycle)
      | ordered clear order all acyclic ↦ inl (answered ∙ ap (λ b. some (not b)) clear, acyclic)
    ]
