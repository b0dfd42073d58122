-- ===== src/SharedPtr/Safety.antt =====
-- No cell is deleted while a handle holds it, and none twice.
use learn_note.Prelude.{
  ℕ, ◌+◌, ◌-◌, ◌^◌, ◌≤◌, ◌<◌, ◌≡◌, ◌≢◌, ◌==◌, refl, sym, ap, ◌∙◌, subst, true, false, Option, none,
  some, List, [], ◌∷◌, ◌++◌, arith, get_or, set, length, length-set, length-append,
  get_or-append_new, get_or-append_ne, get_or-beyond, occurs, ℕ_discrete, Bool-cases, ltb, if-true,
  if-false, ◌⊎◌, inl, inr,
}
use learn_note.SharedPtr.{
  Heap, handle, retain, release, construct, construct_from, copy, move, copy_assign, move_assign,
  end_of_life, Step, constructs, constructs_from, copies, moves, copy_assigns, move_assigns, ends,
  Reach, start, next,
}
use learn_note.SharedPtr.Handles.{
  holds, owners, owners-append, owners-set, holds-le, holds-le_two, holds_self, holds_other,
}
use learn_note.SharedPtr.Counts.{count, Inv, Inv-le, retain-Inv, release-Inv}

retain-handles : (s : Heap) (h : Option ℕ) → (retain s h).handles ≡ s.handles
unfolding retain
retain-handles s none = refl
retain-handles s (some c) = refl

-- The owners are the handles.
Safe : ℕ → Heap → Type 0
Safe n s = Inv n (λ c. owners c s.handles) s

construct_from-Safe : (n : ℕ) (s : Heap) → Safe n s → Safe (n + 1) (construct_from s)
unfolding Safe construct_from
construct_from-Safe n s v =
    let new = length s.counts in
    let other : (c : ℕ) → new ≢ c → get_or (s.counts ++ 1 ∷ []) c 0 ≡ count s c =
      (λ c ne. get_or-append_ne s.counts c 1 0 ne) in
    let mine = get_or-append_new s.counts 1 0 in
    let none_yet = get_or-beyond s.counts new 0 (omega arith) in
    record {
      owned = λ c. elim (ℕ_discrete new c) [
        | yes e ↦
            subst (λ x. owners x (s.handles ++ some new ∷ []) ≤ get_or (s.counts ++ 1 ∷ []) x 0) e
              (omega (
                arith,
                owners-append new s.handles (some new),
                mine,
                v.owned new,
                none_yet,
                holds_self new,
              ))
        | no ne ↦ omega (
          arith,
          other c ne,
          v.owned c,
          owners-append c s.handles (some new),
          holds_other c new ne,
        )
      ];
      small = λ c. elim (ℕ_discrete new c) [
        | yes e ↦ subst (λ x. get_or (s.counts ++ 1 ∷ []) x 0 ≤ n + 1) e (omega (arith, mine))
        | no ne ↦ omega (arith, other c ne, v.small c)
      ];
      dead = λ c z. elim (ℕ_discrete new c) [
        | yes e ↦ absurd (omega (arith, z, v.made c (omega (arith, e))))
        | no ne ↦ other c ne ∙ v.dead c z
      ];
      once = v.once;
      made = λ c h. v.made c (omega (arith, length-append s.counts (1 ∷ [])));
    }

-- A handle is given a share in what another handle holds.
share-Safe :
    (n : ℕ) (s : Heap) (hs : List (Option ℕ)) (h : Option ℕ) (own : ℕ → ℕ)
    → n + 1 < 2 ^ 32
    → ((c : ℕ) → holds c h ≤ own c)
    → ((c : ℕ) → owners c hs ≤ own c + holds c h)
    → Inv n own s
    → Safe (n + 1) (retain (record s { handles = hs }) h)
unfolding Safe
share-Safe n s hs h own l k o v =
    let t = retain (record s { handles = hs }) h in
    let w =
      retain-Inv (record s { handles = hs }) h l k
        (Inv-le s hs (omega arith) (λ c. omega arith) v) in
    Inv-le t t.handles (omega arith)
      (λ c. omega (arith, o c, ap (owners c) (retain-handles (record s { handles = hs }) h))) w

copy_assign-Safe :
    (n : ℕ) (s : Heap) (i j : ℕ)
    → n + 1 < 2 ^ 32
    → i < length s.handles
    → Safe n s
    → Safe (n + 1) (copy_assign s i j)
unfolding copy_assign Safe
copy_assign-Safe n s i j l hi v = elim (ℕ_discrete i j) [
  | yes e ↦
      let same : (i == j) ≡ true = ground arith in
      subst (Safe (n + 1)) (sym (if-true _ _ same))
        (Inv-le s s.handles (omega arith) (λ c. omega arith) v)
  | no ne ↦
      let differ : (i == j) ≡ false = ground arith in
      let freed = release s (handle s i) in
      let hs = set s.handles i (handle s j) in
      let mine : (c : ℕ) → holds c (handle s j) ≤ owners c s.handles - holds c (handle s i) =
        (λ c. omega (arith, holds-le_two c s.handles i j ne)) in
      subst (Safe (n + 1)) (sym (if-false _ _ differ)) (
        share-Safe n freed hs (handle s j) (λ c. owners c s.handles - holds c (handle s i)) l mine
          (λ c. omega (arith, owners-set c s.handles i (handle s j) hi))
          (release-Inv s (handle s i) l (λ c. holds-le c s.handles i) v))
]

Step-Safe : (n : ℕ) (s t : Heap) → n + 1 < 2 ^ 32 → Step s t → Safe n s → Safe (n + 1) t
unfolding construct copy move move_assign end_of_life Safe
Step-Safe n s t l constructs v =
    Inv-le s (s.handles ++ none ∷ []) (omega arith)
      (λ c. omega (arith, owners-append c s.handles none)) v
Step-Safe n s t l constructs_from v = construct_from-Safe n s v
Step-Safe n s t l (copies i h) v =
    share-Safe n s (s.handles ++ handle s i ∷ []) (handle s i) (λ c. owners c s.handles) l
      (λ c. holds-le c s.handles i) (λ c. omega (arith, owners-append c s.handles (handle s i))) v
Step-Safe n s t l (moves i h) v =
    Inv-le s (set s.handles i none ++ handle s i ∷ []) (omega arith)
      (λ c. omega (
        arith,
        owners-append c (set s.handles i none) (handle s i),
        owners-set c s.handles i none h,
      ))
      v
Step-Safe n s t l (copy_assigns i j h k) v = copy_assign-Safe n s i j l h v
Step-Safe n s t l (move_assigns i j h k) v = elim (Bool-cases (i == j)) [
  | inl e ↦
      subst (Safe (n + 1)) (sym (if-true _ _ e))
        (Inv-le s s.handles (omega arith) (λ c. omega arith) v)
  | inr e ↦
      let gone : Option ℕ = none in
      let hs = set s.handles j gone in
      subst (Safe (n + 1)) (sym (if-false _ _ e)) (
        Inv-le s (set hs i (handle s j)) (omega arith)
          (λ c. omega (
            arith,
            owners-set c hs i (handle s j) (omega (arith, length-set s.handles j gone)),
            owners-set c s.handles j none k,
          ))
          v)
]
Step-Safe n s t l (ends i h) v =
    Inv-le s (set s.handles i none) (omega arith)
      (λ c. omega (arith, owners-set c s.handles i none h)) v

Reach-Safe : (n : ℕ) (s : Heap) → n < 2 ^ 32 → Reach n s → Safe n s
unfolding Safe
Reach-Safe n s l start = record {
  owned = λ c. omega arith;
  small = λ c. omega arith;
  dead = λ c z. refl;
  once = λ c. omega arith;
  made = λ c h. refl;
}
Reach-Safe n s l (next {n = m} {s = a} r st) = Step-Safe m a s l st (Reach-Safe m a (omega arith) r)

-- In fewer than 2^32 steps, whatever a program does with its handles: no cell that a handle holds has been
-- deleted, its counter is at least the number of handles that hold it, and no cell is deleted twice.
pub Reach-alive :
    (n : ℕ) (s : Heap)
    → n < 2 ^ 32
    → Reach n s
    → (c : ℕ)
    → (occurs c s.deleted ≤ 1)
      × (owners c s.handles ≤ get_or s.counts c 0)
      × ((occurs c s.deleted ≡ 0) ⊎ (owners c s.handles ≡ 0))
unfolding Safe
Reach-alive n s l r c =
    let v = Reach-Safe n s l r in
    (
      v.once c,
      v.owned c,
      elim (Bool-cases (ltb 0 (occurs c s.deleted))) [
        | inl t ↦ inr (omega (arith, v.owned c, v.dead c (ground arith)))
        | inr t ↦ inl (ground arith)
      ],
    )
