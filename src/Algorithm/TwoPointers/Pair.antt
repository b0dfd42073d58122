-- ===== src/Algorithm/TwoPointers/Pair.antt =====
-- Two values of a sorted array with a given sum.
use learn_note.Prelude.{
  ℕ, zero, suc, ◌+◌, ◌-◌, ◌≤◌, ◌<◌, ◌==◌, ◌≡◌, ◌≢◌, sym, ap, subst, List, Option, none, some, arith,
  ltb, length, Bool-cases, inl, inr, if-true, if-false, ℕ_discrete,
}
use learn_note.Algorithm.Sort.{elem}
use learn_note.Algorithm.Sort.Sorted.{Ordered}
use learn_note.Algorithm.TwoPointers.{close_in, two_sum}

-- The places found hold the sum, the first before the second; where none are found, no two places do.
unfoldable pub Answers : List ℕ → (tgt : ℕ) → Option (ℕ × ℕ) → Type 0
Answers nums tgt none = (i j : ℕ) → i < j → j < length nums → elem nums i + elem nums j ≢ tgt
Answers nums tgt (some (i, j)) = (i < j) × (j < length nums) × (elem nums i + elem nums j ≡ tgt)

module _ (nums : List ℕ) (tgt : ℕ) (sorted : Ordered 0 (length nums) nums) where
  -- No pair with the sum reaches outside of the range.
  record Narrowed (left stop : ℕ) : Type 0 where
    room : stop ≤ length nums
    inside :
        (i j : ℕ)
        → i < j
        → j < length nums
        → elem nums i + elem nums j ≡ tgt
        → (left ≤ i) × (j < stop)

  start_Narrowed : Narrowed 0 (length nums)
  start_Narrowed = record { room = omega arith; inside = λ i j p q e. (omega arith, q) }

  up_Narrowed :
      (left stop : ℕ)
      → left + 1 < stop
      → elem nums left + elem nums (stop - 1) < tgt
      → Narrowed left stop
      → Narrowed (left + 1) stop
  unfolding Ordered
  up_Narrowed left stop h l v = record {
    room = v.room;
    inside = λ i j p q e.
        let (a, b) = v.inside i j p q e in
        elim (ℕ_discrete left i) [
          | yes z ↦
              let most = sorted j (stop - 1) (omega arith) (omega arith) (omega (arith, v.room)) in
              absurd (omega (arith, ap (elem nums) z, most, l, e))
          | no n ↦ (omega arith, b)
        ];
  }

  down_Narrowed :
      (left stop : ℕ)
      → left + 1 < stop
      → tgt < elem nums left + elem nums (stop - 1)
      → Narrowed left stop
      → Narrowed left (stop - 1)
  unfolding Ordered
  down_Narrowed left stop h l v = record {
    room = omega (arith, v.room);
    inside = λ i j p q e.
        let (a, b) = v.inside i j p q e in
        elim (ℕ_discrete j (stop - 1)) [
          | yes z ↦
              let least = sorted left i (omega arith) a (omega arith) in
              absurd (omega (arith, ap (elem nums) z, least, l, e))
          | no n ↦ (a, omega arith)
        ];
  }

  short_Answers : (left stop : ℕ) → stop ≤ left + 1 → Narrowed left stop → Answers nums tgt none
  unfolding Answers
  short_Answers left stop h v i j p q e = let (a, b) = v.inside i j p q e in absurd (omega arith)

  close_in-Answers :
      (fuel left stop : ℕ)
      → stop ≤ left + fuel
      → Narrowed left stop
      → Answers nums tgt (close_in fuel nums tgt left stop)
  unfolding close_in Answers
  close_in-Answers zero left stop h v = short_Answers left stop (omega arith) v
  close_in-Answers (suc fuel) left stop h v = elim (Bool-cases (ltb (left + 1) stop)) [
    | inr t ↦
        subst (Answers nums tgt) (sym (if-false _ _ t)) (short_Answers left stop (ground arith) v)
    | inl t ↦
        let long : left + 1 < stop = ground arith in
        let sum = elem nums left + elem nums (stop - 1) in
        subst (Answers nums tgt) (sym (if-true _ _ t)) (elim (Bool-cases (sum == tgt)) [
          | inl e ↦
              subst (Answers nums tgt) (sym (if-true _ _ e))
                (omega arith, omega (arith, v.room), ground arith)
          | inr e ↦
              subst (Answers nums tgt) (sym (if-false _ _ e)) (elim (Bool-cases (ltb sum tgt)) [
                | inl l ↦ subst (Answers nums tgt) (sym (if-true _ _ l)) (
                    close_in-Answers fuel (left + 1) stop (omega arith)
                      (up_Narrowed left stop long (ground arith) v))
                | inr l ↦ subst (Answers nums tgt) (sym (if-false _ _ l)) (
                    close_in-Answers fuel left (stop - 1) (omega arith)
                      (down_Narrowed left stop long (ground arith) v))
              ])
        ])
  ]

-- On a sorted array `twoSum` answers two places, the first before the second, whose values have the sum, and
-- says that there are none only where there are none.
pub two_sum-Answers :
    (nums : List ℕ) (tgt : ℕ) → Ordered 0 (length nums) nums → Answers nums tgt (two_sum nums tgt)
unfolding two_sum
two_sum-Answers nums tgt sorted =
    close_in-Answers nums tgt sorted (length nums) 0 (length nums) (omega arith)
      (start_Narrowed nums tgt sorted)
