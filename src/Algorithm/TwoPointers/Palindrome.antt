-- ===== src/Algorithm/TwoPointers/Palindrome.antt =====
-- The test for a palindrome.
use learn_note.Prelude.{
  ℕ, zero, suc, ◌+◌, ◌-◌, ◌≤◌, ◌<◌, ◌==◌, ◌≡◌, ◌↔◌, refl, sym, ap, ◌∙◌, true, false, not, List,
  arith, ltb, length, Bool-cases, inl, inr, if-true, if-false, ℕ_discrete,
}
use mathlib.Core.List.{reverse}
use learn_note.Algorithm.Sort.{elem}
use learn_note.Algorithm.TwoPointers.{reverse_string, mirrored, is_palindrome}
use learn_note.Algorithm.TwoPointers.Mirror.{
  reverse_string-reverse, List-ext, length-reverse, elem-reverse,
}

-- Each place of a range mirrors.
unfoldable Same : List ℕ → (left stop : ℕ) → Type 0
Same s left stop = (i j : ℕ) → i + j + 1 ≡ length s → left ≤ i → i < stop → elem s i ≡ elem s j

mirrored-Same :
    (fuel : ℕ) (s : List ℕ) (left stop : ℕ)
    → left + stop ≡ length s
    → stop ≤ left + fuel
    → mirrored fuel s left stop ≡ true
    → Same s left stop
unfolding mirrored Same
mirrored-Same zero s left stop e h t i j k p q = ap (elem s) (omega arith)
mirrored-Same (suc fuel) s left stop e h t i j k p q = elim (Bool-cases (ltb (left + 1) stop)) [
  | inr l ↦ ap (elem s) {x = i} {y = j} (ground arith)
  | inl l ↦ elim (Bool-cases (not (elem s left == elem s (stop - 1)))) [
    | inl d ↦ absurd (cc (sym (if-true _ _ d) ∙ sym (if-true _ _ l) ∙ t))
    | inr d ↦
        let eq : elem s left ≡ elem s (stop - 1) = ground arith in
        let rest = sym (if-false _ _ d) ∙ sym (if-true _ _ l) ∙ t in
        elim (ℕ_discrete left i) [
          | yes z ↦ ap (elem s) (sym z) ∙ eq ∙ ap (elem s) {x = stop - 1} {y = j} (omega arith)
          | no n ↦ elim (ℕ_discrete (stop - 1) i) [
            | yes z ↦ ap (elem s) (sym z) ∙ sym eq ∙ ap (elem s) {x = left} {y = j} (omega arith)
            | no m ↦
                let long : left + 1 < stop = ground arith in
                mirrored-Same fuel s (left + 1) (stop - 1) (omega arith) (omega arith) rest i j k
                  (omega arith) (omega arith)
          ]
        ]
  ]
]

Same-mirrored :
    (fuel : ℕ) (s : List ℕ) (left stop : ℕ)
    → left + stop ≡ length s
    → Same s 0 (length s)
    → mirrored fuel s left stop ≡ true
unfolding mirrored Same
Same-mirrored zero s left stop e h = refl
Same-mirrored (suc fuel) s left stop e h = elim (Bool-cases (ltb (left + 1) stop)) [
  | inr l ↦ if-false _ _ l
  | inl l ↦
      let long : left + 1 < stop = ground arith in
      let eq : elem s left ≡ elem s (stop - 1) =
        h left (stop - 1) (omega arith) (omega arith) (omega arith) in
      let alike : not (elem s left == elem s (stop - 1)) ≡ false = ground arith in
      if-true _ _ l
      ∙ if-false _ _ alike
      ∙ Same-mirrored fuel s (left + 1) (stop - 1) (omega arith) h
]

is_palindrome-reverse : (s : List ℕ) → (is_palindrome s ≡ true) ↔ (reverse s ≡ s)
unfolding is_palindrome Same
is_palindrome-reverse s = (
  λ t.
      let h = mirrored-Same (length s) s 0 (length s) (omega arith) (omega arith) t in
      List-ext _ _ (length-reverse s) (λ i l.
        let k = length s - i - 1 in
        elem-reverse s i k (omega (arith, length-reverse s))
        ∙ sym (
            h i k (omega (arith, length-reverse s)) (omega arith)
              (omega (arith, length-reverse s)))),
  λ r.
      Same-mirrored (length s) s 0 (length s) (omega arith)
        (λ i j k p q. sym (ap (λ x. elem x i) r) ∙ elem-reverse s i j k),
)

-- `reverseString` leaves the string reversed, whatever its length, and `isPalindrome` answers true exactly for
-- the strings that `reverseString` leaves as they are.
pub is_palindrome-reverse_string :
    (s : List ℕ)
    → (reverse_string s ≡ reverse s) × ((is_palindrome s ≡ true) ↔ (reverse_string s ≡ s))
is_palindrome-reverse_string s =
    let (f, g) = is_palindrome-reverse s in
    let e = reverse_string-reverse s in (e, (λ t. e ∙ f t, λ r. g (sym e ∙ r)))
