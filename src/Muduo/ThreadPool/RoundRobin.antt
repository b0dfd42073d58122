-- ===== src/Muduo/ThreadPool/RoundRobin.antt =====
-- The order in which the loops are handed out.
use learn_note.Prelude.{
  ℕ, zero, suc, ◌+◌, ◌%◌, ◌<◌, ◌≡◌, refl, sym, ap, ◌∙◌, false, Option, none, some, List, [], ◌∷◌,
  arith, dec_lt, if◌then◌else◌, length, get_elem?, leb, if-false,
}
use learn_note.Muduo.ThreadPool.{ThreadPool, is_empty, advance, get_next_loop}
use native.Mathlib.Nat.{mod-eq_of_lt, mod-add-mod, add-zero, mod_self}

-- The loops of the next `k` calls.
unfoldable pub hand_out : ℕ → ThreadPool → Option (List ℕ)
hand_out zero p = some []
hand_out (suc k) p = elim (get_next_loop p) [
  | none ↦ none
  | some (l, p') ↦ elim (hand_out k p') [ none ↦ none | some ls ↦ some (l ∷ ls) ]
]

get_elem?-some : (xs : List ℕ) (i : ℕ) → i < length xs → (x : ℕ) × (get_elem? xs i ≡ some x)
get_elem?-some [] i h = absurd (omega arith)
get_elem?-some (x ∷ xs) zero h = (x, refl)
get_elem?-some (x ∷ xs) (suc i) h = get_elem?-some xs i (omega arith)

not_empty : (ls : List ℕ) → 0 < length ls → is_empty ls ≡ false
unfolding is_empty
not_empty [] h = absurd (omega arith)
not_empty (l ∷ ls) h = refl

wrap : (n len : ℕ) → n < len → (if leb len (n + 1) then 0 else n + 1) ≡ (n + 1) % len
wrap n len h = elim (dec_lt (n + 1) len) [
  | yes p ↦ ground (arith, mod-eq_of_lt p)
  | no p ↦ let e : n + 1 ≡ len = omega arith in ground (arith, ap (λ k. k % len) e, mod_self len)
]

-- The pool after a call, where there are loops.
abbrev moved : ThreadPool → ThreadPool
moved p = record p { next = (p.next + 1) % length p.loops }

get_next_loop-some :
    (p : ThreadPool) (l : ℕ)
    → p.next < length p.loops
    → get_elem? p.loops p.next ≡ some l
    → get_next_loop p ≡ some (l, moved p)
unfolding get_next_loop
get_next_loop-some p l h e =
    if-false _ _ (not_empty p.loops (omega arith))
    ∙ ap (advance p) e
    ∙ ap (λ n. some (l, record p { next = n })) (wrap p.next (length p.loops) h)

-- With worker loops, no call leaves their range, and the i-th of any number of calls in a row gets
-- the loop i places after the next one, going round.
pub hand_out_lem :
    (k : ℕ) (p : ThreadPool)
    → p.next < length p.loops
    → (ls : List ℕ) × (hand_out k p ≡ some ls)
      × (length ls ≡ k)
      × ((i : ℕ) → i < k → get_elem? ls i ≡ get_elem? p.loops ((p.next + i) % length p.loops))
unfolding hand_out
hand_out_lem zero p h = ([], refl, refl, λ i lt. absurd (omega arith))
hand_out_lem (suc k) p h =
    let (l, e) = get_elem?-some p.loops p.next h in
    let (ls, f, len, at) = hand_out_lem k (moved p) (omega arith) in
    (l ∷ ls, rw (get_next_loop-some p l h e, f, hand_out), ap suc len, places l e ls at)
  where
    places :
        (l : ℕ)
        → get_elem? p.loops p.next ≡ some l
        → (ls : List ℕ)
        → ((i : ℕ)
            → i < k
            → get_elem? ls i
              ≡ get_elem? p.loops (((p.next + 1) % length p.loops + i) % length p.loops))
        → (i : ℕ) → i < suc k
        → get_elem? (l ∷ ls) i ≡ get_elem? p.loops ((p.next + i) % length p.loops)
    places l e ls at zero lt = sym (
        ap (get_elem? p.loops) (ap (λ n. n % length p.loops) (add-zero p.next) ∙ mod-eq_of_lt h)
        ∙ e)
    places l e ls at (suc i) lt =
        at i (omega arith)
        ∙ ap (get_elem? p.loops) (
            mod-add-mod (p.next + 1) (length p.loops) i
            ∙ ap (λ n. n % length p.loops) (omega arith))
