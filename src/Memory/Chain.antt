-- ===== src/Memory/Chain.antt =====
-- Chains of free blocks in memory, each block with the address of the next in its first word, as the
-- caches of cpp_learning_projects/memory-mgkl keep them.
use learn_note.Prelude.{
  ℕ, zero, suc, ◌<◌, ◌==◌, ◌≡◌, ◌≢◌, refl, sym, subst, ap, ◌∙◌, Bool-cases, inl, inr, false, List,
  [], ◌∷◌, arith, length, take, drop, if-true, if-false,
}
use learn_note.Memory.CentralCache.{store, last_of}
use learn_note.Memory.ThreadCache.{walk}

-- The chain from an address, up to the null pointer.
abbrev pub Chain : (ℕ → ℕ) → ℕ → List ℕ → Type 0
Chain w a [] = a ≡ 0
Chain w a (x ∷ xs) = (a ≡ x) × (x ≢ 0) × Chain w (w x) xs

abbrev pub NotIn : ℕ → List ℕ → Type 0
NotIn b [] = Unit {0}
NotIn b (x ∷ xs) = (b ≢ x) × NotIn b xs

abbrev pub Distinct : List ℕ → Type 0
Distinct [] = Unit {0}
Distinct (x ∷ xs) = NotIn x xs × Distinct xs

-- An address is none of those that are in no such list.
abbrev pub Among : ℕ → List ℕ → Type 0
Among a xs = (b : ℕ) → NotIn b xs → b ≢ a

pub Chain-store :
    (w : ℕ → ℕ) (b v a : ℕ) (xs : List ℕ) → NotIn b xs → Chain w a xs → Chain (store w b v) a xs
Chain-store w b v a [] n c = c
Chain-store w b v a (x ∷ xs) (ne, n) (e, nz, c) =
    let same : store w b v x ≡ w x = ground arith in
    (e, nz, Chain-store w b v (store w b v x) xs n (rw same c))

Chain-nonzero : (w : ℕ → ℕ) (a : ℕ) (xs : List ℕ) → Chain w a xs → 0 < length xs → a ≢ 0
Chain-nonzero w a [] c h = absurd (omega arith)
Chain-nonzero w a (x ∷ xs) (e, nz, c) h = λ z. nz (sym e ∙ z)

-- A chain cut behind its `k`-th block.
pub record Cut (w : ℕ → ℕ) (s a k : ℕ) (xs : List ℕ) : Type 0 where
  pub split : s ≢ 0
  pub among : Among s xs
  pub kept : Chain (store w s 0) a (take (suc k) xs)
  pub behind : Chain w (w s) (drop (suc k) xs)
  pub left : NotIn s (drop (suc k) xs)
  pub apart : (y : ℕ) → Among y (drop (suc k) xs) → NotIn y (take (suc k) xs)

NotIn-take : (b k : ℕ) (xs : List ℕ) → NotIn b xs → NotIn b (take k xs)
NotIn-take b zero xs n = tt
NotIn-take b (suc k) [] n = tt
NotIn-take b (suc k) (x ∷ xs) (ne, n) = (ne, NotIn-take b k xs n)

NotIn-drop : (b k : ℕ) (xs : List ℕ) → NotIn b xs → NotIn b (drop k xs)
NotIn-drop b zero xs n = n
NotIn-drop b (suc k) [] n = tt
NotIn-drop b (suc k) (x ∷ xs) (ne, n) = NotIn-drop b k xs n

-- What is among the blocks behind a cut is not among those kept.
apart : (k y : ℕ) (xs : List ℕ) → Distinct xs → Among y (drop k xs) → NotIn y (take k xs)
apart zero y xs d a = tt
apart (suc k) y [] d a = tt
apart (suc k) y (x ∷ xs) (n, d) a = (λ e. a x (NotIn-drop x k xs n) (sym e), apart k y xs d a)

pub walk-Cut :
    (w : ℕ → ℕ) (k a : ℕ) (xs : List ℕ)
    → Chain w a xs
    → Distinct xs
    → k < length xs
    → Cut w (walk w k a) a k xs
unfolding walk
walk-Cut w zero a [] c d h = absurd (omega arith)
walk-Cut w zero a (x ∷ xs) (e, nz, c) (n, d) h =
    let here : store w a 0 x ≡ 0 = ground arith in
    record {
      split = λ z. nz (sym e ∙ z);
      among = λ b m f. m.0 (f ∙ e);
      kept = (e, nz, here);
      behind = rw e c;
      left = subst (λ b. NotIn b xs) (sym e) n;
      apart = λ y m. apart 1 y (x ∷ xs) (n, d) m;
    }
walk-Cut w (suc k) a [] c d h = absurd (omega arith)
walk-Cut w (suc k) a (x ∷ xs) (e, nz, c) (n, d) h =
    let ih = walk-Cut w k (w x) xs c d (omega arith) in
    let s = walk w k (w x) in
    let goes_on : (w x == 0) ≡ false = ground (arith, Chain-nonzero w (w x) xs c (omega arith)) in
    let same : store w s 0 x ≡ w x = ground (arith, ih.among x n) in
    let cut : Cut w s x (suc k) (x ∷ xs) = record {
      split = ih.split;
      among = λ b m. ih.among b m.1;
      kept = (refl, nz, subst (λ v. Chain (store w s 0) v (take (suc k) xs)) (sym same) ih.kept);
      behind = ih.behind;
      left = ih.left;
      apart = λ y m. apart (suc (suc k)) y (x ∷ xs) (n, d) m;
    } in
    subst (λ b. Cut w (walk w (suc k) b) b (suc k) (x ∷ xs)) (sym e)
      (subst (λ v. Cut w v x (suc k) (x ∷ xs)) (sym (if-false _ _ goes_on)) cut)

-- The last block of a chain, or one before it, is among its blocks.
pub last_of-Among :
    (w : ℕ → ℕ) (k a : ℕ) (xs : List ℕ) → Chain w a xs → a ≢ 0 → Among (last_of w k a) xs
unfolding last_of
last_of-Among w k a [] c nz = absurd (nz c)
last_of-Among w zero a (x ∷ xs) (e, z, c) nz = λ b m f. m.0 (f ∙ e)
last_of-Among w (suc k) a (x ∷ xs) (e, z, c) nz = elim (Bool-cases (w a == 0)) [
  | inl h ↦ λ b m f. m.0 (f ∙ if-true _ _ h ∙ e)
  | inr h ↦
      let more : w x ≢ 0 = ground arith in
      λ b m f.
        last_of-Among w k (w x) xs c more b m.1 (f ∙ if-false _ _ h ∙ ap (λ v. last_of w k (w v)) e)
]
