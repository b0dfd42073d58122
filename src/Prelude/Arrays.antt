-- ===== src/Prelude/Arrays.antt =====
-- Arrays of fixed places (a vector, a block of memory) as lists: reading and overwriting a range,
-- growing to a size, and the operations on 64-bit sizes.
use Prim.Native.Nat.{ℕ, zero, suc, ◌+◌, ◌-◌, ◌%◌, ◌^◌, ◌≤◌}
use Prim.Native.Nat.add
use mathlib.Core.Path.{◌≡◌, refl, ap, ◌∙◌}
use mathlib.Core.List.{List, [], ◌∷◌, ◌++◌}
use native.Mathlib.Omega.{arith}
use learn_note.Prelude.Lists.{length, take, drop, length-take}

-- `size_t` arithmetic wraps at 2^64.
abbrev pub add_size : ℕ → ℕ → ℕ
add_size a b = (a + b) % 2 ^ 64

abbrev pub sub_size : ℕ → ℕ → ℕ
sub_size a b = (a + 2 ^ 64 - b) % 2 ^ 64

module _ {ℓ} {A : Type ℓ} where
  -- The `n` items from index `i` on, fewer where the array ends.
  unfoldable pub slice : List A → ℕ → ℕ → List A
  slice [] i n = []
  slice (x ∷ xs) zero n = take n (x ∷ xs)
  slice (x ∷ xs) (suc i) n = slice xs i n

  -- Items written from index `i` on; what would fall past the end is not written.
  unfoldable pub write_at : List A → ℕ → List A → List A
  write_at [] i ys = []
  write_at (x ∷ xs) zero [] = x ∷ xs
  write_at (x ∷ xs) zero (y ∷ ys) = y ∷ write_at xs zero ys
  write_at (x ∷ xs) (suc i) ys = x ∷ write_at xs i ys

  -- `vector::resize`, new places filled with `d`.
  unfoldable pub resize : ℕ → A → List A → List A
  resize zero d xs = []
  resize (suc n) d [] = d ∷ resize n d []
  resize (suc n) d (x ∷ xs) = x ∷ resize n d xs

  pub length-write_at : (xs : List A) (i : ℕ) (ys : List A) → length (write_at xs i ys) ≡ length xs
  unfolding write_at
  length-write_at [] i ys = refl
  length-write_at (x ∷ xs) zero [] = refl
  length-write_at (x ∷ xs) zero (y ∷ ys) = ap suc (length-write_at xs zero ys)
  length-write_at (x ∷ xs) (suc i) ys = ap suc (length-write_at xs i ys)

  pub length-resize : (n : ℕ) (d : A) (xs : List A) → length (resize n d xs) ≡ n
  unfolding resize
  length-resize zero d xs = refl
  length-resize (suc n) d [] = ap suc (length-resize n d [])
  length-resize (suc n) d (x ∷ xs) = ap suc (length-resize n d xs)

  pub slice-zero : (xs : List A) (i : ℕ) → slice xs i 0 ≡ []
  unfolding slice
  slice-zero [] i = refl
  slice-zero (x ∷ xs) zero = refl
  slice-zero (x ∷ xs) (suc i) = slice-zero xs i

  take-resize :
      (n m : ℕ) (d : A) (xs : List A) → m ≤ length xs → m ≤ n → take m (resize n d xs) ≡ take m xs
  unfolding resize
  take-resize n zero d xs h k = refl
  take-resize zero (suc m) d xs h k = absurd (omega arith)
  take-resize (suc n) (suc m) d [] h k = absurd (omega arith)
  take-resize (suc n) (suc m) d (x ∷ xs) h k =
      ap (◌∷◌ x) (take-resize n m d xs (omega arith) (omega arith))

  -- Growing keeps what lies in the old array.
  pub slice-resize :
      (n : ℕ) (d : A) (xs : List A) (i m : ℕ)
      → i + m ≤ length xs
      → length xs ≤ n
      → slice (resize n d xs) i m ≡ slice xs i m
  unfolding slice resize
  slice-resize zero d [] i m h k = refl
  slice-resize (suc n) d [] i zero h k = slice-zero (resize (suc n) d []) i
  slice-resize (suc n) d [] i (suc m) h k = absurd (omega arith)
  slice-resize zero d (x ∷ xs) i m h k = absurd (omega arith)
  slice-resize (suc n) d (x ∷ xs) zero m h k =
      take-resize (suc n) m d (x ∷ xs) (omega arith) (omega arith)
  slice-resize (suc n) d (x ∷ xs) (suc i) m h k =
      slice-resize n d xs i m (omega arith) (omega arith)

  take_add : (n m : ℕ) (xs : List A) → n ≤ length xs → take (n + m) xs ≡ take n xs ++ slice xs n m
  unfolding slice
  take_add zero m [] h = rw (add.zero m) (take_nil m)
    where
      take_nil : (k : ℕ) → take {A = A} k [] ≡ []
      take_nil zero = refl
      take_nil (suc k) = refl
  take_add zero m (x ∷ xs) h = rw (add.zero m) refl
  take_add (suc n) m [] h = absurd (omega arith)
  take_add (suc n) m (x ∷ xs) h = rw (add.suc n m) (ap (◌∷◌ x) (take_add n m xs (omega arith)))

  -- A range is the join of its two parts.
  pub slice_add :
      (xs : List A) (i n m : ℕ)
      → i + n ≤ length xs
      → slice xs i (n + m) ≡ slice xs i n ++ slice xs (i + n) m
  unfolding slice
  slice_add [] i n m h = refl
  slice_add (x ∷ xs) zero n m h = rw (add.zero n) (take_add n m (x ∷ xs) (omega arith))
  slice_add (x ∷ xs) (suc i) n m h = rw (add.suc i n) (slice_add xs i n m (omega arith))

  pub length-slice : (xs : List A) (i n : ℕ) → i + n ≤ length xs → length (slice xs i n) ≡ n
  unfolding slice
  length-slice [] i n h = omega arith
  length-slice (x ∷ xs) zero n h = omega (arith, length-take n (x ∷ xs))
  length-slice (x ∷ xs) (suc i) n h = length-slice xs i n (omega arith)

  take-write_at :
      (xs ys : List A) → length ys ≤ length xs → take (length ys) (write_at xs zero ys) ≡ ys
  unfolding write_at
  take-write_at [] [] h = refl
  take-write_at [] (y ∷ ys) h = absurd (omega arith)
  take-write_at (x ∷ xs) [] h = refl
  take-write_at (x ∷ xs) (y ∷ ys) h = ap (◌∷◌ y) (take-write_at xs ys (omega arith))

  -- What was written is read back.
  pub slice-write_at_self :
      (xs : List A) (i : ℕ) (ys : List A)
      → i + length ys ≤ length xs
      → slice (write_at xs i ys) i (length ys) ≡ ys
  unfolding slice write_at
  slice-write_at_self [] i [] h = refl
  slice-write_at_self [] i (y ∷ ys) h = absurd (omega arith)
  slice-write_at_self (x ∷ xs) zero [] h = refl
  slice-write_at_self (x ∷ xs) zero (y ∷ ys) h = take-write_at (x ∷ xs) (y ∷ ys) (omega arith)
  slice-write_at_self (x ∷ xs) (suc i) ys h = slice-write_at_self xs i ys (omega arith)

  take-write_at_before :
      (xs : List A) (i n : ℕ) (ys : List A) → n ≤ i → take n (write_at xs i ys) ≡ take n xs
  unfolding write_at
  take-write_at_before xs i zero ys h = refl
  take-write_at_before [] i (suc n) ys h = refl
  take-write_at_before (x ∷ xs) zero (suc n) ys h = absurd (omega arith)
  take-write_at_before (x ∷ xs) (suc i) (suc n) ys h =
      ap (◌∷◌ x) (take-write_at_before xs i n ys (omega arith))

  pub slice_front : (n : ℕ) (zs : List A) → slice zs zero n ≡ take n zs
  unfolding slice
  slice_front zero [] = refl
  slice_front (suc n) [] = refl
  slice_front n (z ∷ zs) = refl

  -- A range below the written one is as it was.
  pub slice-write_at_before :
      (xs : List A) (i n j : ℕ) (ys : List A)
      → i + n ≤ j
      → slice (write_at xs j ys) i n ≡ slice xs i n
  unfolding slice write_at
  slice-write_at_before [] i n j ys h = refl
  slice-write_at_before (x ∷ xs) zero n j ys h =
      slice_front n (write_at (x ∷ xs) j ys) ∙ take-write_at_before (x ∷ xs) j n ys (omega arith)
  slice-write_at_before (x ∷ xs) (suc i) n zero ys h = absurd (omega arith)
  slice-write_at_before (x ∷ xs) (suc i) n (suc j) ys h =
      slice-write_at_before xs i n j ys (omega arith)

  -- A range from a later index on is the range less its first items.
  pub drop-slice :
      (xs : List A) (i n m : ℕ)
      → i + n + m ≤ length xs
      → drop n (slice xs i (n + m)) ≡ slice xs (i + n) m
  drop-slice xs i n m h =
      rw (slice_add xs i n m (omega arith))
        (drop_front n (slice xs i n) (slice xs (i + n) m) (length-slice xs i n (omega arith)))
    where
      drop_front : (k : ℕ) (ys zs : List A) → length ys ≡ k → drop k (ys ++ zs) ≡ zs
      drop_front zero [] zs e = refl
      drop_front zero (y ∷ ys) zs e = absurd (omega arith)
      drop_front (suc k) [] zs e = absurd (omega arith)
      drop_front (suc k) (y ∷ ys) zs e = drop_front k ys zs (omega arith)

  pub take-slice :
      (xs : List A) (i n m : ℕ) → i + n ≤ length xs → take n (slice xs i (n + m)) ≡ slice xs i n
  take-slice xs i n m h =
      rw (slice_add xs i n m h)
        (take_front n (slice xs i n) (slice xs (i + n) m) (length-slice xs i n h))
    where
      take_front : (k : ℕ) (ys zs : List A) → length ys ≡ k → take k (ys ++ zs) ≡ ys
      take_front zero [] zs e = refl
      take_front zero (y ∷ ys) zs e = absurd (omega arith)
      take_front (suc k) [] zs e = absurd (omega arith)
      take_front (suc k) (y ∷ ys) zs e = ap (◌∷◌ y) (take_front k ys zs (omega arith))

  -- The first `n` items of a range and the rest, as ranges.
  pub slice-split :
      (xs : List A) (i n t : ℕ)
      → n ≤ t
      → i + t ≤ length xs
      → (take n (slice xs i t) ≡ slice xs i n) × (drop n (slice xs i t) ≡ slice xs (i + n) (t - n))
  slice-split xs i n t h k =
      let e : t ≡ n + (t - n) = omega arith in
      (
        ap (λ s. take n (slice xs i s)) e ∙ take-slice xs i n (t - n) (omega arith),
        ap (λ s. drop n (slice xs i s)) e ∙ drop-slice xs i n (t - n) (omega arith),
      )
