-- ===== src/Algorithm/Dijkstra/Scan.antt =====
-- What the search for the nearest node finds.
use learn_note.Prelude.{
  ℕ, zero, suc, ◌+◌, ◌≤◌, ◌<◌, ◌≡◌, inl, inr, subst, Bool-cases, true, false, not, ◌&&◌, Option,
  none, some, if◌then◌else◌, arith, ltb,
}
use learn_note.Algorithm.Dijkstra.{int_max, Search, nearest}

-- `u` is a nearest node of those below `n` that are not visited, or there is none at a distance below
-- INT_MAX.
pub data Nearest (s : Search) (n : ℕ) : Option ℕ → Type 0 where
  nowhere : ((b : ℕ) → b < n → s.visited b ≡ false → int_max ≤ s.dist b) → Nearest s n none
  found :
      (u : ℕ)
      → u < n
      → s.visited u ≡ false
      → s.dist u < int_max
      → ((b : ℕ) → b < n → s.visited b ≡ false → s.dist u ≤ s.dist b)
      → Nearest s n (some u)

-- The state of the loop after the nodes below `j`.
data Best (s : Search) (j : ℕ) : ℕ → Option ℕ → Type 0 where
  none_yet : ((b : ℕ) → b < j → s.visited b ≡ false → int_max ≤ s.dist b) → Best s j int_max none
  best :
      (u : ℕ)
      → u < j
      → s.visited u ≡ false
      → s.dist u < int_max
      → ((b : ℕ) → b < j → s.visited b ≡ false → s.dist u ≤ s.dist b)
      → Best s j (s.dist u) (some u)

Best-end : {s : Search} {j min : ℕ} {u : Option ℕ} → Best s j min u → Nearest s j u
Best-end (none_yet far) = nowhere far
Best-end (best u below fresh near least) = found u below fresh near least

-- Relaxation more node.
closer-Best :
    {s : Search} {j min : ℕ} {u : Option ℕ}
    → Best s j min u
    → ltb (s.dist j) min ≡ true
    → s.visited j ≡ false
    → Best s (j + 1) (s.dist j) (some j)
closer-Best (none_yet far) less fresh =
    best _ (omega arith) fresh (ground (arith, less)) (λ b h v. ground (arith, h, v, less, far b))
closer-Best (best u below used near least) less fresh =
    best _ (omega arith) fresh (ground (arith, less, near))
      (λ b h v. ground (arith, h, v, less, least b))

farther-Best :
    {s : Search} {j min : ℕ} {u : Option ℕ}
    → Best s j min u
    → (ltb (s.dist j) min && not (s.visited j)) ≡ false
    → Best s (j + 1) min u
farther-Best (none_yet far) more = none_yet (λ b h v. ground (arith, h, v, more, far b))
farther-Best (best u below used near least) more =
    best u (omega (arith, below)) used near (λ b h v. ground (arith, h, v, more, least b))

advance-Best :
    (s : Search) (j min : ℕ) (u : Option ℕ)
    → Best s j min u
    → let closer = ltb (s.dist j) min && not (s.visited j) in
      Best s (j + 1) (if closer then s.dist j else min) (if closer then some j else u)
advance-Best s j min u b = elim (Bool-cases (ltb (s.dist j) min && not (s.visited j))) [
  | inl t ↦ rw t (closer-Best b (ground (arith, t)) (ground (arith, t)))
  | inr f ↦ rw f (farther-Best b f)
]

nearest-Best :
    (s : Search) (count j min : ℕ) (u : Option ℕ)
    → Best s j min u
    → Nearest s (j + count) (nearest s count j min u)
unfolding nearest
nearest-Best s zero j min u b = subst (λ n. Nearest s n u) (omega arith) (Best-end b)
nearest-Best s (suc count) j min u b =
    let closer = ltb (s.dist j) min && not (s.visited j) in
    let min' = if closer then s.dist j else min in
    let u' = if closer then some j else u in
    subst (λ n. Nearest s n (nearest s count (j + 1) min' u')) (omega arith)
      (nearest-Best s count (j + 1) min' u' (advance-Best s j min u b))

-- The search over all nodes.
pub nearest-Nearest : (s : Search) (n : ℕ) → Nearest s n (nearest s n 0 int_max none)
nearest-Nearest s n =
    subst (λ m. Nearest s m (nearest s n 0 int_max none)) {x = 0 + n} (omega arith)
      (nearest-Best s n 0 int_max none (none_yet (λ b h v. absurd (omega (arith, h)))))
