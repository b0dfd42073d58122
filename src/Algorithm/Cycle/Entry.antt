-- ===== src/Algorithm/Cycle/Entry.antt =====
-- Where a cycle begins, and what the search does on a list that has none.
use learn_note.Prelude.{
  ℕ, zero, suc, ◌+◌, ◌*◌, ◌≤◌, ◌<◌, ◌≡◌, ◌≢◌, refl, sym, ap, ap₂, ◌∙◌, Option, none, some, arith,
  Option-cases, inl, inr, false, if-true, if-false, Bool-cases, ℕ_discrete,
}
use learn_note.Algorithm.Cycle.{crashed, returned, same, race, entry, find_entry, detect_cycle}
use learn_note.Algorithm.Cycle.Nodes.{
  same_self, same_eq, follow, many, node, node_at, null_after, some_before, node-periodic,
  node-some,
}
use learn_note.Algorithm.Cycle.Detection.{Ended, ends_race, Met, meets_race, meeting}

round_trips : (m i p : ℕ) → 1 ≤ p → (q : ℕ) × (m + m + i + q * m ≡ i + (m + m) * p)
round_trips m i zero h = absurd (omega arith)
round_trips m i (suc p) h = (p + p, omega arith)

module _ (next : ℕ → Option ℕ) where
  -- The guards at the start let a list with a second node pass.
  detect_cycle-race :
      (head : Option ℕ) (fuel h n : ℕ)
      → head ≡ some h
      → next h ≡ some n
      → detect_cycle next fuel head ≡ find_entry next fuel head (race next fuel head head)
  unfolding detect_cycle
  detect_cycle-race head fuel h n e g = rw (e, detect_cycle, g) refl

  entry-same :
      (fuel : ℕ) (slow fast : Option ℕ) → slow ≡ fast → entry next fuel slow fast ≡ returned slow
  unfolding entry
  entry-same zero slow fast e = if-true _ _ (ap (same slow) (sym e) ∙ same_self slow)
  entry-same (suc fuel) slow fast e = if-true _ _ (ap (same slow) (sym e) ∙ same_self slow)

  entry-next :
      (fuel s f : ℕ) (slow fast : Option ℕ)
      → same slow fast ≡ false
      → slow ≡ some s
      → fast ≡ some f
      → entry next (suc fuel) slow fast ≡ entry next fuel (next s) (next f)
  unfolding entry
  entry-next fuel s f slow fast n d e =
      if-false _ _ n
      ∙ ap₂
          (λ x y. elim x [
            | none ↦ crashed
            | some f ↦ elim y [ none ↦ crashed | some s ↦ entry next fuel (next s) (next f) ]
          ])
          e d

  entry-null :
      (fuel : ℕ) (slow fast : Option ℕ)
      → same slow fast ≡ false
      → fast ≡ none
      → entry next (suc fuel) slow fast ≡ crashed
  unfolding entry
  entry-null fuel slow fast n e =
      if-false _ _ n
      ∙ ap
          (λ x. elim x [
            | none ↦ crashed
            | some f ↦ elim slow [ none ↦ crashed | some s ↦ entry next fuel (next s) (next f) ]
          ])
          e

  module _ (head : Option ℕ) (i p : ℕ) (h : 1 ≤ p) (e : node next head (i + p) ≡ node next head i)
      (k : node next head i ≢ none)
      (first : (a b : ℕ) → a < b → node next head a ≡ node next head b → i ≤ a) where
    -- Both pointers come to the entry together.
    together :
        (m : ℕ)
        → 1 ≤ m
        → node next head m ≡ node next head (m + m)
        → node next head (m + m + i) ≡ node next head i
    together m a d =
        let (q, eq) = round_trips m i p h in
        sym (node-periodic next head m m (sym d) (m + m + i) (omega arith) q)
        ∙ node_at next head (m + m + i + q * m) (i + (m + m) * p) eq
        ∙ node-periodic next head i p e i (omega arith) (m + m)

    still_there : (m : ℕ) → (a : ℕ) × (node next head m ≡ some a)
    still_there m = elim (Option-cases (node next head m)) [
      | inl z ↦ absurd (node-some next head i p e h k m z)
      | inr s ↦ s
    ]

    node-next : (m a : ℕ) → node next head m ≡ some a → next a ≡ node next head (suc m)
    node-next m a z = sym (ap (follow next) z)

    -- Until the entry the pointers differ, because no node before it comes twice.
    not_yet :
        (m j : ℕ) → 1 ≤ m → j < i → same (node next head j) (node next head (m + m + j)) ≡ false
    not_yet m j a b = elim (Bool-cases (same (node next head j) (node next head (m + m + j)))) [
      | inl t ↦
          let z : i ≤ j = first j (m + m + j) (omega arith) (same_eq _ _ t) in
          absurd (omega (arith, z, b))
      | inr t ↦ t
    ]

    entry_now :
        (fuel m j : ℕ)
        → 1 ≤ m
        → node next head m ≡ node next head (m + m)
        → j ≡ i
        → entry next fuel (node next head j) (node next head (m + m + j))
          ≡ returned (node next head i)
    entry_now fuel m j a d z =
        let q = node_at next head j i z in
        let q' = node_at next head (m + m + j) (m + m + i) (omega arith) in
        entry-same fuel _ _ (q ∙ sym (together m a d) ∙ sym q') ∙ ap returned q

    entry_from :
        (fuel m j : ℕ)
        → 1 ≤ m
        → node next head m ≡ node next head (m + m)
        → j ≤ i
        → i ≤ j + fuel
        → entry next fuel (node next head j) (node next head (m + m + j))
          ≡ returned (node next head i)
    entry_from zero m j a d l l' = entry_now zero m j a d (omega arith)
    entry_from (suc fuel) m j a d l l' = elim (ℕ_discrete j i) [
      | yes z ↦ entry_now (suc fuel) m j a d z
      | no n ↦
          let (x, u) = still_there j in
          let (y, v) = still_there (m + m + j) in
          entry-next fuel x y _ _ (not_yet m j a (omega arith)) u v
          ∙ ap₂ (entry next fuel) (node-next j x u) (
              node-next (m + m + j) y v
              ∙ node_at next head (suc (m + m + j)) (m + m + suc j) (omega arith))
          ∙ entry_from fuel m (suc j) a d (omega arith) (omega arith)
    ]

-- With enough rounds `detectCycle` answers the node where the list first comes back, which is the one after
-- `i` steps: no two of its nodes are the same before that.
pub detect_cycle-entry :
    (next : ℕ → Option ℕ) (head : Option ℕ) (i p fuel : ℕ)
    → 1 ≤ p
    → node next head (i + p) ≡ node next head i
    → node next head i ≢ none
    → ((a b : ℕ) → a < b → node next head a ≡ node next head b → i ≤ a)
    → suc i * p ≤ fuel
    → detect_cycle next fuel head ≡ returned (node next head i)
unfolding Met find_entry
detect_cycle-entry next head i p fuel h e k first l =
    let far = many (suc i) p h in
    let (m, a, d, r) =
      meets_race next head fuel 0 (suc i * p) (node-some next head i p e h k)
        (meeting next head i p h e) (omega (arith, far)) (omega arith) in
    let (x, u) = still_there next head i p h e k first 0 in
    let (y, v) = still_there next head i p h e k first 1 in
    detect_cycle-race next head fuel x y u (sym (ap (follow next) u) ∙ v)
    ∙ ap (find_entry next fuel head) r
    ∙ ap (entry next fuel head) (node_at next head (m + m) (m + m + 0) (omega arith))
    ∙ entry_from next head i p h e k first fuel m 0 a d (omega arith) (omega (arith, far))

-- The second loop, from the head and a last node, or from behind it.
entry-crashed :
    (next : ℕ → Option ℕ) (head : Option ℕ) (n m y fuel : ℕ)
    → node next head 1 ≡ some y
    → node next head n ≡ none
    → node next head (suc m) ≡ none
    → entry next (suc (suc fuel)) head (node next head m) ≡ crashed
unfolding same
entry-crashed next head n m y fuel c e z =
    let (x, u) = some_before next head 0 1 c (omega arith) in
    elim (Option-cases (node next head m)) [
      | inl w ↦ entry-null next (suc fuel) head (node next head m) (ap₂ same u w) w
      | inr (f, w) ↦ elim (Bool-cases (same head (node next head m))) [
        | inl t ↦
            let far : 1 ≤ m = elim (ℕ_discrete m 0) [
              | yes g ↦ absurd (cc (c, z, node_at next head (suc m) 1 (ap suc g)))
              | no g ↦ omega arith
            ] in
            let back = sym (same_eq _ _ t) in
            absurd (
              node-some next head 0 m (node_at next head (0 + m) m (omega arith) ∙ back) far
                (λ g. absurd (cc (g, u))) n e)
        | inr t ↦
            let before = sym (ap (follow next) u) ∙ c in
            let behind = sym (ap (follow next) w) ∙ z in
            entry-next next (suc fuel) x f head (node next head m) t u w
            ∙ entry-null next fuel (next x) (next f) (ap₂ same before behind) behind
      ]
    ]

-- A list of two nodes or more that ends: with enough rounds the second loop of `detectCycle`, which does not
-- know that no cycle was found, reads through a null pointer.
pub detect_cycle-crashed :
    (next : ℕ → Option ℕ) (head : Option ℕ) (n fuel : ℕ)
    → node next head 1 ≢ none
    → node next head n ≡ none
    → n + 1 ≤ fuel
    → detect_cycle next fuel head ≡ crashed
unfolding Ended find_entry
detect_cycle-crashed next head n zero k e l = absurd (omega arith)
detect_cycle-crashed next head n (suc zero) k e l =
    absurd (k (null_after next head n 1 e (omega arith)))
detect_cycle-crashed next head n (suc (suc fuel)) k e l = elim (Option-cases (node next head 1)) [
  | inl z ↦ absurd (k z)
  | inr (y, c) ↦
      let (x, u) = some_before next head 0 1 c (omega arith) in
      let (m, r, z) = ends_race next head (suc fuel) 0 n e (omega arith) in
      detect_cycle-race next head (suc (suc fuel)) x y u (sym (ap (follow next) u) ∙ c)
      ∙ ap (find_entry next (suc (suc fuel)) head) r
      ∙ entry-crashed next head n m y fuel c e z
]
