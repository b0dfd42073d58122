-- ===== src/Algorithm/Cycle/Nodes.antt =====
-- The nodes that a list visits, in order, and what becomes of them.
use learn_note.Prelude.{
  ℕ, zero, suc, ◌+◌, ◌-◌, ◌*◌, ◌≤◌, ◌≡◌, ◌≢◌, refl, sym, ap, ◌∙◌, Option, none, some, arith,
  Option-cases, inl, inr, true,
}
use learn_note.Algorithm.Cycle.{same}

pub same_self : (p : Option ℕ) → same p p ≡ true
unfolding same
same_self none = refl
same_self (some a) = ground arith

pub same_eq : (p q : Option ℕ) → same p q ≡ true → p ≡ q
unfolding same
same_eq none none e = refl
same_eq none (some b) e = absurd (cc e)
same_eq (some a) none e = absurd (cc e)
same_eq (some a) (some b) e = ap some (ground arith)

abbrev pub follow : (ℕ → Option ℕ) → Option ℕ → Option ℕ
follow next none = none
follow next (some a) = next a

pub many : (m p : ℕ) → 1 ≤ p → m ≤ m * p
many zero p h = omega arith
many (suc m) p h = omega (arith, many m p h)

module _ (next : ℕ → Option ℕ) (head : Option ℕ) where
  -- The node after `k` steps, null from the end on.
  abbrev pub node : ℕ → Option ℕ
  node zero = head
  node (suc k) = follow next (node k)

  pub node_at : (a b : ℕ) → a ≡ b → node a ≡ node b
  node_at a b e = ap node e

  null_step : (n m : ℕ) → node n ≡ none → node (n + m) ≡ none
  null_step n zero e = node_at (n + 0) n (omega arith) ∙ e
  null_step n (suc m) e =
      node_at (n + suc m) (suc (n + m)) (omega arith) ∙ ap (follow next) (null_step n m e)

  pub null_after : (n m : ℕ) → node n ≡ none → n ≤ m → node m ≡ none
  null_after n m e h = node_at m (n + (m - n)) (omega arith) ∙ null_step n (m - n) e

  -- Before a node there are nodes.
  pub some_before : (n m : ℕ) {g : ℕ} → node m ≡ some g → n ≤ m → (a : ℕ) × (node n ≡ some a)
  some_before n m {g} e h = elim (Option-cases (node n)) [
    | inl z ↦ absurd (cc (e, null_after n m z h))
    | inr s ↦ s
  ]

  module _ (i p : ℕ) (e : node (i + p) ≡ node i) where
    again : (m : ℕ) → node (i + m + p) ≡ node (i + m)
    again zero = node_at (i + 0 + p) (i + p) (omega arith) ∙ e ∙ node_at i (i + 0) (omega arith)
    again (suc m) =
        node_at (i + suc m + p) (suc (i + m + p)) (omega arith)
        ∙ ap (follow next) (again m)
        ∙ node_at (suc (i + m)) (i + suc m) (omega arith)

    -- From the first node that comes again, every round of the cycle comes back.
    pub node-periodic : (m : ℕ) → i ≤ m → (q : ℕ) → node (m + q * p) ≡ node m
    node-periodic m h zero = node_at (m + 0 * p) m (omega arith)
    node-periodic m h (suc q) =
        node_at (m + suc q * p) (i + (m - i + q * p) + p) (omega arith)
        ∙ again (m - i + q * p)
        ∙ node_at (i + (m - i + q * p)) (m + q * p) (omega arith)
        ∙ node-periodic m h q

    pub node-some : 1 ≤ p → node i ≢ none → (m : ℕ) → node m ≢ none
    node-some h k m z = k (
        sym (node-periodic i (omega arith) m)
        ∙ null_after m (i + m * p) z (omega (arith, many m p h)))
