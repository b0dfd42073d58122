-- ===== src/Algorithm/Cycle/Detection.antt =====
-- Whether a list has a cycle, and that the loop ends with the answer.
use learn_note.Prelude.{
  ℕ, zero, suc, ◌+◌, ◌*◌, ◌≤◌, ◌<◌, ◌≡◌, ◌≢◌, refl, sym, ap, ap₂, ◌∙◌, subst, Option, none, some,
  arith, Option-cases, ◌⊎◌, inl, inr, Bool, true, false, if◌then◌else◌, if-true, if-false,
  Bool-cases,
}
use learn_note.Algorithm.Cycle.{Walk, returned, same, race, met, has_cycle}
use learn_note.Algorithm.Cycle.Nodes.{
  same_self, same_eq, follow, many, node, node_at, null_after, some_before, node-periodic,
  node-some,
}

module _ (next : ℕ → Option ℕ) where
  -- The two ways in which the guard fails, and the round.
  race-null :
      (fuel : ℕ) (slow fast : Option ℕ)
      → fast ≡ none
      → race next (suc fuel) slow fast ≡ returned (false, none)
  unfolding race
  race-null fuel slow fast e = rw e refl

  race-last :
      (fuel f : ℕ) (slow fast : Option ℕ)
      → fast ≡ some f
      → next f ≡ none
      → race next (suc fuel) slow fast ≡ returned (false, some f)
  unfolding race
  race-last fuel f slow fast e g = rw (e, race, g) refl

  race-round :
      (fuel s f g : ℕ) (slow fast : Option ℕ)
      → slow ≡ some s
      → fast ≡ some f
      → next f ≡ some g
      → race next (suc fuel) slow fast ≡ (
          if same (next s) (next g)
          then returned (true, next g)
          else race next fuel (next s) (next g))
  unfolding race
  race-round fuel s f g slow fast d e h = rw (e, race, h, d) refl

  module _ (head : Option ℕ) where
    -- The loop after `k` rounds.
    abbrev pub race_at : (fuel k : ℕ) → Walk (Bool × Option ℕ)
    race_at fuel k = race next fuel (node next head k) (node next head (k + k))

    node-next : (k f : ℕ) → node next head k ≡ some f → next f ≡ node next head (suc k)
    node-next k f e = sym (ap (follow next) e)

    -- A round, where there are two more nodes.
    round-node :
        (fuel k f g : ℕ)
        → node next head (k + k) ≡ some f
        → node next head (suc (k + k)) ≡ some g
        → race_at (suc fuel) k ≡ (
            if same (node next head (suc k)) (node next head (suc k + suc k))
            then returned (true, node next head (suc k + suc k))
            else race_at fuel (suc k))
    round-node fuel k f g d e =
        let (s, c) = some_before next head k (k + k) d (omega arith) in
        let after : next g ≡ node next head (suc k + suc k) =
          node-next (suc (k + k)) g e
          ∙ node_at next head (suc (suc (k + k))) (suc k + suc k) (omega arith) in
        race-round fuel s f g _ _ c d (node-next (k + k) f d ∙ e)
        ∙ ap₂ (λ x y. if same x y then returned (true, y) else race next fuel x y) (node-next k s c)
            after

    -- The loop has come to the end of the list: its last node, or behind it.
    unfoldable pub Ended : (fuel k : ℕ) → Type 0
    Ended fuel k =
        (m : ℕ) × (race_at (suc fuel) k ≡ returned (false, node next head m))
        × (node next head (suc m) ≡ none)

    guard-cases :
        (fuel k : ℕ)
        → Ended fuel k
          ⊎ ((f : ℕ) × (g : ℕ) × (node next head (k + k) ≡ some f)
              × (node next head (suc (k + k)) ≡ some g))
    unfolding Ended
    guard-cases fuel k = elim (Option-cases (node next head (k + k))) [
      | inl z ↦
          inl (
            k + k,
            race-null fuel _ _ z ∙ ap (λ x. returned (false, x)) (sym z),
            ap (follow next) z,
          )
      | inr (f, d) ↦ elim (Option-cases (node next head (suc (k + k)))) [
        | inl z ↦ inl (
          k + k,
          race-last fuel f _ _ d (node-next (k + k) f d ∙ z)
              ∙ ap (λ x. returned (false, x)) (sym d),
          z,
        )
        | inr (g, c) ↦ inr (f, g, d, c)
      ]
    ]

    -- On a list that ends no node comes twice.
    ends-apart :
        (n k g : ℕ)
        → node next head n ≡ none
        → node next head (suc (k + k)) ≡ some g
        → node next head (suc k) ≢ node next head (suc k + suc k)
    ends-apart n k g e c z =
        node-some next head (suc k) (suc k) (sym z) (omega arith)
          (λ w. absurd (cc (c, null_after next head (suc k) (suc (k + k)) w (omega arith)))) n e

    pub ends_race : (fuel k n : ℕ) → node next head n ≡ none → n ≤ k + fuel → Ended fuel k
    unfolding Ended
    ends_race zero k n e h = elim (guard-cases zero k) [
      | inl z ↦ z
      | inr (f, g, d, c) ↦ absurd (cc (c, null_after next head n (suc (k + k)) e (omega arith)))
    ]
    ends_race (suc fuel) k n e h = elim (guard-cases (suc fuel) k) [
      | inl z ↦ z
      | inr (f, g, d, c) ↦
          elim (Bool-cases (same (node next head (suc k)) (node next head (suc k + suc k)))) [
            | inl t ↦ absurd (ends-apart n k g e c (same_eq _ _ t))
            | inr t ↦
                let (m, a, b) = ends_race fuel (suc k) n e (omega arith) in
                (m, round-node (suc fuel) k f g d c ∙ if-false _ _ t ∙ a, b)
          ]
    ]

    -- The loop has found a node that comes again.
    unfoldable pub Met : (fuel k : ℕ) → Type 0
    Met fuel k =
        (m : ℕ) × (1 ≤ m)
        × (node next head m ≡ node next head (m + m))
        × (race_at fuel k ≡ returned (true, node next head (m + m)))

    pub meets_race :
        (fuel k n : ℕ)
        → ((m : ℕ) → node next head m ≢ none)
        → node next head n ≡ node next head (n + n)
        → k < n
        → n ≤ k + fuel
        → Met fuel k
    unfolding Met Ended
    meets_race zero k n a e h l = absurd (omega arith)
    meets_race (suc fuel) k n a e h l = elim (guard-cases fuel k) [
      | inl (m, r, z) ↦ absurd (a (suc m) z)
      | inr (f, g, d, c) ↦
          elim (Bool-cases (same (node next head (suc k)) (node next head (suc k + suc k)))) [
            | inl t ↦ (suc k, omega arith, same_eq _ _ t, round-node fuel k f g d c ∙ if-true _ _ t)
            | inr t ↦
                let apart : suc k ≢ n = (λ z.
                  let twice : node next head (suc k) ≡ node next head (suc k + suc k) =
                    subst (λ x. node next head x ≡ node next head (x + x)) (sym z) e in
                  absurd (
                    cc (
                      sym t
                      ∙ ap (λ x. same x (node next head (suc k + suc k))) twice
                      ∙ same_self _))) in
                let (m, b, q, r) = meets_race fuel (suc k) n a e (omega arith) (omega arith) in
                (m, b, q, round-node fuel k f g d c ∙ if-false _ _ t ∙ r)
          ]
    ]

-- A list ends after some nodes, or comes back to the node after `i` steps, `p` steps later.
pub data Shape (next : ℕ → Option ℕ) (head : Option ℕ) : Type 0 where
  ends : (n : ℕ) → node next head n ≡ none → Shape next head
  returns :
      (i p : ℕ)
      → 1 ≤ p
      → node next head (i + p) ≡ node next head i
      → node next head i ≢ none
      → Shape next head

abbrev pub is_cyclic : {next : ℕ → Option ℕ} {head : Option ℕ} → Shape next head → Bool
is_cyclic (ends n e) = false
is_cyclic (returns i p h e k) = true

-- Rounds that are enough.
abbrev pub rounds : {next : ℕ → Option ℕ} {head : Option ℕ} → Shape next head → ℕ
rounds (ends n e) = n + 1
rounds (returns i p h e k) = suc i * p

-- The two pointers meet after as many steps as are a multiple of the cycle.
pub meeting :
    (next : ℕ → Option ℕ) (head : Option ℕ) (i p : ℕ)
    → 1 ≤ p
    → node next head (i + p) ≡ node next head i
    → node next head (suc i * p) ≡ node next head (suc i * p + suc i * p)
meeting next head i p h e =
    sym (node-periodic next head i p e (suc i * p) (omega (arith, many (suc i) p h)) (suc i))

-- With enough rounds `hasCycle` never reads through a null pointer, and answers whether the list comes back
-- to a node or ends.
pub has_cycle_lem :
    (next : ℕ → Option ℕ) (head : Option ℕ) (shape : Shape next head) (fuel : ℕ)
    → rounds shape ≤ fuel
    → has_cycle next fuel head ≡ returned (is_cyclic shape)
unfolding has_cycle Ended Met
has_cycle_lem next head (ends n e) zero l = absurd (omega arith)
has_cycle_lem next head (ends n e) (suc fuel) l =
    let (m, r, z) = ends_race next head fuel 0 n e (omega arith) in ap met r
has_cycle_lem next head (returns i p h e k) fuel l =
    let (m, a, b, r) =
      meets_race next head fuel 0 (suc i * p) (node-some next head i p e h k)
        (meeting next head i p h e) (omega (arith, many (suc i) p h)) (omega arith) in
    ap met r
