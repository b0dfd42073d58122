-- ===== src/Dbcp/Ledger.antt =====
-- Where each connection is: in the queue, in use, or deleted.
use learn_note.Prelude.{
  occurs, subst, ◌*◌, ℕ, ◌+◌, ◌-◌, ◌≤◌, ◌<◌, ◌==◌, ◌≡◌, refl, some, List, [], ◌∷◌, ◌++◌, arith,
  length, if◌then◌else◌, ltb, leb, Bool-cases, inl, inr,
}
use mathlib.Core.Option.{some-injective}
use learn_note.Dbcp.{Connection, Pool, delete_all, reclaim}

-- How often the connection `i` stands in a list.
abbrev pub occurrences : ℕ → List Connection → ℕ
occurrences i [] = 0
occurrences i (c ∷ cs) = (if c.id == i then 1 else 0) + occurrences i cs

pub occurrences-append :
    (i : ℕ) (xs ys : List Connection)
    → occurrences i (xs ++ ys) ≡ occurrences i xs + occurrences i ys
occurrences-append i [] ys = omega arith
occurrences-append i (c ∷ cs) ys = omega (arith, occurrences-append i cs ys)

pub occurs-delete_all :
    (i : ℕ) (cs : List Connection) (ns : List ℕ)
    → occurs i (delete_all cs ns) ≡ occurrences i cs + occurs i ns
unfolding delete_all
occurs-delete_all i [] ns = omega arith
occurs-delete_all i (c ∷ cs) ns = omega (arith, occurs-delete_all i cs (c.id ∷ ns))

-- What a scan does with the queue `cs` of the pool `p`.
pub record Reclaimed (cs : List Connection) (p q : Pool) : Type 0 where
  pub kept :
      (i : ℕ) → occurrences i q.queue + occurs i q.deleted ≡ occurrences i cs + occurs i p.deleted
  pub sizes : length q.queue + p.count ≡ length cs + q.count
  pub less : q.count ≤ p.count
  pub enough : p.min_size ≤ p.count → p.min_size ≤ q.count
  pub same_min : q.min_size ≡ p.min_size
  pub same_max : q.max_size ≡ p.max_size
  pub same_made : q.made ≡ p.made
  pub same_exiting : q.exiting ≡ p.exiting

Reclaimed-same : (cs : List Connection) (p : Pool) → Reclaimed cs p (record p { queue = cs })
Reclaimed-same cs p = record {
  kept = λ i. refl;
  sizes = refl;
  less = omega arith;
  enough = λ h. h;
  same_min = refl;
  same_max = refl;
  same_made = refl;
  same_exiting = refl;
}

Reclaimed-more :
    (c : Connection) (cs : List Connection) (p q : Pool)
    → p.min_size < p.count
    → Reclaimed cs (record p { count = p.count - 1; deleted = c.id ∷ p.deleted }) q
    → Reclaimed (c ∷ cs) p q
Reclaimed-more c cs p q h r = record {
  kept = λ i. omega (arith, r.kept i);
  sizes = omega (arith, r.sizes);
  less = omega (arith, r.less);
  enough = λ e. r.enough (omega arith);
  same_min = r.same_min;
  same_max = r.same_max;
  same_made = r.same_made;
  same_exiting = r.same_exiting;
}

pub reclaim-Reclaimed :
    (cs : List Connection) (p q : Pool) (now : ℕ) → reclaim cs p now ≡ some q → Reclaimed cs p q
unfolding reclaim
reclaim-Reclaimed [] p q now e = elim (Bool-cases (ltb p.min_size p.count)) [
  | inl h ↦ absurd (cc (rw h at e))
  | inr h ↦ subst (Reclaimed [] p) (some-injective _ _ (rw h at e)) (Reclaimed-same [] p)
]
reclaim-Reclaimed (c ∷ cs) p q now e = elim (Bool-cases (ltb p.min_size p.count)) [
  | inr h ↦
      subst (Reclaimed (c ∷ cs) p) (some-injective _ _ (rw h at e)) (Reclaimed-same (c ∷ cs) p)
  | inl h ↦ elim (Bool-cases (leb (p.max_idle_time * 1000) (now - c.refreshed))) [
    | inl k ↦ Reclaimed-more c cs p q (ground arith) (
        reclaim-Reclaimed cs (record p { count = p.count - 1; deleted = c.id ∷ p.deleted }) q now
          (rw (h, k) at e))
    | inr k ↦
        subst (Reclaimed (c ∷ cs) p) (some-injective _ _ (rw (h, k) at e))
          (Reclaimed-same (c ∷ cs) p)
  ]
]
