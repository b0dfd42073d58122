-- ===== src/Algorithm/Dijkstra/Relax.antt =====
-- What the relaxation of a node's neighbours does to the distances.
use learn_note.Prelude.{
  ℕ, zero, suc, ◌+◌, ◌≤◌, ◌<◌, ◌==◌, ◌≡◌, ◌≢◌, inl, inr, refl, sym, ap, ◌∙◌, subst, Bool,
  Bool-cases, true, false, not, ◌&&◌, if◌then◌else◌, if-true, if-false, arith, ltb,
}
use learn_note.Algorithm.Dijkstra.{int_max, Search, put, relax_one, relax, visit}

-- Whether the way to `b` through `u` counts, and what the distance to `b` becomes.
abbrev pub is_edge : (ℕ → ℕ → ℕ) → Search → (u b : ℕ) → Bool
is_edge g s u b = not (s.visited b) && not (g u b == int_max)

abbrev pub improved : (ℕ → ℕ → ℕ) → Search → (u b : ℕ) → ℕ
improved g s u b =
    if is_edge g s u b && ltb (s.dist u + g u b) (s.dist b) then s.dist u + g u b else s.dist b

-- What one relaxation of `v` from a visited node does.
record Relaxation (g : ℕ → ℕ → ℕ) (u v : ℕ) (s t : Search) : Type 0 where
  visited : t.visited ≡ s.visited
  here : t.dist v ≡ improved g s u v
  there : (b : ℕ) → b ≢ v → t.dist b ≡ s.dist b
  overflow :
      s.overflow ≡ false
      → (is_edge g s u v ≡ true → s.dist u + g u v ≤ int_max)
      → t.overflow ≡ false

relax_one-Relaxation :
    (g : ℕ → ℕ → ℕ) (u v : ℕ) (s : Search) → Relaxation g u v s (relax_one g u v s)
unfolding relax_one
relax_one-Relaxation g u v s = elim (Bool-cases (is_edge g s u v)) [
  | inl t ↦ subst (Relaxation g u v s) (sym (if-true _ _ t)) (record {
    visited = refl;
    here = ground (arith, t);
    there = λ b ne. ground (arith, t, ne);
    overflow = λ o small. ground (arith, o, small t);
  })
  | inr f ↦ subst (Relaxation g u v s) (sym (if-false _ _ f)) (record {
    visited = refl;
    here = ground (arith, f);
    there = λ b ne. refl;
    overflow = λ o small. o;
  })
]

-- The node that is relaxed keeps its distance.
kept :
    (g : ℕ → ℕ → ℕ) (u v : ℕ) (s t : Search)
    → Relaxation g u v s t
    → s.visited u ≡ true
    → t.dist u ≡ s.dist u
kept g u v s t o old = elim (Bool-cases (u == v)) [
  | inl e ↦ ground (arith, e, old, o.here, o.there u)
  | inr ne ↦ o.there u (λ h. ground (arith, ne, h))
]

same_improved :
    (g : ℕ → ℕ → ℕ) (u v b : ℕ) (s t : Search)
    → Relaxation g u v s t
    → s.visited u ≡ true
    → b ≢ v
    → (is_edge g t u b ≡ is_edge g s u b) × (improved g t u b ≡ improved g s u b)
same_improved g u v b s t o old ne =
    let du = kept g u v s t o old in
    let db = o.there b ne in
    let vb = ap (λ f. f b) o.visited in (ground (arith, vb), ground (arith, du, db, vb))

-- What the relaxation of `count` nodes from `v` on does.
record Range (g : ℕ → ℕ → ℕ) (u count v : ℕ) (s t : Search) : Type 0 where
  visited : t.visited ≡ s.visited
  inside : (b : ℕ) → v ≤ b → b < v + count → t.dist b ≡ improved g s u b
  before : (b : ℕ) → b < v → t.dist b ≡ s.dist b
  overflow :
      s.overflow ≡ false
      → ((b : ℕ) → v ≤ b → b < v + count → is_edge g s u b ≡ true → s.dist u + g u b ≤ int_max)
      → t.overflow ≡ false

one_more :
    (g : ℕ → ℕ → ℕ) (u count v : ℕ) (s m t : Search)
    → s.visited u ≡ true
    → Relaxation g u v s m
    → Range g u count (v + 1) m t
    → Range g u (suc count) v s t
one_more g u count v s m t old o r = record {
  visited = r.visited ∙ o.visited;
  inside = λ b low high. elim (Bool-cases (b == v)) [
    | inl e ↦
        let same : b ≡ v = ground (arith, e) in
        subst (λ i. t.dist i ≡ improved g s u i) (sym same) (r.before v (omega arith) ∙ o.here)
    | inr ne ↦
        let differs : b ≢ v = λ h. ground (arith, ne, h) in
        r.inside b (ground (arith, ne, low)) (omega (arith, high))
        ∙ (same_improved g u v b s m o old differs).1
  ];
  before =
      λ b low. r.before b (omega (arith, low)) ∙ o.there b (λ h. absurd (omega (arith, h, low)));
  overflow = λ clear small.
      r.overflow (o.overflow clear (small v (omega arith) (omega arith))) (λ b low high edge.
        let differs : b ≢ v = λ h. absurd (omega (arith, h, low)) in
        subst (λ d. d + g u b ≤ int_max) (sym (kept g u v s m o old))
          (small b (omega (arith, low)) (omega (arith, high))
            (sym (same_improved g u v b s m o old differs).0 ∙ edge)));
}

relax-Range :
    (g : ℕ → ℕ → ℕ) (u count v : ℕ) (s : Search)
    → s.visited u ≡ true
    → Range g u count v s (relax g u count v s)
unfolding relax
relax-Range g u zero v s old = record {
  visited = refl;
  inside = λ b low high. absurd (omega (arith, low, high));
  before = λ b low. refl;
  overflow = λ clear small. clear;
}
relax-Range g u (suc count) v s old =
    let m = relax_one g u v s in
    let o = relax_one-Relaxation g u v s in
    one_more g u count v s m (relax g u count (v + 1) m) old o
      (relax-Range g u count (v + 1) m (ap (λ f. f u) o.visited ∙ old))

-- What a turn of the outer loop does at `u`.
pub record Visited (g : ℕ → ℕ → ℕ) (n u : ℕ) (s t : Search) : Type 0 where
  pub visited : (b : ℕ) → t.visited b ≡ (if u == b then true else s.visited b)
  pub dist :
      (b : ℕ) → b < n → t.dist b ≡ improved g (record s { visited = put s.visited u true }) u b
  pub overflow :
      s.overflow ≡ false
      → ((b : ℕ) → b < n → not (g u b == int_max) ≡ true → s.dist u + g u b ≤ int_max)
      → t.overflow ≡ false

pub visit-Visited : (g : ℕ → ℕ → ℕ) (n u : ℕ) (s : Search) → Visited g n u s (visit g n u s)
unfolding visit
visit-Visited g n u s =
    let marked = record s { visited = put s.visited u true } in
    let r = relax-Range g u n 0 marked (ground arith) in
    record {
      visited = λ b. ap (λ f. f b) r.visited;
      dist = λ b h. r.inside b (omega arith) (omega (arith, h));
      overflow = λ clear small.
          r.overflow clear
            (λ b low high edge. small b (omega (arith, high)) (ground (arith, edge)));
    }
